-- ===== src/Gateway/Processor/Streams.antt =====
-- gateway/handler/business_processor.cc: the connections do not disturb one another.
use mathlib.Core.Option
use file_server.Prelude.{
  ℕ, ◌≡◌, refl, ap, sym, subst, ◌∙◌, true, false, Option, none, some, List, [], ◌∷◌, ◌++◌, map,
  ◌==◌, inl, inr, arith, Bool-cases, append_assoc, append-nil, All, if◌then◌else◌, ==_iff, if-true,
  if-false,
}
use file_server.Prelude.Int.{ℤ}
use file_server.Prelude.Dict.{lookup, lookup-insert}
use file_server.Protocol.Message.{Message, IsSendable, encode_batch, sealed}
use file_server.Protocol.Decoder.{Decoder, Parsed, init, feed, feed_pieces, after_feed}
use file_server.Protocol.Decoder.Delivery.{concat, stream_delivery}
use file_server.Protocol.Decoder.Termination.{feed_total}
use file_server.ThreadPool.{Pool, submit}
use file_server.Gateway.Processor.{
  NetworkTask, Processor, get_decoder, submit_all, on_parsed, on_message, Event, run,
}

-- The requests of one connection among tasks, and its bytes among events, in order.
unfoldable pub requests_of : ℕ → List NetworkTask → List Message
requests_of conn [] = []
requests_of conn (t ∷ ts) =
    let rest = requests_of conn ts in if conn == t.conn then t.request ∷ rest else rest

unfoldable pub pieces_of : ℕ → List Event → List (List ℕ)
pieces_of conn [] = []
pieces_of conn (e ∷ es) =
    let rest = pieces_of conn es in if conn == e.conn then e.raw ∷ rest else rest

abbrev pub or_init : Option Decoder → Decoder
or_init none = init
or_init (some d) = d

abbrev pub decoder_of : ℕ → Processor → Decoder
decoder_of conn p = or_init (lookup conn p.decoders)

requests_of-append :
    (conn : ℕ) (ts us : List NetworkTask)
    → requests_of conn (ts ++ us) ≡ requests_of conn ts ++ requests_of conn us
unfolding requests_of
requests_of-append conn [] us = refl
requests_of-append conn (t ∷ ts) us = ground (arith, requests_of-append conn ts us)

abbrev own : ℕ → ℕ → List Message → List Message
own c conn ms = if c == conn then ms else []

module _ (c conn : ℕ) (now : ℤ) where
  submit-requests :
      (m : Message) (pool : Pool NetworkTask)
      → pool.running ≡ true
      → (pool' : Pool NetworkTask) × (submit
            (record { request = m; conn = conn; enqueue_time_ms = now })
            pool
          ≡ some pool')
        × (pool'.running ≡ true)
        × (requests_of c pool'.submitted ≡ requests_of c pool.submitted ++ own c conn (m ∷ []))
  unfolding submit requests_of
  submit-requests m pool on =
      let task : NetworkTask = record { request = m; conn = conn; enqueue_time_ms = now } in
      (
        record pool { tasks = pool.tasks ++ task ∷ []; submitted = pool.submitted ++ task ∷ [] },
        ground arith,
        on,
        requests_of-append c pool.submitted (task ∷ []),
      )

  own-cons :
      (m : Message) (ms : List Message) → own c conn (m ∷ []) ++ own c conn ms ≡ own c conn (m ∷ ms)
  own-cons m ms = ground arith

  submit_all-requests :
      (ms : List Message) (pool : Pool NetworkTask)
      → pool.running ≡ true
      → let (ok, pool') = submit_all conn now ms pool in
        (ok ≡ true)
        × (pool'.running ≡ true)
        × (requests_of c pool'.submitted ≡ requests_of c pool.submitted ++ own c conn ms)
  unfolding submit_all
  submit_all-requests [] pool on =
      (refl, on, sym (ground (arith, append-nil (requests_of c pool.submitted))))
  submit_all-requests (m ∷ ms) pool on =
      let (pool', made, on', one) = submit-requests m pool on in
      let (ok, on'', more) = submit_all-requests ms pool' on' in
      rw (made, submit_all)
        (
          ok,
          on'',
          more
              ∙ ap (λ r. r ++ own c conn ms) one
              ∙ append_assoc (requests_of c pool.submitted) (own c conn (m ∷ [])) (own c conn ms)
              ∙ ap (◌++◌ (requests_of c pool.submitted)) (own-cons m ms),
        )

  -- `GetDecoder` answers with the decoder of the connection, and changes none.
  get_decoder_lem :
      (p : Processor)
      → ((get_decoder conn p).0 ≡ decoder_of conn p)
        × ((get_decoder conn p).1.pool ≡ p.pool)
        × (decoder_of c (get_decoder conn p).1 ≡ decoder_of c p)
  unfolding get_decoder
  get_decoder_lem p =
      (ground arith, ground arith, ground (arith, lookup-insert conn c init p.decoders, same_key))
    where
      same_key : (c == conn) ≡ true → lookup c p.decoders ≡ lookup conn p.decoders
      same_key e = ap (λ k. lookup k p.decoders) ((==_iff c conn).0 e)

  abbrev Received : Processor → List Message → Decoder → Processor → Type 0
  Received p ms d p' =
      (p'.pool.running ≡ true)
      × (decoder_of c p' ≡ (if c == conn then d else decoder_of c p))
      × (requests_of c p'.pool.submitted ≡ requests_of c p.pool.submitted ++ own c conn ms)

  on_parsed-Received :
      (p : Processor) (ms : List Message) (d : Decoder)
      → p.pool.running ≡ true
      → Received p ms d (on_parsed conn now (some (ms, d)) p).1
  unfolding on_parsed
  on_parsed-Received p ms d on =
      let (ok, on', more) = submit_all-requests ms p.pool on in
      (on', ground (arith, lookup-insert conn c d p.decoders), more)

  -- What one message callback does to what is known of the connection `c`.
  on_message-Received :
      (raw : List ℕ) (p : Processor) (ms : List Message) (d : Decoder)
      → p.pool.running ≡ true
      → feed (decoder_of conn p) raw ≡ some (ms, d)
      → Received p ms d (on_message conn raw now p).1
  unfolding on_message
  on_message-Received raw p ms d on e =
      let (is_d, same_pool, same_decoders) = get_decoder_lem p in
      let p₁ = (get_decoder conn p).1 in
      let fed : feed (get_decoder conn p).0 raw ≡ some (ms, d) = ap (λ k. feed k raw) is_d ∙ e in
      let (on', d', more) = on_parsed-Received p₁ ms d (ap (λ q. q.running) same_pool ∙ on) in
      subst (λ r. Received p ms d (on_parsed conn now r p₁).1) (sym fed)
        (
          on',
          d' ∙ ap (λ k. if c == conn then d else k) same_decoders,
          more ∙ ap (λ q. requests_of c q.submitted ++ own c conn ms) same_pool,
        )

feed_no_pieces :
    (c : ℕ) (p : Processor)
    → some ([], decoder_of c p) ≡ feed_pieces (pieces_of c []) (decoder_of c p)
unfolding feed_pieces pieces_of
feed_no_pieces c p = refl

abbrev parsed_or_none : Option Parsed → Parsed
parsed_or_none none = ([], init)
parsed_or_none (some r) = r

abbrev behind : List Message → Parsed → Parsed
behind ms (more, last) = (ms ++ more, last)

map-behind_inv :
    (ms₁ ms : List Message) (d : Decoder) (r : Option Parsed)
    → Option.map (behind ms₁) r ≡ some (ms, d)
    → (ms₂ : List Message) × (r ≡ some (ms₂, d)) × (ms ≡ ms₁ ++ ms₂)
map-behind_inv ms₁ ms d none e = absurd (cc)
map-behind_inv ms₁ ms d (some (ms₂, d')) e =
    let both : behind ms₁ (ms₂, d') ≡ (ms, d) = ap parsed_or_none e in
    (ms₂, ap (λ k. some (ms₂, k)) (ap (λ q. q.1) both), ap (λ q. q.0) (sym both))

feed_pieces-cons :
    (d d₁ d₂ : Decoder) (piece : List ℕ) (pieces : List (List ℕ)) (ms₁ ms : List Message)
    → feed d piece ≡ some (ms₁, d₁)
    → feed_pieces (piece ∷ pieces) d ≡ some (ms, d₂)
    → (ms₂ : List Message) × (feed_pieces pieces d₁ ≡ some (ms₂, d₂)) × (ms ≡ ms₁ ++ ms₂)
unfolding feed_pieces after_feed
feed_pieces-cons d d₁ d₂ piece pieces ms₁ ms e f =
    map-behind_inv ms₁ ms d₂ (feed_pieces pieces d₁)
      (sym (ap (after_feed (feed_pieces pieces)) e) ∙ f)

pieces_of-own :
    (c : ℕ) (e : Event) (es : List Event)
    → (c == e.conn) ≡ true
    → pieces_of c (e ∷ es) ≡ e.raw ∷ pieces_of c es
unfolding pieces_of
pieces_of-own c e es h = ground arith

pieces_of-other :
    (c : ℕ) (e : Event) (es : List Event)
    → (c == e.conn) ≡ false
    → pieces_of c (e ∷ es) ≡ pieces_of c es
unfolding pieces_of
pieces_of-other c e es h = ground arith

-- The tasks of a connection are those that it would have with a decoder of its own, fed with its bytes
-- alone, whatever the other connections send in between.
pub run-requests :
    (c : ℕ) (es : List Event) (p : Processor) (ms : List Message) (d : Decoder)
    → p.pool.running ≡ true
    → feed_pieces (pieces_of c es) (decoder_of c p) ≡ some (ms, d)
    → requests_of c (run es p).pool.submitted ≡ requests_of c p.pool.submitted ++ ms
unfolding run
run-requests c [] p ms d on e =
    sym (append-nil (requests_of c p.pool.submitted))
    ∙ ap (◌++◌ (requests_of c p.pool.submitted))
        (ap (λ r. (parsed_or_none r).0) (feed_no_pieces c p ∙ e))
run-requests c (ev ∷ es) p ms d on e =
    let ((ms₁, d₁), fed) = feed_total (decoder_of ev.conn p) ev.raw in
    let p₁ = (on_message ev.conn ev.raw ev.time p).1 in
    let (on₁, dec, more) = on_message-Received c ev.conn ev.time ev.raw p ms₁ d₁ on fed in
    elim (Bool-cases (c == ev.conn)) [
      | inl mine ↦
          let same : c ≡ ev.conn = (==_iff c ev.conn).0 mine in
          let (ms₂, rest, cut) =
            feed_pieces-cons (decoder_of c p) d₁ d ev.raw (pieces_of c es) ms₁ ms
              (ap (λ k. feed (decoder_of k p) ev.raw) same ∙ fed)
              (ap (λ ps. feed_pieces ps (decoder_of c p)) (sym (pieces_of-own c ev es mine)) ∙ e) in
          run-requests c es p₁ ms₂ d on₁
            (ap (feed_pieces (pieces_of c es)) (dec ∙ if-true (decoder_of c p) mine) ∙ rest)
          ∙ ap (λ q. q ++ ms₂) (more ∙ ap (◌++◌ (requests_of c p.pool.submitted)) (if-true [] mine))
          ∙ append_assoc (requests_of c p.pool.submitted) ms₁ ms₂
          ∙ ap (◌++◌ (requests_of c p.pool.submitted)) (sym cut)
      | inr other ↦
          run-requests c es p₁ ms d on₁ (
            ap (feed_pieces (pieces_of c es)) (dec ∙ if-false d₁ other)
            ∙ ap (λ ps. feed_pieces ps (decoder_of c p)) (sym (pieces_of-other c ev es other))
            ∙ e)
          ∙ ap (λ q. q ++ ms)
              (more
                ∙ ap (◌++◌ (requests_of c p.pool.submitted)) (if-false ms₁ other)
                ∙ append-nil (requests_of c p.pool.submitted))
    ]

-- No message stops the pool.
pub run-running :
    (es : List Event) (p : Processor) → p.pool.running ≡ true → (run es p).pool.running ≡ true
unfolding run
run-running [] p on = on
run-running (e ∷ es) p on =
    let ((ms, d), fed) = feed_total (decoder_of e.conn p) e.raw in
    let (on', dec, more) = on_message-Received e.conn e.conn e.time e.raw p ms d on fed in
    run-running es (on_message e.conn e.raw e.time p).1 on'

-- However the bytes of the connections are cut and mixed in time: where those of one connection are
-- the encoding of sendable messages, its tasks are these messages, in order, each once, with the
-- headers that were sent. The pool runs, and nothing was received before.
pub streams_separate :
    (c : ℕ) (es : List Event) (ms : List Message) (pool : Pool NetworkTask)
    → pool.running ≡ true
    → pool.submitted ≡ []
    → All IsSendable ms
    → concat (pieces_of c es) ≡ encode_batch ms
    → requests_of c (run es (record { decoders = []; pool = pool })).pool.submitted ≡ map sealed ms
unfolding requests_of lookup
streams_separate c es ms pool on empty sendable bytes =
    let (d, delivered, rest) = stream_delivery ms (pieces_of c es) sendable bytes in
    run-requests c es (record { decoders = []; pool = pool }) (map sealed ms) d on delivered
    ∙ ap (λ ts. requests_of c ts ++ map sealed ms) empty
