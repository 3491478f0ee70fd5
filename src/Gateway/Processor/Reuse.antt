-- ===== src/Gateway/Processor/Reuse.antt =====
-- gateway/handler/business_processor.cc: what a byte in the decoder of an address does to a message that
-- comes from there later.
use file_server.Prelude.{
  ℕ, ◌≡◌, refl, ap, ◌∙◌, true, some, List, [], ◌∷◌, ◌++◌, append-nil, arith, ==_refl,
}
use file_server.Prelude.Int.{ℤ}
use file_server.Prelude.Dict.{lookup, lookup-remove}
use file_server.Protocol.Message.{Message, IsSendable, encode, encode_batch, sealed}
use file_server.Protocol.Decoder.{
  Decoder, init, feed, feed_pieces, feed_loop, feed_round, after_feed, try_parse_message,
}
use file_server.Protocol.Decoder.Delivery.{concat, stream_delivery}
use file_server.Protocol.Decoder.Recovery.{stray_byte}
use file_server.ThreadPool.{Pool}
use file_server.Gateway.Processor.{NetworkTask, Processor, remove_decoder, Event, run}
use file_server.Gateway.Processor.Streams.{
  requests_of, pieces_of, decoder_of, or_init, run-requests, run-running,
}

abbrev with_byte : ℕ → Decoder
with_byte b = record init { buffer = b ∷ [] }

module _ (b : ℕ) (m : Message) (v : IsSendable m) where
  one_byte : feed init (b ∷ []) ≡ some ([], with_byte b)
  unfolding feed feed_loop try_parse_message feed_round
  one_byte = refl

  joined : feed (with_byte b) (encode m) ≡ feed init (b ∷ encode m)
  unfolding feed
  joined = refl

  first_byte : feed_pieces ((b ∷ []) ∷ []) init ≡ some ([], with_byte b)
  unfolding feed_pieces
  first_byte = rw (one_byte, after_feed) refl

  stuck : (d : Decoder) × (feed_pieces ((b ∷ []) ∷ encode m ∷ []) init ≡ some ([], d))
  unfolding feed_pieces
  stuck =
      let (d, dropped, left, later) = stray_byte m v b in
      (d, rw (one_byte, feed_pieces) (rw (joined ∙ dropped, feed_pieces) refl))

abbrev pub sent : ℕ → List ℕ → ℤ → Event
sent c raw time = record { conn = c; raw = raw; time = time }

abbrev pub fresh : Pool NetworkTask → Processor
fresh pool = record { decoders = []; pool = pool }

pieces_of-sent :
    (c : ℕ) (raw : List ℕ) (time : ℤ) (es : List Event)
    → pieces_of c (sent c raw time ∷ es) ≡ raw ∷ pieces_of c es
unfolding pieces_of
pieces_of-sent c raw time es = ground (arith, ==_refl c)

module _ (c b : ℕ) (m : Message) (v : IsSendable m) (time : ℤ) (later : ℤ)
    (pool : Pool NetworkTask) where
  abbrev closed : Processor
  closed = run (sent c (b ∷ []) time ∷ []) (fresh pool)

  module _ (on : pool.running ≡ true) (empty : pool.submitted ≡ []) where
    no_task : requests_of c pool.submitted ≡ []
    unfolding requests_of
    no_task = ap (requests_of c) empty

    no_task_yet : requests_of c closed.pool.submitted ≡ []
    unfolding pieces_of lookup
    no_task_yet =
        run-requests c (sent c (b ∷ []) time ∷ []) (fresh pool) [] (with_byte b) on
          (ap (λ ps. feed_pieces ps init) (pieces_of-sent c (b ∷ []) time []) ∙ first_byte b m v)
        ∙ append-nil (requests_of c pool.submitted)
        ∙ no_task

    no_task_later : requests_of c (run (sent c (encode m) later ∷ []) closed).pool.submitted ≡ []
    unfolding pieces_of lookup run
    no_task_later =
        let (d, waits) = stuck b m v in
        run-requests c (sent c (b ∷ []) time ∷ sent c (encode m) later ∷ []) (fresh pool) [] d on (
          ap (λ ps. feed_pieces ps init)
            (pieces_of-sent c (b ∷ []) time (sent c (encode m) later ∷ [])
              ∙ ap (◌∷◌ (b ∷ [])) (pieces_of-sent c (encode m) later []))
          ∙ waits)
        ∙ append-nil (requests_of c pool.submitted)
        ∙ no_task

    fresh_decoder : decoder_of c (remove_decoder c closed) ≡ init
    unfolding remove_decoder
    fresh_decoder = ap or_init (lookup-remove c c closed.decoders) ∙ ground (arith, ==_refl c)

    one_task :
        requests_of c (run (sent c (encode m) later ∷ []) (remove_decoder c closed)).pool.submitted
        ≡ sealed m ∷ []
    unfolding pieces_of remove_decoder concat encode_batch
    one_task =
        let (d, delivered, rest) = stream_delivery (m ∷ []) (encode m ∷ []) (v, tt) refl in
        run-requests c (sent c (encode m) later ∷ []) (remove_decoder c closed) (sealed m ∷ []) d
          (run-running (sent c (b ∷ []) time ∷ []) (fresh pool) on)
          (ap (feed_pieces (pieces_of c (sent c (encode m) later ∷ []))) fresh_decoder
            ∙ ap (λ ps. feed_pieces ps init) (pieces_of-sent c (encode m) later [])
            ∙ delivered)
        ∙ ap (λ ms. ms ++ sealed m ∷ []) no_task_yet

-- A connection sends one byte, and then a whole sendable message comes from the same address: no task is
-- made from it. With `RemoveDecoder` in between, the message is the one task. The pool runs and was
-- empty.
pub decoder_left_behind :
    (c b : ℕ) (m : Message) (time later : ℤ) (pool : Pool NetworkTask)
    → IsSendable m
    → pool.running ≡ true
    → pool.submitted ≡ []
    → let left = run (sent c (b ∷ []) time ∷ []) (fresh pool) in
      let next = sent c (encode m) later ∷ [] in
      (requests_of c (run next left).pool.submitted ≡ [])
      × (requests_of c (run next (remove_decoder c left)).pool.submitted ≡ sealed m ∷ [])
decoder_left_behind c b m time later pool v on empty =
    (no_task_later c b m v time later pool on empty, one_task c b m v time later pool on empty)
