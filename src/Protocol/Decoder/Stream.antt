-- ===== src/Protocol/Decoder/Stream.antt =====
-- A stream of messages, cut into pieces anywhere: each is found once, in order.
use mathlib.Core.Option
use file_server.Prelude.{
  ℕ, zero, suc, ◌<◌, ◌≡◌, refl, sym, ap, subst, ◌∙◌, inl, inr, Option, none, some, List, [], ◌∷◌,
  ◌++◌, length, All, ltb, arith, length-append, map, append_split, append-eq-nil, ltb→lt, ltb→ge,
  Bool-cases,
}
use file_server.Protocol.Header.{MessageHeader}
use file_server.Protocol.Message.{
  Message, IsSendable, encode, encode_batch, sealed, sealed_header, length-encode,
}
use file_server.Protocol.Decoder.{
  Decoder, State, wait_header, try_parse_message, feed_round, feed_loop, prepend,
}
use file_server.Protocol.Decoder.Step.{Awaits, try_parse_short, try_parse_whole, try_parse_part}

pub feed_loop-none :
    (fuel : ℕ) (d d' : Decoder)
    → try_parse_message d ≡ (none, d')
    → feed_loop (suc fuel) d ≡ some ([], d')
unfolding feed_loop feed_round
feed_loop-none fuel d d' e = ap (feed_round (feed_loop fuel)) e

pub feed_loop-some :
    (fuel : ℕ) (d d' last : Decoder) (m : Message) (ms : List Message)
    → try_parse_message d ≡ (some m, d')
    → feed_loop fuel d' ≡ some (ms, last)
    → feed_loop (suc fuel) d ≡ some (m ∷ ms, last)
unfolding feed_loop feed_round
feed_loop-some fuel d d' last m ms e r =
    ap (feed_round (feed_loop fuel)) e ∙ ap (Option.map (prepend m)) r

-- The decoder stands before the first of these messages.
abbrev pub Expects : List Message → Decoder → Type 0
Expects [] d = d.state ≡ wait_header
Expects (m ∷ ms) d = Awaits m d

-- It holds no whole message.
abbrev pub HoldsPart : List Message → Decoder → Type 0
HoldsPart [] d = Unit
HoldsPart (m ∷ ms) d = length d.buffer < length (encode m)

-- What is in the buffer and what is still to come are the bytes of these messages.
pub record Pending (ms : List Message) (rest : List ℕ) (d : Decoder) : Type 0 where
  pub sendable : All IsSendable ms
  pub bytes : d.buffer ++ rest ≡ encode_batch ms
  pub expects : Expects ms d

-- What a feed has done with the messages that were pending.
pub record Progress (ms : List Message) (rest : List ℕ) (r : Option (List Message × Decoder))
    : Type 0 where
  pub done : List Message
  pub pending : List Message
  pub last : Decoder
  pub cut : ms ≡ done ++ pending
  pub returns : r ≡ some (map sealed done, last)
  pub then_pending : Pending pending rest last
  pub holds_part : HoldsPart pending last

pub Expects-fresh : (ms : List Message) (d : Decoder) → d.state ≡ wait_header → Expects ms d
Expects-fresh [] d e = e
Expects-fresh (m ∷ ms) d e = inl e

-- With no message left the buffer is empty.
idle_Progress :
    (fuel : ℕ) (d : Decoder) (rest : List ℕ)
    → Pending [] rest d
    → Progress [] rest (feed_loop (suc fuel) d)
unfolding encode_batch
idle_Progress fuel d rest p = record {
  done = [];
  pending = [];
  last = d;
  cut = refl;
  returns = feed_loop-none fuel d d stays;
  then_pending = p;
  holds_part = tt;
}
  where
    stays : try_parse_message d ≡ (none, d)
    stays = try_parse_short d p.expects (rw (append-eq-nil d.buffer rest p.bytes) (omega arith))

-- With a part of a message the loop ends.
part_Progress :
    (m : Message) (ms : List Message) (fuel : ℕ) (d : Decoder) (rest : List ℕ)
    → Pending (m ∷ ms) rest d
    → length d.buffer < length (encode m)
    → Progress (m ∷ ms) rest (feed_loop (suc fuel) d)
unfolding encode_batch
part_Progress m ms fuel d rest p short =
    let (d', e, same, awaits) =
      try_parse_part m p.sendable.0 d.buffer rest (encode_batch ms) p.bytes short d.state
        d.current_header p.expects in
    record {
      done = [];
      pending = m ∷ ms;
      last = d';
      cut = refl;
      returns = feed_loop-none fuel d d' e;
      then_pending = record {
        sendable = p.sendable;
        bytes = ap (λ b. b ++ rest) same ∙ p.bytes;
        expects = awaits;
      };
      holds_part = rw same short;
    }

-- A whole message is taken off, and the rest of the loop has the others.
whole_Progress :
    (m : Message) (ms : List Message) (fuel : ℕ) (s : State) (h : MessageHeader)
    (tail rest : List ℕ)
    → IsSendable m
    → Awaits m (record { state = s; buffer = encode m ++ tail; current_header = h })
    → Progress ms rest (
        feed_loop fuel
          (record { state = wait_header; buffer = tail; current_header = sealed_header m }))
    → Progress
        (m ∷ ms)
        rest
        (feed_loop (suc fuel) (record { state = s; buffer = encode m ++ tail; current_header = h }))
whole_Progress m ms fuel s h tail rest v a q = record {
  done = m ∷ q.done;
  pending = q.pending;
  last = q.last;
  cut = ap (◌∷◌ m) q.cut;
  returns =
      feed_loop-some fuel _ _ q.last (sealed m) (map sealed q.done) (try_parse_whole m v s h tail a)
        q.returns;
  then_pending = q.then_pending;
  holds_part = q.holds_part;
}

pub feed_loop-Progress :
    (ms : List Message) (fuel : ℕ) (d : Decoder) (rest : List ℕ)
    → Pending ms rest d
    → length d.buffer < fuel
    → Progress ms rest (feed_loop fuel d)
unfolding encode_batch
feed_loop-Progress ms zero d rest p h = elim h [ ]
feed_loop-Progress [] (suc fuel) d rest p h = idle_Progress fuel d rest p
feed_loop-Progress (m ∷ ms) (suc fuel) d rest p h =
    elim (Bool-cases (ltb (length d.buffer) (length (encode m)))) [
      | inl short ↦ part_Progress m ms fuel d rest p (ltb→lt _ _ short)
      | inr whole ↦
          let (tail, e, bytes) =
            append_split (encode m) d.buffer rest (encode_batch ms) p.bytes (ltb→ge _ _ whole) in
          let fresh : Decoder = record {
            state = wait_header;
            buffer = tail;
            current_header = sealed_header m;
          } in
          subst (λ b. Progress (m ∷ ms) rest (feed_loop (suc fuel) (record d { buffer = b })))
            (sym e)
            (whole_Progress m ms fuel d.state d.current_header tail rest p.sendable.0 p.expects (
              feed_loop-Progress ms fuel fresh rest
                (record {
                  sendable = p.sendable.1;
                  bytes = bytes;
                  expects = Expects-fresh ms fresh refl;
                })
                (omega (arith, ap length e, length-append (encode m) tail, length-encode m))))
    ]
