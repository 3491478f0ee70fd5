-- ===== src/Protocol/Decoder/Delivery.antt =====
-- Whatever the pieces in which a stream of messages arrives, the messages come out.
use mathlib.Core.Option
use mathlib.Core.List.{map-append}
use file_server.Prelude.{
  ℕ, suc, ◌≡◌, refl, sym, ap, ◌∙◌, Option, some, List, [], ◌∷◌, ◌++◌, length, All, arith,
  length-append, append_assoc, append-nil, map,
}
use file_server.Protocol.Message.{Message, IsSendable, encode, encode_batch, sealed, length-encode}
use file_server.Protocol.Decoder.{Decoder, init, feed, feed_pieces, after_feed, Parsed}
use file_server.Protocol.Decoder.Stream.{
  Expects, Pending, HoldsPart, Progress, Expects-fresh, feed_loop-Progress,
}

-- The bytes of the pieces, one after the other.
unfoldable pub concat : List (List ℕ) → List ℕ
concat [] = []
concat (piece ∷ pieces) = piece ++ concat pieces

Expects-more :
    (ms : List Message) (d : Decoder) (b : List ℕ)
    → Expects ms d
    → Expects ms (record d { buffer = b })
Expects-more [] d b e = e
Expects-more (m ∷ ms) d b e = e

feed-Progress :
    (ms : List Message) (d : Decoder) (piece rest : List ℕ)
    → Pending ms (piece ++ rest) d
    → Progress ms rest (feed d piece)
unfolding feed
feed-Progress ms d piece rest p =
    feed_loop-Progress ms (suc (length (d.buffer ++ piece)))
      (record d { buffer = d.buffer ++ piece }) rest
      (record {
        sendable = p.sendable;
        bytes = append_assoc d.buffer piece rest ∙ p.bytes;
        expects = Expects-more ms d (d.buffer ++ piece) p.expects;
      })
      (omega arith)

abbrev Delivers : List Message → Option Parsed → Type 0
Delivers ms r = (d : Decoder) × (r ≡ some (map sealed ms, d)) × (d.buffer ≡ [])

-- At the end of the stream nothing is left.
end_of_stream :
    (ms : List Message) (d : Decoder)
    → Pending ms [] d
    → HoldsPart ms d
    → Delivers ms (some ([], d))
unfolding encode_batch
end_of_stream [] d p h = (d, refl, sym (append-nil d.buffer) ∙ p.bytes)
end_of_stream (m ∷ ms) d p h = absurd (
    omega (
      arith,
      ap length p.bytes,
      length-append d.buffer [],
      length-append (encode m) (encode_batch ms),
    ))

feed_pieces-Delivers :
    (pieces : List (List ℕ)) (ms : List Message) (d : Decoder)
    → Pending ms (concat pieces) d
    → HoldsPart ms d
    → Delivers ms (feed_pieces pieces d)
unfolding feed_pieces concat
feed_pieces-Delivers [] ms d p h = end_of_stream ms d p h
feed_pieces-Delivers (piece ∷ pieces) ms d p h =
    let q = feed-Progress ms d piece (concat pieces) p in
    let (d', e, empty) = feed_pieces-Delivers pieces q.pending q.last q.then_pending q.holds_part in
    (
      d',
      ap (after_feed (feed_pieces pieces)) q.returns
          ∙ ap (Option.map (λ (more, last). (map sealed q.done ++ more, last))) e
          ∙ ap (λ l. some (l, d'))
              (sym (map-append sealed q.done q.pending) ∙ ap (map sealed) (sym q.cut)),
      empty,
    )

init_holds : (ms : List Message) → HoldsPart ms init
init_holds [] = tt
init_holds (m ∷ ms) = omega (arith, length-encode m)

-- The bytes of sendable messages, cut anywhere into pieces, give a new decoder exactly these
-- messages, in order and with the headers that were sent; nothing stays in its buffer.
pub stream_delivery :
    (ms : List Message) (pieces : List (List ℕ))
    → All IsSendable ms
    → concat pieces ≡ encode_batch ms
    → (d : Decoder) × (feed_pieces pieces init ≡ some (map sealed ms, d)) × (d.buffer ≡ [])
stream_delivery ms pieces v e =
    feed_pieces-Delivers pieces ms init
      (record { sendable = v; bytes = e; expects = Expects-fresh ms init refl }) (init_holds ms)
