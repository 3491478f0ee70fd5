-- ===== src/Protocol/Decoder.antt =====
-- protocol/decoder.cc: the state machine that finds messages in a stream of bytes.
pub mod Step
pub mod Stream
pub mod Delivery
pub mod Soundness
pub mod Termination
pub mod Recovery
use file_server.Prelude.{
  ℕ, zero, suc, ◌+◌, Bool, true, false, Option, none, some, List, [], ◌∷◌, ◌++◌, length, take, drop,
  ltb, ◌==◌, if◌then◌else◌,
}
use mathlib.Core.Option
use file_server.Protocol.Header.{MessageHeader, empty_header, decode_from, header_size}
use file_server.Protocol.Crc.{crc32}
use file_server.Protocol.Message.{Message, payload}

pub data State : Type 0 where
  wait_header wait_body : State

pub record Decoder : Type 0 where
  pub state : State
  pub buffer : List ℕ
  pub current_header : MessageHeader

abbrev pub init : Decoder
init = record { state = wait_header; buffer = []; current_header = empty_header }

-- `Reset` leaves the header.
pub reset : Decoder → Decoder
reset d = record d { state = wait_header; buffer = [] }

-- `size_t total_needed`: a sum of three numbers below 2 ^ 33 does not wrap in 64 bits.
abbrev pub total_needed : MessageHeader → ℕ
total_needed h = header_size + h.body_length + h.data_length

-- `msg.json_body.assign(body_start, ...)` and `msg.binary_data.assign(data_start, ...)`
abbrev pub body_part : MessageHeader → List ℕ → List ℕ
body_part h buffer = take h.body_length (drop header_size buffer)

abbrev pub data_part : MessageHeader → List ℕ → List ℕ
data_part h buffer = take h.data_length (drop (header_size + h.body_length) buffer)

-- The checksum that the bytes of the message should have.
unfoldable pub calculated : MessageHeader → List ℕ → ℕ
calculated h buffer =
    crc32 (payload (record h { checksum = 0 }) (body_part h buffer) (data_part h buffer))

-- The second half of `TryParseMessage`, in the state `kWaitBody`.
unfoldable pub parse_body : Decoder → Option Message × Decoder
parse_body d =
    let h = d.current_header in
    if ltb (length d.buffer) (total_needed h)
    then (none, d)
    else if calculated h d.buffer == h.checksum
    then (
      some (record {
        header = h;
        json_body = body_part h d.buffer;
        binary_data = data_part h d.buffer;
      }),
      record d { buffer = drop (total_needed h) d.buffer; state = wait_header },
    )
    else (none, record d { buffer = drop 1 d.buffer; state = wait_header })

-- The first half, after the 24 bytes are there.
unfoldable pub accept_header : Bool → MessageHeader → Decoder → Option Message × Decoder
accept_header true h d = parse_body (record d { state = wait_body; current_header = h })
accept_header false h d = (none, record d { current_header = h; buffer = drop 1 d.buffer })

unfoldable pub parse_from : State → Decoder → Option Message × Decoder
parse_from wait_header d =
    if ltb (length d.buffer) header_size
    then (none, d)
    else accept_header (decode_from d.buffer).0 (decode_from d.buffer).1 d
parse_from wait_body d = parse_body d

-- `TryParseMessage`: the message in the place of the result `true`.
unfoldable pub try_parse_message : Decoder → Option Message × Decoder
unfolding parse_from
try_parse_message d = parse_from d.state d

abbrev pub Parsed : Type 0
Parsed = List Message × Decoder

abbrev pub prepend : Message → Parsed → Parsed
prepend msg (msgs, d) = (msg ∷ msgs, d)

-- One round of the loop of `Feed`: `break`, or `push_back` and go on.
unfoldable pub feed_round : (Decoder → Option Parsed) → Option Message × Decoder → Option Parsed
feed_round go_on (none, d) = some ([], d)
feed_round go_on (some msg, d) = Option.map (prepend msg) (go_on d)

-- The loop, on fuel; `none` means that the fuel ran out.
unfoldable pub feed_loop : ℕ → Decoder → Option Parsed
feed_loop zero d = none
feed_loop (suc fuel) d = feed_round (feed_loop fuel) (try_parse_message d)

-- `Feed(data, len)`. A parsed message takes 24 bytes at least, so the bytes are fuel enough.
unfoldable pub feed : Decoder → List ℕ → Option Parsed
feed d bytes =
    let buffer = d.buffer ++ bytes in feed_loop (suc (length buffer)) (record d { buffer = buffer })

-- The calls of `Feed` that the network layer makes, one for each piece of the stream.
unfoldable pub after_feed : (Decoder → Option Parsed) → Option Parsed → Option Parsed
after_feed go_on none = none
after_feed go_on (some (msgs, d)) = Option.map (λ (more, last). (msgs ++ more, last)) (go_on d)

unfoldable pub feed_pieces : List (List ℕ) → Decoder → Option Parsed
unfolding after_feed
feed_pieces [] d = some ([], d)
feed_pieces (piece ∷ pieces) d = after_feed (feed_pieces pieces) (feed d piece)
