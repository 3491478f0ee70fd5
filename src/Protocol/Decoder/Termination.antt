-- ===== src/Protocol/Decoder/Termination.antt =====
-- The loop of `Feed` ends.
use mathlib.Core.Option
use file_server.Prelude.{
  ℕ, zero, suc, ◌<◌, ◌≡◌, refl, ap, Option, none, some, List, [], ◌++◌, length, arith, length-drop,
  true, false, Bool,
}
use file_server.Protocol.Header.{MessageHeader, decode_from}
use file_server.Protocol.Message.{Message}
use file_server.Protocol.Decoder.{
  Decoder, State, wait_header, wait_body, parse_body, accept_header, parse_from, try_parse_message,
  feed_round, feed_loop, feed, Parsed, prepend, total_needed,
}

-- A message that is returned has left the buffer.
abbrev Shrinks : Decoder → Option Message × Decoder → Type 0
Shrinks d (none, d') = Unit {0}
Shrinks d (some m, d') = length d'.buffer < length d.buffer

parse_body-Shrinks : (d : Decoder) → Shrinks d (parse_body d)
unfolding parse_body
parse_body-Shrinks d = ground (arith, length-drop (total_needed d.current_header) d.buffer)

accept_header-Shrinks :
    (right : Bool) (h : MessageHeader) (d : Decoder) → Shrinks d (accept_header right h d)
unfolding accept_header
accept_header-Shrinks true h d =
    parse_body-Shrinks (record d { state = wait_body; current_header = h })
accept_header-Shrinks false h d = tt

parse_from-Shrinks : (s : State) (d : Decoder) → Shrinks d (parse_from s d)
unfolding parse_from
parse_from-Shrinks wait_header d =
    ground (arith, accept_header-Shrinks (decode_from d.buffer).0 (decode_from d.buffer).1 d)
parse_from-Shrinks wait_body d = parse_body-Shrinks d

feed_round_total :
    (fuel : ℕ) (d : Decoder) (r : Option Message × Decoder)
    → ((e : Decoder) → length e.buffer < fuel → (p : Parsed) × (feed_loop fuel e ≡ some p))
    → Shrinks d r
    → length d.buffer < suc fuel
    → (p : Parsed) × (feed_round (feed_loop fuel) r ≡ some p)
unfolding feed_round
feed_round_total fuel d (none, d') go_on s h = (([], d'), refl)
feed_round_total fuel d (some m, d') go_on s h =
    let (p, e) = go_on d' (omega arith) in (prepend m p, ap (Option.map (prepend m)) e)

feed_loop_total :
    (fuel : ℕ) (d : Decoder) → length d.buffer < fuel → (p : Parsed) × (feed_loop fuel d ≡ some p)
unfolding feed_loop try_parse_message
feed_loop_total zero d h = elim h [ ]
feed_loop_total (suc fuel) d h =
    feed_round_total fuel d (try_parse_message d) (feed_loop_total fuel)
      (parse_from-Shrinks d.state d) h

-- `Feed` returns on every decoder and every input: the fuel is enough.
pub feed_total : (d : Decoder) (bytes : List ℕ) → (p : Parsed) × (feed d bytes ≡ some p)
unfolding feed
feed_total d bytes =
    feed_loop_total (suc (length (d.buffer ++ bytes))) (record d { buffer = d.buffer ++ bytes })
      (omega arith)
