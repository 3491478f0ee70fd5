-- ===== src/Examples/Wire.antt =====
-- Runs of protocol/.
use file_server.Prelude.{
  ℕ, ◌≤◌, ◌≡◌, refl, ap, ◌∙◌, some, List, [], ◌∷◌, ◌++◌, map, All, length, take, drop,
  take-append-drop, append-nil, arith, Bool, true, ltb, ◌&&◌,
}
use file_server.Protocol.Header.{
  MessageHeader, Fits, empty_header, encode_to, decoded, decode_from, protocol_magic,
}
use file_server.Protocol.Header.RoundTrip.{Bytes}
use file_server.Protocol.Message.{Message, IsSendable, encode, encode_batch, sealed, sealed_header}
use file_server.Protocol.Decoder.{
  Decoder, init, feed, feed_loop, feed_round, try_parse_message, accept_header, feed_pieces,
  wait_header,
}
use file_server.Protocol.Decoder.Delivery.{stream_delivery, concat}
use file_server.Protocol.Decoder.Soundness.{IsConsistent, feed_accounts}
use file_server.Protocol.Decoder.Recovery.{changed_byte, stray_byte}

abbrev pub login_header : MessageHeader
login_header = record empty_header { msg_type = 1; request_id = 7 }

abbrev pub login_message : Message
login_message = record {
  header = login_header;
  json_body = b'{' ∷ b'}' ∷ [];
  binary_data = 1 ∷ 255 ∷ [];
}

login_header-Fits : Fits login_header
login_header-Fits = record {
  magic_fits = omega arith;
  version_fits = omega arith;
  msg_type_fits = omega arith;
  body_length_fits = omega arith;
  data_length_fits = omega arith;
  request_id_fits = omega arith;
  checksum_fits = omega arith;
}

pub login_message-IsSendable : IsSendable login_message
login_message-IsSendable = record {
  magic_right = refl;
  header_fits = login_header-Fits;
  body_fits = omega arith;
  data_fits = omega arith;
}

abbrev pub two_messages : List Message
two_messages = login_message ∷ login_message ∷ []

abbrev two_pieces : List (List ℕ)
two_pieces = take 30 (encode_batch two_messages) ∷ drop 30 (encode_batch two_messages) ∷ []

two_pieces-concat : concat two_pieces ≡ encode_batch two_messages
unfolding concat
two_pieces-concat =
    ap (◌++◌ (take 30 (encode_batch two_messages)))
      (append-nil (drop 30 (encode_batch two_messages)))
    ∙ take-append-drop 30 (encode_batch two_messages)

stream_delivery_example :
    (d : Decoder) × (feed_pieces two_pieces init ≡ some (map sealed two_messages, d))
    × (d.buffer ≡ [])
stream_delivery_example =
    stream_delivery two_messages two_pieces
      (login_message-IsSendable, (login_message-IsSendable, tt)) two_pieces-concat

abbrev header_bytes : List ℕ
header_bytes =
    0x4D ∷ 0x46 ∷ 0 ∷ 1 ∷ 0 ∷ 0 ∷ 0 ∷ 1 ∷ 0 ∷ 0 ∷ 0 ∷ 2 ∷ 0 ∷ 0 ∷ 0 ∷ 0 ∷ 0 ∷ 0 ∷ 0 ∷ 9 ∷ 1 ∷ 2 ∷ 3
    ∷ 4 ∷ []

abbrev is_bytes : List ℕ → Bool
is_bytes [] = true
is_bytes (b ∷ bs) = ltb b 256 && is_bytes bs

Bytes-of : (bs : List ℕ) → is_bytes bs ≡ true → Bytes bs
Bytes-of [] h = tt
Bytes-of (b ∷ bs) h = (ground arith, Bytes-of bs (ground arith))

init-IsConsistent : IsConsistent init
init-IsConsistent = record { bytes = tt; header_read = λ e. absurd (cc) }

abbrev one_dropped : Decoder
one_dropped = record {
  state = wait_header;
  buffer = header_bytes;
  current_header = decoded (9 ∷ header_bytes);
}

one_dropped_lem : feed init (9 ∷ header_bytes) ≡ some ([], one_dropped)
unfolding feed feed_loop feed_round try_parse_message accept_header decode_from decoded
one_dropped_lem = refl

feed_accounts_example :
    (lost : List ℕ) × (init.buffer ++ 9 ∷ header_bytes ≡ encode_batch [] ++ (lost ++ header_bytes))
    × (length lost ≤ 1)
    × All (λ (m : Message). m.header.magic ≡ protocol_magic) []
    × IsConsistent one_dropped
feed_accounts_example =
    feed_accounts init (9 ∷ header_bytes) [] one_dropped init-IsConsistent
      (Bytes-of (9 ∷ header_bytes) refl) one_dropped_lem

changed_byte_example :
    feed init (encode_to (sealed_header login_message) ++ (b'{' ∷ [] ++ b']' ∷ 1 ∷ 255 ∷ []))
    ≡ some (
      [],
      record {
        state = wait_header;
        buffer =
            drop 1 (encode_to (sealed_header login_message) ++ (b'{' ∷ [] ++ b']' ∷ 1 ∷ 255 ∷ []));
        current_header = sealed_header login_message;
      },
    )
changed_byte_example =
    changed_byte login_message login_message-IsSendable (b'{' ∷ []) (1 ∷ 255 ∷ []) b'}' refl b']'
      (omega arith) (omega arith) (λ e. omega (arith, e))

stray_byte_example :
    (d : Decoder) × (feed init (9 ∷ encode login_message) ≡ some ([], d))
    × (d.buffer ≡ encode login_message)
    × (feed d []
        ≡ some (
          sealed login_message ∷ [],
          record { state = wait_header; buffer = []; current_header = sealed_header login_message },
        ))
stray_byte_example = stray_byte login_message login_message-IsSendable 9
