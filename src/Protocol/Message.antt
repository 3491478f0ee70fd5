-- ===== src/Protocol/Message.antt =====
-- protocol/message.h and protocol/encoder.cc: a message and its bytes on the wire.
use file_server.Prelude.{
  ℕ, ◌+◌, ◌%◌, ◌^◌, ◌<◌, ◌≡◌, List, [], ◌∷◌, ◌++◌, length, arith, length-append,
}
use file_server.Protocol.Header.{
  MessageHeader, Fits, empty_header, encode_to, protocol_magic, header_size,
}
use file_server.Protocol.Header.RoundTrip.{length-encode_to}
use file_server.Protocol.Crc.{crc32, crc32-lt}

pub record Message : Type 0 where
  pub header : MessageHeader
  pub json_body : List ℕ
  pub binary_data : List ℕ

-- `Message()`
abbrev pub empty_message : Message
empty_message = record { header = empty_header; json_body = []; binary_data = [] }

-- `static_cast<uint32_t>(s.size())`
abbrev pub size32 : List ℕ → ℕ
size32 s = length s % 2 ^ 32

-- The header with its lengths filled in and its checksum 0, step 1 of `Encode`.
unfoldable pub length_header : Message → MessageHeader
length_header msg = record msg.header {
  body_length = size32 msg.json_body;
  data_length = size32 msg.binary_data;
  checksum = 0;
}

-- The bytes under the checksum.
unfoldable pub payload : MessageHeader → List ℕ → List ℕ → List ℕ
payload h body binary = encode_to h ++ (body ++ binary)

-- Steps 1 to 5 of `Encode`: the header that is sent.
unfoldable pub sealed_header : Message → MessageHeader
sealed_header msg =
    let h = length_header msg in
    record h { checksum = crc32 (payload h msg.json_body msg.binary_data) }

-- `Encoder::Encode`
unfoldable pub encode : Message → List ℕ
encode msg = encode_to (sealed_header msg) ++ (msg.json_body ++ msg.binary_data)

-- `Encoder::EncodeBatch`
unfoldable pub encode_batch : List Message → List ℕ
encode_batch [] = []
encode_batch (msg ∷ msgs) = encode msg ++ encode_batch msgs

-- The message as its receiver has it: with the header that was sent.
abbrev pub sealed : Message → Message
sealed msg = record msg { header = sealed_header msg }

-- A message that can be sent: the magic number is the protocol's, the fields fit their C types, and
-- the two parts are shorter than 4 GiB.
pub record IsSendable (msg : Message) : Type 0 where
  pub magic_right : msg.header.magic ≡ protocol_magic
  pub header_fits : Fits msg.header
  pub body_fits : length msg.json_body < 2 ^ 32
  pub data_fits : length msg.binary_data < 2 ^ 32

pub sealed_header-Fits : (msg : Message) → IsSendable msg → Fits (sealed_header msg)
unfolding sealed_header length_header
sealed_header-Fits msg v = record {
  magic_fits = v.header_fits.magic_fits;
  version_fits = v.header_fits.version_fits;
  msg_type_fits = v.header_fits.msg_type_fits;
  body_length_fits = omega arith;
  data_length_fits = omega arith;
  request_id_fits = v.header_fits.request_id_fits;
  checksum_fits = crc32-lt _;
}

pub length-encode :
    (msg : Message)
    → length (encode msg) ≡ header_size + length msg.json_body + length msg.binary_data
unfolding encode
length-encode msg = omega (
  arith,
  length-append (encode_to (sealed_header msg)) (msg.json_body ++ msg.binary_data),
  length-append msg.json_body msg.binary_data,
  length-encode_to (sealed_header msg),
)
