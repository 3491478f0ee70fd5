-- ===== src/Protocol/Header.antt =====
-- protocol/message_header.h: the 24-byte header and its network byte order.
pub mod RoundTrip
use file_server.Prelude.{
  ℕ, ◌+◌, ◌*◌, ◌/◌, ◌%◌, ◌^◌, ◌<◌, ◌≡◌, Bool, List, [], ◌∷◌, ◌++◌, get_or, ◌==◌,
}

-- kProtocolMagic, kProtocolVersion, MessageHeader::kHeaderSize
abbrev pub protocol_magic : ℕ
protocol_magic = 0x4D46

abbrev pub protocol_version : ℕ
protocol_version = 0x0001

abbrev pub header_size : ℕ
header_size = 24

pub data MessageType : Type 0 where
  request response notify : MessageType

-- The numbers of `enum class MessageType : uint32_t`.
abbrev pub type_code : MessageType → ℕ
type_code request = 0x01
type_code response = 0x02
type_code notify = 0x03

pub record MessageHeader : Type 0 where
  pub magic : ℕ
  pub version : ℕ
  pub msg_type : ℕ
  pub body_length : ℕ
  pub data_length : ℕ
  pub request_id : ℕ
  pub checksum : ℕ

-- The default constructor.
abbrev pub empty_header : MessageHeader
empty_header = record {
  magic = protocol_magic;
  version = protocol_version;
  msg_type = 0;
  body_length = 0;
  data_length = 0;
  request_id = 0;
  checksum = 0;
}

-- The bytes of a uint16_t and of a uint32_t after `htons` and `htonl`.
abbrev pub bytes16 : ℕ → List ℕ
bytes16 x = (x / 256 % 256) ∷ (x % 256) ∷ []

abbrev pub bytes32 : ℕ → List ℕ
bytes32 x = (x / 16777216 % 256) ∷ (x / 65536 % 256) ∷ (x / 256 % 256) ∷ (x % 256) ∷ []

-- What `ntohs` and `ntohl` make of the bytes at an offset of the buffer.
abbrev pub word16 : List ℕ → ℕ → ℕ
word16 buffer k = get_or buffer k 0 * 256 + get_or buffer (k + 1) 0

abbrev pub word32 : List ℕ → ℕ → ℕ
word32 buffer k =
    get_or buffer k 0 * 16777216
    + get_or buffer (k + 1) 0 * 65536
    + get_or buffer (k + 2) 0 * 256
    + get_or buffer (k + 3) 0

unfoldable pub encode_to : MessageHeader → List ℕ
encode_to h =
    bytes16 h.magic
    ++ (bytes16 h.version
        ++ (bytes32 h.msg_type
            ++ (bytes32 h.body_length
                ++ (bytes32 h.data_length ++ (bytes32 h.request_id ++ bytes32 h.checksum)))))

-- The header that `DecodeFrom` leaves in its object; it is overwritten also where the magic is wrong.
unfoldable pub decoded : List ℕ → MessageHeader
decoded buffer = record {
  magic = word16 buffer 0;
  version = word16 buffer 2;
  msg_type = word32 buffer 4;
  body_length = word32 buffer 8;
  data_length = word32 buffer 12;
  request_id = word32 buffer 16;
  checksum = word32 buffer 20;
}

-- `DecodeFrom`: whether the magic is right, and the header.
unfoldable pub decode_from : List ℕ → Bool × MessageHeader
decode_from buffer = let h = decoded buffer in (h.magic == protocol_magic, h)

-- Each field fits its C type.
pub record Fits (h : MessageHeader) : Type 0 where
  pub magic_fits : h.magic < 2 ^ 16
  pub version_fits : h.version < 2 ^ 16
  pub msg_type_fits : h.msg_type < 2 ^ 32
  pub body_length_fits : h.body_length < 2 ^ 32
  pub data_length_fits : h.data_length < 2 ^ 32
  pub request_id_fits : h.request_id < 2 ^ 32
  pub checksum_fits : h.checksum < 2 ^ 32
