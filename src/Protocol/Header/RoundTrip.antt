-- ===== src/Protocol/Header/RoundTrip.antt =====
-- Encoding and decoding a header are inverse.
use file_server.Prelude.{
  ℕ, zero, suc, ◌+◌, ◌*◌, ◌/◌, ◌%◌, ◌^◌, ◌≤◌, ◌<◌, ◌≡◌, refl, drop, List, [], ◌∷◌, ◌++◌, get_or,
  length, take, All, arith, get_or-append, get_or-drop, length-drop, take-add, drop-drop, sym, ap,
  ap₂, ◌∙◌,
}
use file_server.Protocol.Header.{
  MessageHeader, Fits, encode_to, decoded, bytes16, bytes32, word16, word32, header_size,
}

pub length-encode_to : (h : MessageHeader) → length (encode_to h) ≡ header_size
unfolding encode_to
length-encode_to h = refl

word16-bytes16 : (x : ℕ) → x < 2 ^ 16 → x / 256 % 256 * 256 + x % 256 ≡ x
word16-bytes16 x h = omega arith

word32-bytes32 :
    (x : ℕ)
    → x < 2 ^ 32
    → x / 16777216 % 256 * 16777216 + x / 65536 % 256 * 65536 + x / 256 % 256 * 256 + x % 256 ≡ x
word32-bytes32 x h = omega arith

-- The bytes of an encoded header whose fields fit their C types, whatever follows, decode to the
-- header.
pub decoded-encode_to :
    (h : MessageHeader) (rest : List ℕ) → Fits h → decoded (encode_to h ++ rest) ≡ h
unfolding encode_to decoded
decoded-encode_to h rest f = λ i. record {
  magic = word16-bytes16 h.magic f.magic_fits i;
  version = word16-bytes16 h.version f.version_fits i;
  msg_type = word32-bytes32 h.msg_type f.msg_type_fits i;
  body_length = word32-bytes32 h.body_length f.body_length_fits i;
  data_length = word32-bytes32 h.data_length f.data_length_fits i;
  request_id = word32-bytes32 h.request_id f.request_id_fits i;
  checksum = word32-bytes32 h.checksum f.checksum_fits i;
}

module _ (buffer rest : List ℕ) (enough : header_size ≤ length buffer) where
  byte-append : (i : ℕ) → i < header_size → get_or (buffer ++ rest) i 0 ≡ get_or buffer i 0
  byte-append i h = get_or-append buffer rest i 0 (omega arith)

  word16-append : (k : ℕ) → k + 1 < header_size → word16 (buffer ++ rest) k ≡ word16 buffer k
  word16-append k h = omega (arith, byte-append k, byte-append (k + 1))

  word32-append : (k : ℕ) → k + 3 < header_size → word32 (buffer ++ rest) k ≡ word32 buffer k
  word32-append k h =
      omega (arith, byte-append k, byte-append (k + 1), byte-append (k + 2), byte-append (k + 3))

  -- Only the first 24 bytes are read.
  pub decoded-append : decoded (buffer ++ rest) ≡ decoded buffer
  unfolding decoded
  decoded-append = λ i. record {
    magic = word16-append 0 (omega arith) i;
    version = word16-append 2 (omega arith) i;
    msg_type = word32-append 4 (omega arith) i;
    body_length = word32-append 8 (omega arith) i;
    data_length = word32-append 12 (omega arith) i;
    request_id = word32-append 16 (omega arith) i;
    checksum = word32-append 20 (omega arith) i;
  }

-- A byte is a number below 256.
abbrev pub Bytes : List ℕ → Type 0
Bytes = All (λ b. b < 256)

pub Bytes-drop : (k : ℕ) (xs : List ℕ) → Bytes xs → Bytes (drop k xs)
Bytes-drop zero xs h = h
Bytes-drop (suc k) [] h = h
Bytes-drop (suc k) (x ∷ xs) h = Bytes-drop k xs h.1

Bytes-get_or : (xs : List ℕ) (i : ℕ) → Bytes xs → get_or xs i 0 < 256
Bytes-get_or [] i h = omega arith
Bytes-get_or (x ∷ xs) zero h = h.0
Bytes-get_or (x ∷ xs) (suc i) h = Bytes-get_or xs i h.1

bytes16-word16 : (xs : List ℕ) → 2 ≤ length xs → Bytes xs → bytes16 (word16 xs 0) ≡ take 2 xs
bytes16-word16 [] n b = absurd (omega arith)
bytes16-word16 (x ∷ []) n b = absurd (omega arith)
bytes16-word16 (x ∷ y ∷ xs) n b = λ i. fits_high i ∷ fits_low i ∷ []
  where
    fits_high : (x * 256 + y) / 256 % 256 ≡ x
    fits_high = omega arith

    fits_low : (x * 256 + y) % 256 ≡ y
    fits_low = omega arith

bytes32-word32 : (xs : List ℕ) → 4 ≤ length xs → Bytes xs → bytes32 (word32 xs 0) ≡ take 4 xs
bytes32-word32 [] n b = absurd (omega arith)
bytes32-word32 (x ∷ []) n b = absurd (omega arith)
bytes32-word32 (x ∷ y ∷ []) n b = absurd (omega arith)
bytes32-word32 (x ∷ y ∷ z ∷ []) n b = absurd (omega arith)
bytes32-word32 (x ∷ y ∷ z ∷ w ∷ xs) n b = ground arith

module _ (buffer : List ℕ) (enough : header_size ≤ length buffer) (bytes : Bytes buffer) where
  bytes16-word16_at :
      (k : ℕ) → k + 2 ≤ header_size → bytes16 (word16 buffer k) ≡ take 2 (drop k buffer)
  bytes16-word16_at k h =
      ap bytes16 (ground (arith, get_or-drop k 0 buffer 0, get_or-drop k 1 buffer 0))
      ∙ bytes16-word16 (drop k buffer) (omega (arith, length-drop k buffer))
          (Bytes-drop k buffer bytes)

  bytes32-word32_at :
      (k : ℕ) → k + 4 ≤ header_size → bytes32 (word32 buffer k) ≡ take 4 (drop k buffer)
  bytes32-word32_at k h =
      ap bytes32 (
        ground (
          arith,
          get_or-drop k 0 buffer 0,
          get_or-drop k 1 buffer 0,
          get_or-drop k 2 buffer 0,
          get_or-drop k 3 buffer 0,
        ))
      ∙ bytes32-word32 (drop k buffer) (omega (arith, length-drop k buffer))
          (Bytes-drop k buffer bytes)

  join :
      (k m n : ℕ)
      → take m (drop k buffer) ++ take n (drop (k + m) buffer) ≡ take (m + n) (drop k buffer)
  join k m n = sym (
      take-add m n (drop k buffer)
      ∙ ap (λ xs. take m (drop k buffer) ++ take n xs) (drop-drop k m buffer))

  -- The header decoded from a buffer of 24 bytes or more, all below 256, encodes to its first 24
  -- bytes.
  pub encode_to-decoded : encode_to (decoded buffer) ≡ take header_size buffer
  unfolding encode_to decoded
  encode_to-decoded =
      ap₂ ◌++◌ (bytes16-word16_at 0 (omega arith)) (
        ap₂ ◌++◌ (bytes16-word16_at 2 (omega arith)) (
          ap₂ ◌++◌ (bytes32-word32_at 4 (omega arith)) (
            ap₂ ◌++◌ (bytes32-word32_at 8 (omega arith)) (
              ap₂ ◌++◌ (bytes32-word32_at 12 (omega arith)) (
                ap₂ ◌++◌ (bytes32-word32_at 16 (omega arith)) (bytes32-word32_at 20 (omega arith))
                ∙ join 16 4 4)
              ∙ join 12 4 8)
            ∙ join 8 4 12)
          ∙ join 4 4 16)
        ∙ join 2 2 20)
      ∙ join 0 2 22

  word_fits16 : (k : ℕ) → word16 buffer k < 2 ^ 16
  word_fits16 k = omega (arith, Bytes-get_or buffer k bytes, Bytes-get_or buffer (k + 1) bytes)

  word_fits32 : (k : ℕ) → word32 buffer k < 2 ^ 32
  word_fits32 k = omega (
    arith,
    Bytes-get_or buffer k bytes,
    Bytes-get_or buffer (k + 1) bytes,
    Bytes-get_or buffer (k + 2) bytes,
    Bytes-get_or buffer (k + 3) bytes,
  )

  pub decoded-Fits : Fits (decoded buffer)
  unfolding decoded
  decoded-Fits = record {
    magic_fits = word_fits16 0;
    version_fits = word_fits16 2;
    msg_type_fits = word_fits32 4;
    body_length_fits = word_fits32 8;
    data_length_fits = word_fits32 12;
    request_id_fits = word_fits32 16;
    checksum_fits = word_fits32 20;
  }
