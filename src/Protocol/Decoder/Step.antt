-- ===== src/Protocol/Decoder/Step.antt =====
-- One call of `TryParseMessage` on the bytes of a message, all of them or a part.
use file_server.Prelude.{
  ℕ, ◌+◌, ◌≤◌, ◌<◌, ◌≡◌, refl, sym, ap, ap₂, ◌∙◌, true, false, ◌⊎◌, inl, inr, none, some, List,
  ◌++◌, length, take, drop, ltb, ◌==◌, arith, length-append, append_assoc, take-length_append,
  drop-length_append, drop-drop, ge→ltb, lt→ltb, ==_refl, Bool-cases, ltb→ge,
}
use file_server.Protocol.Header.{
  MessageHeader, decode_from, decoded, encode_to, header_size, protocol_magic,
}
use file_server.Protocol.Header.RoundTrip.{length-encode_to, decoded-encode_to, decoded-append}
use file_server.Protocol.Crc.{crc32}
use file_server.Protocol.Message.{
  Message, IsSendable, encode, sealed, sealed_header, length_header, payload, sealed_header-Fits,
  length-encode,
}
use file_server.Protocol.Decoder.{
  Decoder, State, wait_header, wait_body, parse_body, parse_from, accept_header, try_parse_message,
  total_needed, body_part, data_part, calculated,
}

module _ (m : Message) (v : IsSendable m) where
  pub body_length-sealed_header : (sealed_header m).body_length ≡ length m.json_body
  unfolding sealed_header length_header
  body_length-sealed_header = omega (arith, v.body_fits)

  pub data_length-sealed_header : (sealed_header m).data_length ≡ length m.binary_data
  unfolding sealed_header length_header
  data_length-sealed_header = omega (arith, v.data_fits)

  pub total_needed-sealed_header : total_needed (sealed_header m) ≡ length (encode m)
  total_needed-sealed_header =
      omega (arith, body_length-sealed_header, data_length-sealed_header, length-encode m)

  module _ (tail : List ℕ) where
    parts :
        encode m ++ tail ≡ encode_to (sealed_header m) ++ (m.json_body ++ (m.binary_data ++ tail))
    unfolding encode
    parts = simp append_assoc

    after_header : drop header_size (encode m ++ tail) ≡ m.json_body ++ (m.binary_data ++ tail)
    after_header =
        ap₂ drop (sym (length-encode_to (sealed_header m))) parts
        ∙ drop-length_append (encode_to (sealed_header m)) _

    body_part-encode : body_part (sealed_header m) (encode m ++ tail) ≡ m.json_body
    body_part-encode =
        ap₂ take body_length-sealed_header after_header ∙ take-length_append m.json_body _

    after_body :
        drop (header_size + (sealed_header m).body_length) (encode m ++ tail)
        ≡ m.binary_data ++ tail
    after_body =
        sym (drop-drop header_size (sealed_header m).body_length (encode m ++ tail))
        ∙ ap₂ drop body_length-sealed_header after_header
        ∙ drop-length_append m.json_body _

    data_part-encode : data_part (sealed_header m) (encode m ++ tail) ≡ m.binary_data
    data_part-encode =
        ap₂ take data_length-sealed_header after_body ∙ take-length_append m.binary_data _

    after_message : drop (total_needed (sealed_header m)) (encode m ++ tail) ≡ tail
    after_message =
        ap (λ k. drop k (encode m ++ tail)) total_needed-sealed_header
        ∙ drop-length_append (encode m) tail

    calculated-encode : calculated (sealed_header m) (encode m ++ tail) ≡ (sealed_header m).checksum
    unfolding calculated sealed_header length_header
    calculated-encode = ap crc32 (ap₂ (payload (length_header m)) body_part-encode data_part-encode)

    not_short : ltb (length (encode m ++ tail)) (total_needed (sealed_header m)) ≡ false
    not_short =
        ge→ltb _ _ (omega (arith, length-append (encode m) tail, total_needed-sealed_header))

    parse_body_whole :
        (s : State)
        → parse_body
            (record { state = s; buffer = encode m ++ tail; current_header = sealed_header m })
          ≡ (
            some (sealed m),
            record { state = wait_header; buffer = tail; current_header = sealed_header m },
          )
    unfolding parse_body
    parse_body_whole s =
        rw
          (not_short, calculated-encode, ==_refl, body_part-encode, data_part-encode, after_message)
          refl

    pub header_back : decoded (encode m ++ tail) ≡ sealed_header m
    header_back = ap decoded parts ∙ decoded-encode_to (sealed_header m) _ (sealed_header-Fits m v)

    pub magic_passes : ((sealed_header m).magic == protocol_magic) ≡ true
    unfolding sealed_header length_header
    magic_passes = rw (v.magic_right) (==_refl protocol_magic)

    pub decode_from-encode : decode_from (encode m ++ tail) ≡ (true, sealed_header m)
    unfolding decode_from
    decode_from-encode =
        ap (λ (h : MessageHeader). (h.magic == protocol_magic, h)) header_back
        ∙ ap (λ b. (b, sealed_header m)) magic_passes

-- Fewer than 24 bytes are no header.
pub try_parse_short :
    (d : Decoder)
    → d.state ≡ wait_header
    → length d.buffer < header_size
    → try_parse_message d ≡ (none, d)
unfolding try_parse_message
try_parse_short d e h =
    ap (λ s. parse_from s d) e ∙ rw (lt→ltb (length d.buffer) header_size h) refl

-- The decoder is about to read the message: it waits for a header, or has this one.
abbrev pub Awaits : Message → Decoder → Type 0
Awaits m d =
    (d.state ≡ wait_header) ⊎ ((d.state ≡ wait_body) × (d.current_header ≡ sealed_header m))

module _ (m : Message) (v : IsSendable m) where
  abbrev after : List ℕ → Decoder
  after tail = record { state = wait_header; buffer = tail; current_header = sealed_header m }

  -- A whole message is returned, and its bytes are consumed.
  pub try_parse_whole :
      (s : State) (h : MessageHeader) (tail : List ℕ)
      → Awaits m (record { state = s; buffer = encode m ++ tail; current_header = h })
      → try_parse_message (record { state = s; buffer = encode m ++ tail; current_header = h }) ≡ (
        some (sealed m),
        record { state = wait_header; buffer = tail; current_header = sealed_header m },
      )
  unfolding try_parse_message accept_header
  try_parse_whole wait_header h tail a =
      rw (header_there, decode_from-encode m v tail) (parse_body_whole m v tail wait_body)
    where
      header_there : ltb (length (encode m ++ tail)) header_size ≡ false
      header_there = ge→ltb _ _ (omega (arith, length-append (encode m) tail, length-encode m))
  try_parse_whole wait_body h tail (inl e) = cc
  try_parse_whole wait_body h tail (inr (e, same)) = rw same (parse_body_whole m v tail wait_body)

  module _ (buffer rest tail : List ℕ) (begun : buffer ++ rest ≡ encode m ++ tail)
      (short : length buffer < length (encode m)) where
    parse_body_part :
        (s : State)
        → parse_body (record { state = s; buffer = buffer; current_header = sealed_header m })
          ≡ (none, record { state = s; buffer = buffer; current_header = sealed_header m })
    unfolding parse_body
    parse_body_part s =
        rw
          (lt→ltb (length buffer) (total_needed (sealed_header m))
            (omega (arith, total_needed-sealed_header m v)))
          refl

    header_part : header_size ≤ length buffer → decode_from buffer ≡ (true, sealed_header m)
    unfolding decode_from
    header_part enough =
        ap (λ (h : MessageHeader). (h.magic == protocol_magic, h))
          (sym (decoded-append buffer rest enough) ∙ ap decoded begun)
        ∙ decode_from-encode m v tail

    -- A part of a message changes nothing but what the decoder knows of the header.
    pub try_parse_part :
        (s : State) (h : MessageHeader)
        → Awaits m (record { state = s; buffer = buffer; current_header = h })
        → (d : Decoder) × (try_parse_message
              (record { state = s; buffer = buffer; current_header = h })
            ≡ (none, d))
          × (d.buffer ≡ buffer)
          × Awaits m d
    unfolding try_parse_message accept_header
    try_parse_part wait_header h a = elim (Bool-cases (ltb (length buffer) header_size)) [
      | inl few ↦ (
        record { state = wait_header; buffer = buffer; current_header = h },
        rw few refl,
        refl,
        inl refl,
      )
      | inr more ↦ (
        record { state = wait_body; buffer = buffer; current_header = sealed_header m },
        rw (more, header_part (ltb→ge _ _ more)) (parse_body_part wait_body),
        refl,
        inr (refl, refl),
      )
    ]
    try_parse_part wait_body h (inl e) = cc
    try_parse_part wait_body h (inr (e, same)) = (
      record { state = wait_body; buffer = buffer; current_header = sealed_header m },
      rw same (parse_body_part wait_body),
      refl,
      inr (refl, refl),
    )
