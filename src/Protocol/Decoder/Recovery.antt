-- ===== src/Protocol/Decoder/Recovery.antt =====
-- What the decoder does with a damaged stream: a byte too much, and a byte that has changed.
use file_server.Prelude.{
  ℕ, suc, ◌+◌, ◌<◌, ◌≡◌, ◌≢◌, refl, sym, ap, ap₂, ◌∙◌, true, false, inl, none, some, List, [], ◌∷◌,
  ◌++◌, length, take, drop, ltb, ◌==◌, arith, length-append, append_assoc, drop-length_append,
  drop-drop, take-append-drop, ge→ltb, zero, take_all, length-drop, subst, append-nil,
}
use file_server.Protocol.Header.{
  MessageHeader, decode_from, decoded, encode_to, header_size, protocol_magic,
}
use file_server.Protocol.Header.RoundTrip.{length-encode_to, decoded-encode_to}
use file_server.Protocol.Crc.{crc32}
use file_server.Protocol.Crc.Detection.{crc32_detects}
use file_server.Protocol.Message.{
  Message, IsSendable, encode, sealed, sealed_header, length_header, payload, sealed_header-Fits,
  length-encode,
}
use file_server.Protocol.Decoder.{
  Decoder, wait_header, init, parse_body, accept_header, try_parse_message, feed, feed_loop,
  total_needed, body_part, data_part, calculated,
}
use file_server.Protocol.Decoder.Step.{
  try_parse_whole, try_parse_short, body_length-sealed_header, data_length-sealed_header,
  magic_passes,
}
use file_server.Protocol.Decoder.Stream.{feed_loop-none, feed_loop-some}

-- 24 bytes with a wrong magic number: one byte is dropped.
try_parse_wrong :
    (b : List ℕ) (h : MessageHeader)
    → ltb (length b) header_size ≡ false
    → ((decoded b).magic == protocol_magic) ≡ false
    → try_parse_message (record { state = wait_header; buffer = b; current_header = h })
      ≡ (none, record { state = wait_header; buffer = drop 1 b; current_header = decoded b })
unfolding try_parse_message accept_header decode_from
try_parse_wrong b h more wrong = rw (more, wrong) refl

module _ (m : Message) (v : IsSendable m) where
  -- No byte before a message makes a magic number with the message's first byte.
  wrong_magic : (b : ℕ) → ((decoded (b ∷ encode m)).magic == protocol_magic) ≡ false
  unfolding decoded encode encode_to sealed_header length_header
  wrong_magic b = ground (arith, v.magic_right)

  abbrev pub after_message : Decoder
  after_message = record { state = wait_header; buffer = []; current_header = sealed_header m }

  again :
      (n : ℕ) → length (encode m ++ []) ≡ n → feed_loop n after_message ≡ some ([], after_message)
  again zero e = absurd (omega (arith, length-append (encode m) [], length-encode m))
  again (suc n) e =
      feed_loop-none n after_message after_message
        (try_parse_short after_message refl (omega arith))

  -- A decoder between two messages takes the bytes of a whole one, and stands between two again.
  pub feed_whole :
      (h : MessageHeader)
      → feed (record { state = wait_header; buffer = []; current_header = h }) (encode m)
        ≡ some (sealed m ∷ [], after_message)
  unfolding feed
  feed_whole h =
      subst
        (λ b.
          feed_loop (suc (length b))
            (record { state = wait_header; buffer = b; current_header = h })
          ≡ some (sealed m ∷ [], after_message))
        (append-nil (encode m))
        (feed_loop-some _ _ after_message after_message (sealed m) []
          (try_parse_whole m v wait_header h [] (inl refl)) (again (length (encode m ++ [])) refl))

  -- One byte too much before a whole sendable message: a new decoder's `Feed` drops the byte and
  -- returns nothing, although the message is all there. The next call of `Feed`, with no new byte,
  -- returns it.
  pub stray_byte :
      (b : ℕ)
      → (d : Decoder) × (feed init (b ∷ encode m) ≡ some ([], d))
        × (d.buffer ≡ encode m)
        × (feed d []
            ≡ some (
              sealed m ∷ [],
              record { state = wait_header; buffer = []; current_header = sealed_header m },
            ))
  unfolding feed
  stray_byte b = (
    after_drop,
    feed_loop-none _ _ after_drop
        (try_parse_wrong (b ∷ encode m) init.current_header long (wrong_magic b)),
    refl,
    feed_loop-some _ _ after_message after_message (sealed m) []
        (try_parse_whole m v wait_header _ [] (inl refl)) (again (length (encode m ++ [])) refl),
  )
    where
      after_drop : Decoder
      after_drop = record {
        state = wait_header;
        buffer = encode m;
        current_header = decoded (b ∷ encode m);
      }

      long : ltb (suc (length (encode m))) header_size ≡ false
      long = ge→ltb _ _ (omega (arith, length-encode m))

-- A frame with another content of the same length behind the same header.
module _ (m : Message) (v : IsSendable m) (content : List ℕ)
    (as_long : length content ≡ length m.json_body + length m.binary_data) where
  abbrev frame : List ℕ
  frame = encode_to (sealed_header m) ++ content

  behind_header : drop header_size frame ≡ content
  behind_header =
      ap (λ k. drop k frame) (sym (length-encode_to (sealed_header m)))
      ∙ drop-length_append (encode_to (sealed_header m)) content

  content_parts : body_part (sealed_header m) frame ++ data_part (sealed_header m) frame ≡ content
  content_parts =
      ap₂ ◌++◌ (ap (take (sealed_header m).body_length) behind_header) (
        ap (take (sealed_header m).data_length) (
          sym (drop-drop header_size (sealed_header m).body_length frame)
          ∙ ap (drop (sealed_header m).body_length) behind_header)
        ∙ take_all (sealed_header m).data_length (drop (sealed_header m).body_length content) (
            omega (
              arith,
              length-drop (sealed_header m).body_length content,
              body_length-sealed_header m v,
              data_length-sealed_header m v,
            )))
      ∙ take-append-drop (sealed_header m).body_length content

  calculated-frame :
      calculated (sealed_header m) frame ≡ crc32 (encode_to (length_header m) ++ content)
  unfolding calculated payload sealed_header length_header
  calculated-frame = ap (λ c. crc32 (encode_to (length_header m) ++ c)) content_parts

  length-frame : length frame ≡ total_needed (sealed_header m)
  length-frame = omega (
    arith,
    length-append (encode_to (sealed_header m)) content,
    length-encode_to (sealed_header m),
    body_length-sealed_header m v,
    data_length-sealed_header m v,
  )

  header_found : decode_from frame ≡ (true, sealed_header m)
  unfolding decode_from
  header_found =
      ap (λ (h : MessageHeader). (h.magic == protocol_magic, h))
        (decoded-encode_to (sealed_header m) content (sealed_header-Fits m v))
      ∙ ap (λ b. (b, sealed_header m)) (magic_passes m v [])

  -- If the checksum does not fit the content, the frame is not accepted.
  try_parse_refused :
      crc32 (encode_to (length_header m) ++ content) ≢ (sealed_header m).checksum
      → try_parse_message (record init { buffer = frame }) ≡ (
        none,
        record { state = wait_header; buffer = drop 1 frame; current_header = sealed_header m },
      )
  unfolding try_parse_message accept_header parse_body
  try_parse_refused ne = rw (header_there, header_found, all_there, refused) refl
    where
      header_there : ltb (length frame) header_size ≡ false
      header_there = ge→ltb _ _ (omega (arith, length-frame))

      all_there : ltb (length frame) (total_needed (sealed_header m)) ≡ false
      all_there = ge→ltb _ _ (omega (arith, length-frame))

      refused : (calculated (sealed_header m) frame == (sealed_header m).checksum) ≡ false
      refused = ground (arith, calculated-frame, ne)

module _ (m : Message) (v : IsSendable m) (before after : List ℕ) (a : ℕ)
    (sent : m.json_body ++ m.binary_data ≡ before ++ a ∷ after) where
  -- A sendable message whose body or data arrives with one byte changed is not returned by a new
  -- decoder: `Feed` returns nothing, and drops the first byte of the frame.
  pub changed_byte :
      (b : ℕ)
      → a < 256
      → b < 256
      → a ≢ b
      → feed init (encode_to (sealed_header m) ++ (before ++ b ∷ after))
        ≡ some (
          [],
          record {
            state = wait_header;
            buffer = drop 1 (encode_to (sealed_header m) ++ (before ++ b ∷ after));
            current_header = sealed_header m;
          },
        )
  unfolding feed
  changed_byte b p q ne =
      feed_loop-none _ _ _ (try_parse_refused m v (before ++ b ∷ after) as_long differs)
    where
      as_long : length (before ++ b ∷ after) ≡ length m.json_body + length m.binary_data
      as_long = omega (
        arith,
        length-append before (b ∷ after),
        length-append before (a ∷ after),
        length-append m.json_body m.binary_data,
        ap length sent,
      )

      sum_sent :
          (sealed_header m).checksum ≡ crc32 (encode_to (length_header m) ++ before ++ a ∷ after)
      sum_sent =
          unfold sealed_header payload in
          ap crc32
            (ap (◌++◌ (encode_to (length_header m))) sent ∙ sym (append_assoc _ before (a ∷ after)))

      differs :
          crc32 (encode_to (length_header m) ++ (before ++ b ∷ after)) ≢ (sealed_header m).checksum
      differs e =
          crc32_detects (encode_to (length_header m) ++ before) after a b p q ne
            (sym sum_sent ∙ sym e ∙ ap crc32 (sym (append_assoc _ before (b ∷ after))))
