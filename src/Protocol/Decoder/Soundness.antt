-- ===== src/Protocol/Decoder/Soundness.antt =====
-- What `Feed` does with any input: the bytes that it consumes are those of the messages that it
-- returns, and one byte more at the most.
use mathlib.Core.Option
use file_server.Prelude.{
  ℕ, zero, suc, ◌+◌, ◌≤◌, ◌≡◌, refl, sym, ap, ◌∙◌, Option, none, some, List, [], ◌++◌, length, take,
  drop, arith, length-take, length-drop, take-append-drop, append_assoc, take_three, inl, inr,
  Bool-cases, ltb, ltb→ge, ◌==◌, ==_iff, All, subst, All-append, length-append,
}
use file_server.Protocol.Header.{
  MessageHeader, Fits, decode_from, decoded, encode_to, header_size, protocol_magic,
}
use file_server.Protocol.Header.RoundTrip.{
  Bytes, Bytes-drop, encode_to-decoded, decoded-Fits, decoded-append,
}
use file_server.Protocol.Crc.{crc32}
use file_server.Protocol.Message.{
  Message, encode, encode_batch, sealed_header, length_header, payload, size32,
}
use file_server.Protocol.Decoder.{
  Decoder, State, wait_header, wait_body, parse_body, accept_header, parse_from, try_parse_message,
  feed_round, feed_loop, feed, Parsed, prepend, calculated, total_needed, body_part, data_part,
}

abbrev found : List ℕ → MessageHeader → Message
found buffer h = record {
  header = h;
  json_body = body_part h buffer;
  binary_data = data_part h buffer;
}

module _ (buffer : List ℕ) (h : MessageHeader) (fits : Fits h)
    (starts : encode_to h ≡ take header_size buffer) (whole : total_needed h ≤ length buffer)
    (checked : calculated h buffer ≡ h.checksum) where
  length-body : length (body_part h buffer) ≡ h.body_length
  length-body =
      omega
        (arith, length-take h.body_length (drop header_size buffer), length-drop header_size buffer)

  length-data : length (data_part h buffer) ≡ h.data_length
  length-data = omega (
    arith,
    length-take h.data_length (drop (header_size + h.body_length) buffer),
    length-drop (header_size + h.body_length) buffer,
  )

  length_header-found : length_header (found buffer h) ≡ record h { checksum = 0 }
  unfolding length_header
  length_header-found =
      λ i. record h { body_length = body_same i; data_length = data_same i; checksum = 0 }
    where
      body_same : size32 (body_part h buffer) ≡ h.body_length
      body_same = omega (arith, length-body, fits.body_length_fits)

      data_same : size32 (data_part h buffer) ≡ h.data_length
      data_same = omega (arith, length-data, fits.data_length_fits)

  sealed_header-found : sealed_header (found buffer h) ≡ h
  unfolding sealed_header calculated
  sealed_header-found =
      ap
        (λ (g : MessageHeader). record g {
          checksum = crc32 (payload g (body_part h buffer) (data_part h buffer));
        })
        length_header-found
      ∙ ap (λ c. record h { checksum = c }) checked

  -- The message that is found encodes to the bytes that are consumed.
  encode-found : encode (found buffer h) ++ drop (total_needed h) buffer ≡ buffer
  unfolding encode
  encode-found =
      ap
        (λ (start : List ℕ).
          start ++ (body_part h buffer ++ data_part h buffer) ++ drop (total_needed h) buffer)
        (ap encode_to sealed_header-found ∙ starts)
      ∙ take_three header_size h.body_length h.data_length buffer

-- The header is that of the buffer, and its magic number is right.
abbrev pub HeaderRead : MessageHeader → List ℕ → Type 0
HeaderRead h buffer =
    (header_size ≤ length buffer) × (h ≡ decoded buffer) × (h.magic ≡ protocol_magic)

-- What is known of a decoder between two calls: the bytes are bytes, and in the state `kWaitBody`
-- the header is that of the buffer.
pub record IsConsistent (d : Decoder) : Type 0 where
  pub bytes : Bytes d.buffer
  pub header_read : d.state ≡ wait_body → HeaderRead d.current_header d.buffer

-- A call takes off the bytes of the message that it returns. Otherwise it takes off one byte at the
-- most.
abbrev Accounts : Decoder → Option Message × Decoder → Type 0
Accounts d (some m, d') =
    (d.buffer ≡ encode m ++ d'.buffer) × (m.header.magic ≡ protocol_magic) × IsConsistent d'
Accounts d (none, d') =
    (lost : List ℕ) × (d.buffer ≡ lost ++ d'.buffer) × (length lost ≤ 1) × IsConsistent d'

IsConsistent-drop :
    (d : Decoder) (k : ℕ)
    → IsConsistent d
    → IsConsistent (record d { buffer = drop k d.buffer; state = wait_header })
IsConsistent-drop d k c = record { bytes = Bytes-drop k d.buffer c.bytes; header_read = λ e. cc }

-- One byte is dropped, if there is one.
drop_one :
    (d : Decoder)
    → IsConsistent d
    → Accounts d (none, record d { buffer = drop 1 d.buffer; state = wait_header })
drop_one d c = (
  take 1 d.buffer,
  sym (take-append-drop 1 d.buffer),
  omega (arith, length-take 1 d.buffer),
  IsConsistent-drop d 1 c,
)

module _ (d : Decoder) (c : IsConsistent d) (r : HeaderRead d.current_header d.buffer) where
  consumed :
      total_needed d.current_header ≤ length d.buffer
      → calculated d.current_header d.buffer ≡ d.current_header.checksum
      → d.buffer
        ≡ encode (found d.buffer d.current_header) ++ drop (total_needed d.current_header) d.buffer
  consumed whole checked = sym (
      encode-found d.buffer d.current_header
        (subst Fits (sym r.1) (decoded-Fits d.buffer r.0 c.bytes))
        (ap encode_to r.1 ∙ encode_to-decoded d.buffer r.0 c.bytes) whole checked)

  parse_body-Accounts : Accounts d (parse_body d)
  unfolding parse_body
  parse_body-Accounts = elim (Bool-cases (ltb (length d.buffer) (total_needed d.current_header))) [
    | inl short ↦ rw short ([], refl, omega arith, c)
    | inr whole ↦
        elim (Bool-cases (calculated d.current_header d.buffer == d.current_header.checksum)) [
          | inl same ↦
              rw (whole, same)
                (
                  consumed (ltb→ge _ _ whole) ((==_iff _ _).0 same),
                  r.2,
                  IsConsistent-drop d (total_needed d.current_header) c,
                )
          | inr other ↦ rw (whole, other) (drop_one d c)
        ]
  ]

parse_from-Accounts :
    (s : State) (d : Decoder) → d.state ≡ s → IsConsistent d → Accounts d (parse_from s d)
unfolding parse_from accept_header decode_from
parse_from-Accounts wait_body d e c = parse_body-Accounts d c (c.header_read e)
parse_from-Accounts wait_header d e c = elim (Bool-cases (ltb (length d.buffer) header_size)) [
  | inl few ↦ rw few ([], refl, omega arith, c)
  | inr more ↦ elim (Bool-cases ((decoded d.buffer).magic == protocol_magic)) [
    | inl right ↦
        let r : HeaderRead (decoded d.buffer) d.buffer =
          (ltb→ge _ _ more, refl, (==_iff _ _).0 right) in
        let d' : Decoder = record d { state = wait_body; current_header = decoded d.buffer } in
        rw (more, right)
          (parse_body-Accounts d' (record { bytes = c.bytes; header_read = λ _. r }) r)
    | inr wrong ↦
        rw (more, wrong)
          (
            take 1 d.buffer,
            sym (take-append-drop 1 d.buffer),
            omega (arith, length-take 1 d.buffer),
            record { bytes = Bytes-drop 1 d.buffer c.bytes; header_read = λ f. cc },
          )
  ]
]

-- The whole loop: the messages, then what is lost, then what stays.
abbrev pub LoopAccounts : Decoder → Option Parsed → Type 0
LoopAccounts d none = Unit
LoopAccounts d (some (ms, d')) =
    (lost : List ℕ) × (d.buffer ≡ encode_batch ms ++ (lost ++ d'.buffer))
    × (length lost ≤ 1)
    × All (λ m. m.header.magic ≡ protocol_magic) ms
    × IsConsistent d'

prepend-LoopAccounts :
    (d d' : Decoder) (m : Message) (r : Option Parsed)
    → Accounts d (some m, d')
    → LoopAccounts d' r
    → LoopAccounts d (Option.map (prepend m) r)
unfolding encode_batch
prepend-LoopAccounts d d' m none a l = tt
prepend-LoopAccounts d d' m (some (ms, last)) a (lost, e, few, magic, c) = (
  lost,
  a.0
      ∙ ap (◌++◌ (encode m)) e
      ∙ sym (append_assoc (encode m) (encode_batch ms) (lost ++ last.buffer)),
  few,
  (a.1, magic),
  c,
)

feed_round-LoopAccounts :
    (fuel : ℕ) (d : Decoder) (r : Option Message × Decoder)
    → ((e : Decoder) → IsConsistent e → LoopAccounts e (feed_loop fuel e))
    → Accounts d r
    → LoopAccounts d (feed_round (feed_loop fuel) r)
unfolding feed_round encode_batch
feed_round-LoopAccounts fuel d (none, d') go_on (lost, e, few, c) = (lost, e, few, tt, c)
feed_round-LoopAccounts fuel d (some m, d') go_on a =
    prepend-LoopAccounts d d' m (feed_loop fuel d') a (go_on d' a.2)

feed_loop-LoopAccounts :
    (fuel : ℕ) (d : Decoder) → IsConsistent d → LoopAccounts d (feed_loop fuel d)
unfolding feed_loop try_parse_message
feed_loop-LoopAccounts zero d c = tt
feed_loop-LoopAccounts (suc fuel) d c =
    feed_round-LoopAccounts fuel d (try_parse_message d) (feed_loop-LoopAccounts fuel)
      (parse_from-Accounts d.state d refl c)

IsConsistent-more :
    (d : Decoder) (more : List ℕ)
    → Bytes more
    → IsConsistent d
    → IsConsistent (record d { buffer = d.buffer ++ more })
IsConsistent-more d more b c = record {
  bytes = All-append _ d.buffer more c.bytes b;
  header_read = λ e.
      let (enough, same, magic) = c.header_read e in
      (
        omega (arith, length-append d.buffer more),
        same ∙ sym (decoded-append d.buffer more enough),
        magic,
      );
}

-- From a consistent decoder, and for bytes below 256, `Feed` splits what it had and what it got
-- into the encodings of the messages that it returns, at most one lost byte, and what stays in the
-- buffer; the returned messages have the right magic number, and the decoder stays consistent.
pub feed_accounts :
    (d : Decoder) (bytes : List ℕ) (ms : List Message) (d' : Decoder)
    → IsConsistent d
    → Bytes bytes
    → feed d bytes ≡ some (ms, d')
    → (lost : List ℕ) × (d.buffer ++ bytes ≡ encode_batch ms ++ (lost ++ d'.buffer))
      × (length lost ≤ 1)
      × All (λ m. m.header.magic ≡ protocol_magic) ms
      × IsConsistent d'
unfolding feed
feed_accounts d bytes ms d' c b e =
    subst (LoopAccounts (record d { buffer = d.buffer ++ bytes })) e
      (feed_loop-LoopAccounts _ _ (IsConsistent-more d bytes b c))
