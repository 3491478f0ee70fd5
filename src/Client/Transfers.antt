-- ===== src/Client/Transfers.antt =====
-- client/file_client.cc: what the loops of an upload and a download do.
use file_server.Prelude.{
  ℕ, zero, suc, ◌+◌, ◌-◌, ◌≤◌, ◌<◌, ◌≡◌, refl, ap, ap₂, sym, subst, ◌∙◌, inl, inr, true, Option,
  some, [], ◌++◌, length, take, drop, min, if-true, if-false, ltb→lt, Bool-cases, arith, append-nil,
  take-add, take_all, length-take, length-drop,
}
use file_server.Prelude.Int.{ℤ, pos, ◌+ℤ◌, ◌-ℤ◌, ltb_ℤ, eq_ℤ}
use file_server.Prelude.Text.{Bytes}
use file_server.Prelude.Action.{Action}
use file_server.Json.{JsonLib}
use file_server.Client.{
  ClientResponse, Sender, data_request, chunk_request, Ending, unfinished, finished, stopped,
  chunk_limit, piece_size, send_upload_data, after_piece, upload_round, upload_loop, after_chunk,
  download_loop,
}

piece_size_lem : (size k : ℕ) → piece_size (pos size) (pos k) ≡ min chunk_limit (size - k)
unfolding ◌-ℤ◌
piece_size_lem size k = ground arith

pos-add : (k n : ℕ) → pos k +ℤ pos n ≡ pos (k + n)
unfolding ◌+ℤ◌
pos-add k n = ground arith

piece_length :
    (file : Bytes) (k : ℕ)
    → length (take (min chunk_limit (length file - k)) (drop k file))
      ≡ min chunk_limit (length file - k)
piece_length file k =
    length-take (min chunk_limit (length file - k)) (drop k file)
    ∙ ap (min (min chunk_limit (length file - k))) (length-drop k file)
    ∙ omega arith

add_zero : (z : ℤ) → z +ℤ pos 0 ≡ z
unfolding ◌+ℤ◌
add_zero z = ground arith

module _ (lib : JsonLib) {S : Type 0} (send : Sender lib S) (Uploading : Bytes → S → Type 0)
    (token : Bytes) (file_id : ℤ) (file : Bytes) where
  -- In a state in which so much of the file has come, the receiver appends the next piece of the file,
  -- which is not empty and within the file, and answers with code 0.
  abbrev pub Appends : Type 0
  Appends =
      (s : S) (k n : ℕ)
      → Uploading (take k file) s
      → 0 < n
      → k + n ≤ length file
      → (resp : ClientResponse lib) × (s' : S) × (send
            (data_request lib token file_id (pos k) (take n (drop k file))) (take n (drop k file)) s
          ≡ (some resp, s'))
        × (resp.code ≡ pos 0)
        × Uploading (take (k + n) file) s'

  module _ (appends : Appends) where
    abbrev next : ℕ → ℕ
    next k = min chunk_limit (length file - k)

    abbrev round : (ℤ → Action S (Ending lib)) → ℕ → S → ℕ → Option (Ending lib) × S
    round go k s size =
        let r =
          send (data_request lib token file_id (pos k) (take size (drop k file)))
            (take size (drop k file)) s in
        after_piece lib send go (pos k) size r.0 r.1

    round_lem :
        (go : ℤ → Action S (Ending lib)) (k : ℕ) (s : S)
        → k < length file
        → Uploading (take k file) s
        → (s' : S) × (upload_round lib send go token file_id true file (pos k) s
            ≡ go (pos (k + next k)) s')
          × Uploading (take (k + next k) file) s'
    unfolding upload_round send_upload_data after_piece
    round_lem go k s within has =
        let (resp, s', e, zero_code, more) = appends s k (next k) has (omega arith) (omega arith) in
        (
          s',
          ap (round go k s) (piece_size_lem (length file) k)
              ∙ ap (λ r. after_piece lib send go (pos k) (next k) r.0 r.1) e
              ∙ if-true (some (stopped resp), s') (ap (λ z. eq_ℤ z (pos 0)) zero_code)
              ∙ ap (λ o. go o s') (pos-add k (next k)),
          more,
        )

    -- The loop of an upload from an offset inside the file ends within as many rounds as bytes are
    -- left, and one more, and the receiver has the whole file then: it had the bytes before the
    -- offset, appends the next piece of the file, and answers with code 0.
    pub upload_loop_lem :
        (rounds k : ℕ) (s : S)
        → k ≤ length file
        → length file - k < rounds
        → Uploading (take k file) s
        → (s' : S) × (upload_loop lib send rounds token file_id true file (pos k) s
            ≡ (some finished, s'))
          × Uploading file s'
    unfolding upload_loop
    upload_loop_lem zero k s within enough has = absurd (omega arith)
    upload_loop_lem (suc rounds) k s within enough has =
        elim (Bool-cases (ltb_ℤ (pos k) (pos (length file)))) [
          | inl more ↦
              let go = upload_loop lib send rounds token file_id true file in
              let (s₁, step, has₁) = round_lem go k s (ltb→lt k (length file) (ground arith)) has in
              let (s', rest, all) =
                upload_loop_lem rounds (k + next k) s₁ (omega arith) (ground arith) has₁ in
              (s', if-true (some finished, s) more ∙ step ∙ rest, all)
          | inr done ↦ (
            s,
            if-false
                (upload_round lib send (upload_loop lib send rounds token file_id true file) token
                  file_id true file (pos k) s)
                done,
            subst (λ b. Uploading b s) (take_all k file (ground arith)) has,
          )
        ]

module _ (lib : JsonLib) {S : Type 0} (send : Sender lib S) (token : Bytes) (file_id : ℤ) where
  open lib use {Json}

  -- In a good state the server answers a request for a piece of the file, which is not empty and within
  -- the file, with code 0 and its bytes, and stays in a good state.
  abbrev pub Serves : (S → Type 0) → Bytes → Type 0
  Serves Good file =
      (s : S) (offset size : ℕ)
      → Good s
      → 0 < size
      → offset + size ≤ length file
      → (resp : ClientResponse lib) × (s' : S) × (send
            (chunk_request lib token file_id (pos offset) size) [] s
          ≡ (some resp, s'))
        × (resp.code ≡ pos 0)
        × (resp.binary_data ≡ take size (drop offset file))
        × Good s'

  -- The server answers every request for a piece with code 0 and no bytes.
  abbrev pub Silent : Type 0
  Silent =
      (s : S) (offset : ℤ) (size : ℕ)
      → (resp : ClientResponse lib) × (s' : S) × (send (chunk_request lib token file_id offset size)
            [] s
          ≡ (some resp, s'))
        × (resp.code ≡ pos 0)
        × (resp.binary_data ≡ [])

  abbrev Goes : Type 0
  Goes = ℤ → Bytes → Action S (Ending lib × Bytes)

  -- A piece that is answered with code 0 and these bytes.
  piece_lem :
      (go : Goes) (offset : ℤ) (saved bytes : Bytes) (resp : ClientResponse lib) (s s' : S)
      (request : Json)
      → send request [] s ≡ (some resp, s')
      → resp.code ≡ pos 0
      → resp.binary_data ≡ bytes
      → after_chunk lib send go offset saved (send request [] s).0 (send request [] s).1
        ≡ go (offset +ℤ pos (length bytes)) (saved ++ bytes) s'
  unfolding after_chunk
  piece_lem go offset saved bytes resp s s' request e zero_code is_bytes =
      ap (λ r. after_chunk lib send go offset saved r.0 r.1) e
      ∙ if-true (some (stopped resp, saved), s') (ap (λ z. eq_ℤ z (pos 0)) zero_code)
      ∙ ap (λ b. go (offset +ℤ pos (length b)) (saved ++ b) s') is_bytes

  -- A download of a file that the server serves ends within as many rounds as bytes are left, and one
  -- more, and the local file is the whole file then.
  pub download_loop_lem :
      (Good : S → Type 0) (file : Bytes) (rounds k : ℕ) (s : S)
      → Serves Good file
      → Good s
      → k ≤ length file
      → length file - k < rounds
      → (s' : S) × (download_loop lib send rounds token file_id
            (pos (length file))
            (pos k)
            (take k file)
            s
          ≡ (some (finished, file), s'))
  unfolding download_loop
  download_loop_lem Good file zero k s serves good within enough = absurd (omega arith)
  download_loop_lem Good file (suc rounds) k s serves good within enough =
      elim (Bool-cases (ltb_ℤ (pos k) (pos (length file)))) [
        | inl more ↦
            let n = min chunk_limit (length file - k) in
            let inside = ltb→lt k (length file) (ground arith) in
            let size = piece_size_lem (length file) k in
            let (resp, s₁, e, zero_code, bytes, good₁) =
              serves s k (piece_size (pos (length file)) (pos k)) good (omega (arith, size, inside))
                (omega (arith, size, inside)) in
            let go = download_loop lib send rounds token file_id (pos (length file)) in
            let got = bytes ∙ ap (λ m. take m (drop k file)) (piece_size_lem (length file) k) in
            let (s', rest) =
              download_loop_lem Good file rounds (k + n) s₁ serves good₁ (omega arith)
                (ground arith) in
            (
              s',
              if-true (some (finished, take k file), s) more
                  ∙ piece_lem go (pos k) (take k file) (take n (drop k file)) resp s s₁ _ e
                      zero_code got
                  ∙ ap₂ (λ o b. go o b s₁)
                      (ap (λ m. pos k +ℤ pos m) (piece_length file k) ∙ pos-add k n)
                      (sym (take-add k n file))
                  ∙ rest,
            )
        | inr done ↦ (
          s,
          if-false _ done ∙ ap (λ b. (some (finished, b), s)) (take_all k file (ground arith)),
        )
      ]

  -- A server that answers with code 0 and no bytes keeps the client in its loop, however many rounds
  -- it makes, where something of the file is missing.
  pub download_loop-Silent :
      (rounds : ℕ) (filesize offset : ℤ) (saved : Bytes) (s : S)
      → Silent
      → ltb_ℤ offset filesize ≡ true
      → (s' : S) × (download_loop lib send rounds token file_id filesize offset saved s
          ≡ (some (unfinished, saved), s'))
  unfolding download_loop
  download_loop-Silent zero filesize offset saved s silent missing = (s, refl)
  download_loop-Silent (suc rounds) filesize offset saved s silent missing =
      let (resp, s₁, e, zero_code, nothing) = silent s offset (piece_size filesize offset) in
      let go = download_loop lib send rounds token file_id filesize in
      let (s', rest) = download_loop-Silent rounds filesize offset saved s₁ silent missing in
      (
        s',
        if-true (some (finished, saved), s) missing
            ∙ piece_lem go offset saved [] resp s s₁ _ e zero_code nothing
            ∙ ap₂ (λ o b. go o b s₁) (add_zero offset) (append-nil saved)
            ∙ rest,
      )
