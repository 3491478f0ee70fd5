-- ===== src/Services/ChunkRpc/Storing.antt =====
-- services/storage_service_server.cc: where a chunk is written, and what is there afterwards.
use file_server.Prelude.{
  ◌≡◌, refl, ap, sym, subst, ◌∙◌, inl, inr, ℕ, Bool, true, false, Option, none, some, [], ◌∷◌, ◌++◌,
  arith, Bool-cases, if◌then◌else◌, length, take, drop, take-append-drop,
}
use file_server.Prelude.Int.{ℤ, pos, negsuc, eq_ℤ, eq_ℤ_iff, ◌<ℤ◌}
use file_server.Prelude.Text.{same_text, same_text_eq}
use file_server.Prelude.Decimal.{to_string}
use file_server.Storage.{Bytes, Disk, Os, get_absolute_path, write_at, create_user_dir, write_chunk}
use file_server.Storage.Chunks.{content, write_chunk_ok}
use file_server.Services.ChunkRpc.{
  starts_with, has_dots, has_backslash, request_valid, store_in, store_chunk,
}

starts_with_lem :
    (prefix filepath : Bytes)
    → starts_with prefix filepath ≡ true
    → filepath ≡ prefix ++ drop (length prefix) filepath
starts_with_lem prefix filepath h =
    sym (take-append-drop (length prefix) filepath)
    ∙ ap (λ p. p ++ drop (length prefix) filepath)
        (sym (same_text_eq prefix (take (length prefix) filepath) h))

-- The path is one in the directory of the user, and cannot leave it.
abbrev pub InsideUserDir : ℤ → Bytes → Type 0
InsideUserDir user_id filepath =
    (pos 0 <ℤ user_id)
    × ((rest : Bytes) × (filepath ≡ (to_string user_id ++ b'/' ∷ []) ++ rest))
    × (has_dots filepath ≡ false)
    × (has_backslash filepath ≡ false)

request_valid_lem :
    (user_id offset size : ℤ) (filepath data' : Bytes)
    → request_valid user_id offset size filepath data' ≡ true
    → InsideUserDir user_id filepath × (size ≡ pos (length data'))
unfolding request_valid
request_valid_lem user_id offset size filepath data' h = (
  (
    ground arith,
    (_, starts_with_lem (to_string user_id ++ b'/' ∷ []) filepath (ground arith)),
    ground arith,
    ground arith,
  ),
  (eq_ℤ_iff size (pos (length data'))).0 (ground arith),
)

module _ (os : Os) (base : Bytes) where
  create_user_dir_files :
      (user_id : ℤ) (disk : Disk) → (create_user_dir os base user_id disk).1.files ≡ disk.files
  unfolding create_user_dir
  create_user_dir_files user_id disk = ground arith

  -- The chunk is at its offset over what the file held, and no other file is changed.
  abbrev pub Stored : Bytes → Bytes → ℤ → (Bytes → Option Bytes) → (Bytes → Option Bytes) → Type 0
  Stored filepath data' offset files files' =
      let path = get_absolute_path base filepath in
      (k : ℕ) × (offset ≡ pos k)
      × (files' path ≡ some (write_at (content (files path)) k data'))
      × ((p : Bytes) → same_text path p ≡ false → files' p ≡ files p)

  store_in_lem :
      (filepath data' : Bytes) (offset : ℤ) (made : Bool) (disk : Disk) (n : ℤ)
      → (store_in os base filepath data' offset (made, disk)).0 ≡ some n
      → (n ≡ pos (length data'))
        × Stored filepath data' offset disk.files
            (store_in os base filepath data' offset (made, disk)).1.files
  unfolding store_in
  store_in_lem filepath data' offset false disk n e = absurd (cc)
  store_in_lem filepath data' offset true disk n e =
      go (write_chunk os base filepath data' offset disk).0
        (write_chunk os base filepath data' offset disk).1 refl e
    where
      go :
          (w : ℤ) (disk' : Disk)
          → write_chunk os base filepath data' offset disk ≡ (w, disk')
          → (if eq_ℤ w (pos (length data')) then some w else none) ≡ some n
          → (n ≡ pos (length data')) × Stored filepath data' offset disk.files disk'.files
      go (negsuc m) disk' is_w e' = absurd (ground arith)
      go (pos m) disk' is_w e' =
          let (k, at_k, all, file, others) =
            write_chunk_ok os base filepath data' offset disk m disk' is_w in
          (ground arith, (k, at_k, file, others))

  store_chunk-valid :
      (user_id offset size : ℤ) (filepath data' : Bytes) (disk : Disk)
      → request_valid user_id offset size filepath data' ≡ true
      → store_chunk os base user_id offset size filepath data' disk
        ≡ store_in os base filepath data' offset (create_user_dir os base user_id disk)
  unfolding store_chunk
  store_chunk-valid user_id offset size filepath data' disk h = ground arith

  -- A chunk that the storage service accepts is for a path in the directory of the user that cannot
  -- leave it, has the announced size, and is then on the disk in whole; no other file changes.
  pub store_chunk_lem :
      (user_id offset size : ℤ) (filepath data' : Bytes) (disk : Disk) (n : ℤ)
      → (store_chunk os base user_id offset size filepath data' disk).0 ≡ some n
      → InsideUserDir user_id filepath
        × (size ≡ pos (length data'))
        × (n ≡ pos (length data'))
        × Stored filepath data' offset disk.files
            (store_chunk os base user_id offset size filepath data' disk).1.files
  unfolding store_chunk
  store_chunk_lem user_id offset size filepath data' disk n e =
      elim (Bool-cases (request_valid user_id offset size filepath data')) [
        | inl valid ↦
            let made = create_user_dir os base user_id disk in
            let same = store_chunk-valid user_id offset size filepath data' disk valid in
            let (all, stored) =
              store_in_lem filepath data' offset made.0 made.1 n (ap (λ r. r.0) (sym same) ∙ e) in
            let (inside, announced) = request_valid_lem user_id offset size filepath data' valid in
            (
              inside,
              announced,
              all,
              subst
                  (λ fs.
                    Stored filepath data' offset fs
                      (store_chunk os base user_id offset size filepath data' disk).1.files)
                  (create_user_dir_files user_id disk)
                  (subst (λ r. Stored filepath data' offset made.1.files r.1.files) (sym same)
                    stored),
            )
        | inr bad ↦ absurd (ground arith)
      ]
