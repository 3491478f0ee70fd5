-- ===== src/Services/ChunkMethods/Writing.antt =====
-- services/storage_service_server.cc: WriteChunk does what the handler of Services/ChunkRpc does on the
-- arguments that the JSON object has, and what an answer with code 0 means.
use file_server.Prelude.{
  ◌≡◌, refl, Bool, true, false, Option, none, some, List, [], ◌∷◌, length, if◌then◌else◌, if-false,
  Bool-cases, inl, inr, ◌||◌, ◌==◌, not,
}
use file_server.Prelude.Int.{ℤ, pos, negsuc, eq_ℤ, leb_ℤ, ltb_ℤ}
use file_server.Prelude.Text.{Bytes}
use file_server.Json.{JsonLib, utf8, at_int64, at_text}
use file_server.Storage.{Os, Disk, create_user_dir, write_chunk}
use file_server.Services.ChunkRpc.{ChunkArgs, request_valid, store_in, store_chunk}
use file_server.Services.ChunkMethods.Typed.{Reads}
use file_server.Services.ChunkMethods.{
  written_answer, write_in, write_sized, write_checked, write_method,
}

-- The answer of `WriteChunk` for what its handler tells.
abbrev pub Writes : (lib : JsonLib) → Option ℤ → Option lib.Json → Type 0
Writes lib none r =
    (rest : List (Bytes × lib.Json)) × (r
      ≡ some (lib.object ((utf8 "code", lib.number (negsuc 0)) ∷ rest)))
Writes lib (some written) r =
    r
    ≡ some
        (lib.object ((utf8 "code", lib.number (pos 0)) ∷ (utf8 "written", lib.number written) ∷ []))

-- The answer and the disk of `WriteChunk` agree with those of its handler.
abbrev pub Stores : (lib : JsonLib) → Option lib.Json × Disk → Option ℤ × Disk → Type 0
Stores lib r t = Writes lib t.0 r.0 × (r.1 ≡ t.1)

-- A test that fails ahead of the last ones fails the whole.
tested_early : (a b c rest : Bool) → (a || (b || c)) ≡ true → not (a || (b || (c || rest))) ≡ false
tested_early true b c rest e = refl
tested_early false true c rest e = refl
tested_early false false true rest e = refl
tested_early false false false rest e = absurd (cc)

module _ (lib : JsonLib) (os : Os) (base : Bytes) where
  open lib use {Json}

  branch_lem :
      (b : Bool) (x y : Option Json × Disk) (x' y' : Option ℤ × Disk)
      → Stores lib x x'
      → Stores lib y y'
      → Stores lib (if b then x else y) (if b then x' else y')
  branch_lem true x y x' y' p q = p
  branch_lem false x y x' y' p q = q

  written_lem :
      (data' : Bytes) (written : ℤ) (disk : Disk)
      → Stores lib
          (some (written_answer lib os base data' written), disk)
          ((if eq_ℤ written (pos (length data')) then some written else none), disk)
  unfolding written_answer
  written_lem data' written disk = go (eq_ℤ written (pos (length data')))
    where
      go :
          (b : Bool)
          → Stores lib
              (
                some (
                    lib.object (
                      (utf8 "code", lib.number (if b then pos 0 else negsuc 0))
                      ∷ (utf8 "written", lib.number written)
                      ∷ [])),
                disk,
              )
              ((if b then some written else none), disk)
      go true = (refl, refl)
      go false = ((_, refl), refl)

  write_in_lem :
      (filepath data' : Bytes) (offset : ℤ) (r : Bool × Disk)
      → Stores lib
          (write_in lib os base filepath data' offset r)
          (store_in os base filepath data' offset r)
  unfolding write_in store_in
  write_in_lem filepath data' offset (false, disk) = ((_, refl), refl)
  write_in_lem filepath data' offset (true, disk) =
      let r = write_chunk os base filepath data' offset disk in written_lem data' r.0 r.1

  write_sized_lem :
      (user_id offset : ℤ) (filepath data' : Bytes) (size : ℤ) (disk : Disk)
      → Stores lib
          (write_sized lib os base user_id offset filepath data' size disk)
          (store_chunk os base user_id offset size filepath data' disk)
  unfolding write_sized store_chunk
  write_sized_lem user_id offset filepath data' size disk =
      branch_lem (request_valid user_id offset size filepath data') _ _ _ _
        (write_in_lem filepath data' offset (create_user_dir os base user_id disk))
        ((_, refl), refl)

  store_chunk_early :
      (args : ChunkArgs) (filepath data' : Bytes) (disk : Disk)
      → (leb_ℤ args.user_id (pos 0) || (ltb_ℤ args.offset (pos 0) || length data' == 0)) ≡ true
      → store_chunk os base args.user_id args.offset args.size filepath data' disk ≡ (none, disk)
  unfolding store_chunk request_valid
  store_chunk_early args filepath data' disk e = if-false _ (
      tested_early (leb_ℤ args.user_id (pos 0)) (ltb_ℤ args.offset (pos 0)) (length data' == 0) _ e)

  write_checked_lem :
      (j : Json) (args : ChunkArgs) (filepath data' : Bytes) (disk : Disk)
      → at_int64 lib (utf8 "size") j ≡ some args.size
      → Stores lib
          (write_checked lib os base j args.user_id args.offset filepath data' disk)
          (store_chunk os base args.user_id args.offset args.size filepath data' disk)
  unfolding write_checked
  write_checked_lem j args filepath data' disk size_read =
      elim (Bool-cases
        (leb_ℤ args.user_id (pos 0) || (ltb_ℤ args.offset (pos 0) || length data' == 0))) [
          | inl e ↦ rw e (rw (store_chunk_early args filepath data' disk e) (((_, refl), refl)))
          | inr e ↦ rw e (
              rw size_read (write_sized_lem args.user_id args.offset filepath data' args.size disk))
        ]

  -- `WriteChunk` of the storage service on an object with the arguments does what its handler does on them.
  pub write_method_lem :
      (j : Json) (args : ChunkArgs) (filepath data' : Bytes) (disk : Disk)
      → Reads lib j args
      → at_text lib (utf8 "filepath") j ≡ some filepath
      → Stores lib
          (write_method lib os base j data' disk)
          (store_chunk os base args.user_id args.offset args.size filepath data' disk)
  unfolding write_method
  write_method_lem j args filepath data' disk reads filepath_read = rw filepath_read (
      rw reads.user_id_read
        (rw reads.offset_read (write_checked_lem j args filepath data' disk reads.size_read)))
