-- ===== src/Services/ChunkRpc/Progress.antt =====
-- services/file_service_server.cc: the progress of an upload in chunks.
use file_server.Prelude.{
  ◌≡◌, refl, ap, sym, subst, ◌⊎◌, inl, inr, Bool, true, false, Option, none, some, All, arith,
  Bool-cases,
}
use file_server.Prelude.Int.{
  ℤ, pos, ltb_ℤ, eq_ℤ, eq_ℤ_iff, ◌≤ℤ◌, ◌<ℤ◌, ◌+ℤ◌, +ℤ_parts, -ℤ_parts, eq_of_parts,
}
use file_server.Database.{Mysql, MysqlLaws}
use file_server.Database.Tables.{FileInfo, is_uploading, completed, set_status}
use file_server.Database.FileDao
use file_server.Database.Laws.{found_Among, Among, Applied, find_by_id_lem}
use file_server.Database.Confirm.{Bounded, confirm_upload_chunk-Bounded}
use file_server.Storage.{Bytes}
use file_server.Services.ChunkRpc.{
  ChunkArgs, chunk_fits, only_if, fitting, validate_chunk, confirm_upload_chunk, confirm_of,
  confirmed_size,
}

-- The chunk is one of the file's, and starts where the progress is or lies in what is confirmed.
abbrev pub Fitting : ChunkArgs → FileInfo → Type 0
Fitting args info =
    (info.user_id ≡ args.user_id)
    × (is_uploading info ≡ true)
    × (pos 0 ≤ℤ args.offset)
    × (pos 0 <ℤ args.size)
    × (args.offset +ℤ args.size ≤ℤ info.filesize)
    × ((args.offset ≡ info.upload_size) ⊎ (args.offset +ℤ args.size ≤ℤ info.upload_size))

chunk_fits_lem :
    (args : ChunkArgs) (info : FileInfo) → chunk_fits args info ≡ true → Fitting args info
unfolding chunk_fits
chunk_fits_lem args info h = (
  (eq_ℤ_iff info.user_id args.user_id).0 (ground arith),
  ground arith,
  ground arith,
  ground arith,
  ground (arith, +ℤ_parts args.offset args.size, -ℤ_parts info.filesize args.offset),
  elim (Bool-cases (ltb_ℤ args.offset info.upload_size)) [
    | inl inside ↦ inr (ground arith)
    | inr outside ↦ inl (eq_of_parts args.offset info.upload_size (ground arith))
  ],
)

fitting_lem :
    (args : ChunkArgs) (found : Option FileInfo) (info : FileInfo)
    → fitting args found ≡ some info
    → (found ≡ some info) × Fitting args info
unfolding fitting only_if
fitting_lem args none info e = absurd (cc)
fitting_lem args (some f) info e = elim (Bool-cases (chunk_fits args f)) [
  | inl fits ↦
      let same : f ≡ info = cc in
      (ap some same, subst (Fitting args) same (chunk_fits_lem args f fits))
  | inr other ↦ absurd (ground arith)
]

module _ (mysql : Mysql) (laws : MysqlLaws mysql) where
  open mysql use {Db, rows}

  validate_chunk_rows :
      (args : ChunkArgs) (db : Db) → rows (validate_chunk mysql args db).1 ≡ rows db
  unfolding validate_chunk
  validate_chunk_rows args db = (find_by_id_lem mysql laws args.file_id db).0

  -- A chunk that is accepted belongs to an upload of its user, lies within the announced size, and
  -- starts where the progress is or lies in the part that is confirmed.
  -- The database keeps `MysqlLaws`.
  pub validate_chunk_lem :
      (args : ChunkArgs) (db : Db) (info : FileInfo)
      → (validate_chunk mysql args db).0 ≡ some info
      → Among (λ f. eq_ℤ f.id args.file_id) info (rows db).files × Fitting args info
  unfolding validate_chunk
  validate_chunk_lem args db info e =
      let (found, fits) = fitting_lem args (FileDao.find_by_id mysql args.file_id db).0 info e in
      (found_Among info found (find_by_id_lem mysql laws args.file_id db).1, fits)

  confirmed_size_rows :
      (args : ChunkArgs) (r : Bool × Db) → rows (confirmed_size mysql args r).1 ≡ rows r.1
  unfolding confirmed_size
  confirmed_size_rows args (false, db) = refl
  confirmed_size_rows args (true, db) = (find_by_id_lem mysql laws args.file_id db).0

  confirm_of-Bounded :
      (args : ChunkArgs) (found : Option FileInfo) (db : Db)
      → ((info : FileInfo) → found ≡ some info → Fitting args info)
      → All Bounded (rows db).files
      → All Bounded (rows (confirm_of mysql args found db).1).files
  unfolding confirm_of
  confirm_of-Bounded args none db fits all = all
  confirm_of-Bounded args (some info) db fits all =
      let (owner, status, low, size, inside, rest) = fits info refl in
      subst (λ r. All Bounded r.files) (sym (confirmed_size_rows args _))
        (confirm_upload_chunk-Bounded mysql laws args.file_id args.user_id args.offset args.size db
          (omega (arith, +ℤ_parts args.offset args.size)) all)

  -- `ConfirmUploadChunk` keeps the progress of every file between 0 and its size, for any
  -- arguments and for any failure of the database. The database keeps `MysqlLaws`.
  pub confirm_rpc-Bounded :
      (args : ChunkArgs) (db : Db)
      → All Bounded (rows db).files
      → All Bounded (rows (confirm_upload_chunk mysql args db).1).files
  unfolding confirm_upload_chunk
  confirm_rpc-Bounded args db all =
      confirm_of-Bounded args (validate_chunk mysql args db).0 (validate_chunk mysql args db).1
        (λ info e. (validate_chunk_lem args db info e).1)
        (subst (λ r. All Bounded r.files) (sym (validate_chunk_rows args db)) all)

  -- What `UploadFinalize` has checked when it answers true, and what it has changed.
  abbrev pub Finished : (Bytes → Option ℤ) → ℤ → FileInfo → Db → Db → Type 0
  Finished ask user_id info db db' =
      (info.user_id ≡ user_id)
      × (is_uploading info ≡ true)
      × (info.upload_size ≡ info.filesize)
      × (ask info.filepath ≡ some info.filesize)
      × Applied (set_status completed info.id) (rows db) (rows db')
