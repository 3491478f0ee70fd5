-- ===== src/Services/ChunkMethods/Typed.antt =====
-- services/file_service_server.cc: PrepareUploadChunk and ConfirmUploadChunk do what the handlers of
-- Services/ChunkRpc do on the arguments that the JSON object has.
use file_server.Prelude.{◌≡◌, refl, sym, subst, ap, ◌∙◌, Bool, true, false, Option, none, some}
use file_server.Prelude.Int.{ℤ}
use file_server.Prelude.Text.{Bytes}
use file_server.Prelude.Action.{lift, ◌>>=◌, >>=-some}
use file_server.Json.{JsonLib, utf8, at_int64}
use file_server.Database.{Mysql}
use file_server.Database.Tables.{FileInfo}
use file_server.Database.FileDao
use file_server.Services.ChunkRpc.{
  ChunkArgs, fitting, validate_chunk, prepare_upload_chunk, confirmed_size, confirm_of,
  confirm_upload_chunk,
}
use file_server.Services.ChunkMethods.{
  complaint_result, progress_result, prepared_result, checked_row, prepare_answer, found_answer,
  validate_row, prepare_method, confirm_row, confirmed_answer, confirm_method,
}

-- The object has the arguments.
pub record Reads (lib : JsonLib) (j : lib.Json) (args : ChunkArgs) : Type 0 where
  pub file_id_read : at_int64 lib (utf8 "file_id") j ≡ some args.file_id
  pub user_id_read : at_int64 lib (utf8 "user_id") j ≡ some args.user_id
  pub offset_read : at_int64 lib (utf8 "offset") j ≡ some args.offset
  pub size_read : at_int64 lib (utf8 "size") j ≡ some args.size

-- The answer of `PrepareUploadChunk`.
abbrev pub prepared : (lib : JsonLib) → Option (Bytes × ℤ) → lib.Json
prepared lib none = complaint_result lib (utf8 "文件、权限或上传偏移无效")
prepared lib (some (filepath, size)) = prepared_result lib filepath size

-- The answers of `ConfirmUploadChunk`: the failures have two texts.
abbrev pub Confirms : (lib : JsonLib) → Option ℤ → Option lib.Json → Type 0
Confirms lib none r = (msg : Bytes) × (r ≡ some (complaint_result lib msg))
Confirms lib (some size) r = r ≡ some (progress_result lib size)

-- The answer and the database of `ConfirmUploadChunk` agree with those of its handler.
abbrev pub Agrees : (lib : JsonLib) {Db : Type 0} → Option lib.Json × Db → Option ℤ × Db → Type 0
Agrees lib r t = Confirms lib t.0 r.0 × (r.1 ≡ t.1)

module _ (lib : JsonLib) (j : lib.Json) (args : ChunkArgs) (reads : Reads lib j args) where
  open lib use {Json}

  checked_row_lem :
      (info : Option FileInfo)
      → checked_row lib j args.file_id args.offset args.size info ≡ some (fitting args info)
  unfolding checked_row fitting
  checked_row_lem none = refl
  checked_row_lem (some info) =
      ap
        (λ (u : Option ℤ). elim u as (λ _. Option (Option FileInfo)) [
          | none ↦ none
          | some user_id ↦ some (
              fitting
                (record {
                  file_id = args.file_id;
                  user_id = user_id;
                  offset = args.offset;
                  size = args.size;
                })
                (some info))
        ])
        reads.user_id_read

  module _ (mysql : Mysql) (db : mysql.Db) where
    open mysql use {Db}

    validate_row_lem :
        validate_row lib mysql j db
        ≡ (some (validate_chunk mysql args db).0, (validate_chunk mysql args db).1)
    unfolding validate_row validate_chunk
    validate_row_lem = rw reads.file_id_read (
        rw reads.offset_read (
          rw reads.size_read (
            ap (λ o. (o, (FileDao.find_by_id mysql args.file_id db).1))
              (checked_row_lem (FileDao.find_by_id mysql args.file_id db).0))))

    -- `PrepareUploadChunk` on an object with the arguments does what its handler does on them.
    pub prepare_method_lem : prepare_method lib mysql j db ≡ (
      some (prepared lib (prepare_upload_chunk mysql args db).0),
      (prepare_upload_chunk mysql args db).1,
    )
    unfolding prepare_method prepare_upload_chunk
    prepare_method_lem =
        >>=-some (validate_row lib mysql j) (λ info. lift (some (prepare_answer lib info))) db
          (validate_chunk mysql args db).0 (ap (λ r. r.0) validate_row_lem)
        ∙ ap
            (λ (r : Option (Option FileInfo) × Db).
              (some (prepare_answer lib (validate_chunk mysql args db).0), r.1))
            validate_row_lem
        ∙ ap (λ a. (some a, (validate_chunk mysql args db).1))
            (answer_lem (validate_chunk mysql args db).0)
      where
        answer_lem :
            (info : Option FileInfo)
            → prepare_answer lib info
              ≡ prepared lib (elim info as (λ _. Option (Bytes × ℤ)) [
                | none ↦ none
                | some f ↦ some (f.filepath, f.upload_size)
              ])
        answer_lem none = unfold prepare_answer in refl
        answer_lem (some info) = unfold prepare_answer in refl

    found_lem :
        (found : Option FileInfo) (db₁ : Db)
        → Agrees lib
            (some (found_answer lib found), db₁)
            ((elim found as (λ _. Option ℤ) [ none ↦ none | some f ↦ some f.upload_size ]), db₁)
    unfolding found_answer
    found_lem none db₁ = ((_, refl), refl)
    found_lem (some f) db₁ = (refl, refl)

    confirmed_lem :
        (confirmed : Bool) (db₁ : Db)
        → Agrees lib
            (confirmed_answer lib mysql j confirmed db₁)
            (confirmed_size mysql args (confirmed, db₁))
    unfolding confirmed_answer confirmed_size
    confirmed_lem false db₁ = ((_, refl), refl)
    confirmed_lem true db₁ = rw reads.file_id_read (
        found_lem (FileDao.find_by_id mysql args.file_id db₁).0
          (FileDao.find_by_id mysql args.file_id db₁).1)

    confirm_row_lem :
        (info : Option FileInfo) (db₁ : Db)
        → Agrees lib
            ((confirm_row lib mysql j info >>= confirmed_answer lib mysql j) db₁)
            (confirm_of mysql args info db₁)
    unfolding confirm_row confirm_of
    confirm_row_lem none db₁ = confirmed_lem false db₁
    confirm_row_lem (some info) db₁ = rw reads.file_id_read (
        rw reads.user_id_read (
          rw reads.offset_read (
            rw reads.size_read (
              let r =
                FileDao.confirm_upload_chunk mysql args.file_id args.user_id args.offset args.size
                  db₁ in
              confirmed_lem r.0 r.1))))

    -- `ConfirmUploadChunk` on an object with the arguments does what its handler does on them.
    pub confirm_method_lem :
        Agrees lib (confirm_method lib mysql j db) (confirm_upload_chunk mysql args db)
    unfolding confirm_method confirm_upload_chunk
    confirm_method_lem =
        subst
          (λ (r : Option (Option FileInfo) × Db).
            Agrees lib
              (elim r.0 as (λ _. Option Json × Db) [
                | none ↦ (none, r.1)
                | some info ↦ (confirm_row lib mysql j info >>= confirmed_answer lib mysql j) r.1
              ])
              (confirm_upload_chunk mysql args db))
          (sym validate_row_lem)
          (confirm_row_lem (validate_chunk mysql args db).0 (validate_chunk mysql args db).1)
