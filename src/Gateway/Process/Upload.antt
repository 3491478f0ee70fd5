-- ===== src/Gateway/Process/Upload.antt =====
-- gateway/bin/gateway_main.cc: the calls that an upload of a chunk makes, and its answers.
use file_server.Prelude.{
  ◌≡◌, ◌⊎◌, refl, ap, sym, subst, ◌∙◌, inl, inr, Bool, true, false, Option, none, some, [], if-true,
  if-false, Bool-cases,
}
use file_server.Prelude.Int.{ℤ, pos, negsuc, ◌+ℤ◌, eq_ℤ, eq_ℤ_iff, leb_ℤ}
use file_server.Json.{JsonLib, utf8, value_int64}
use file_server.Protocol.Message.{Message}
use file_server.Gateway.Process.{
  Remote, file_service, storage_service, Chunk, chunk_size, chunk_args, write_args, code_of,
  chunk_failed, done_with, whole, confirm_chunk, after_write, written_chunk, send_chunk,
  write_or_skip, prepared_code, prepared_chunk, prepare_chunk,
}
use file_server.Gateway.Process.Answers.{
  Failed, Accepted, NotAccepted, NotWritten, reported, chunk_failed-Failed, confirm_answer_lem,
  whole-true, whole-other, no_code, other_code,
}

module _ (lib : JsonLib) (c : Chunk lib) where
  open lib use {Json}

  module _ {S : Type 0} (remote : Remote lib S) where
    abbrev pub prepare_call : S → Option Json × S
    prepare_call = remote file_service (utf8 "PrepareUploadChunk") (chunk_args lib c) []

    abbrev pub write_call : Json → S → Option Json × S
    write_call path =
        remote storage_service (utf8 "WriteChunk") (write_args lib c path) c.request.binary_data

    abbrev pub confirm_call : S → Option Json × S
    confirm_call = remote file_service (utf8 "ConfirmUploadChunk") (chunk_args lib c) []

    -- The confirmation was the last call.
    abbrev pub AfterConfirm : S → Option Message × S → Type 0
    AfterConfirm s (resp, s') =
        (s' ≡ (confirm_call s).1)
        × ((NotAccepted lib c (confirm_call s).0 × Failed lib c resp)
            ⊎ ((j : Json) × Accepted lib c (confirm_call s).0 j × (resp ≡ done_with lib c j)))

    -- The write was the last call and did not succeed, or the whole chunk was written and the confirmation followed.
    abbrev pub AfterWrite : Json → S → Option Message × S → Type 0
    AfterWrite path s (resp, s') =
        let (r, s₂) = write_call path s in
        ((s' ≡ s₂) × Failed lib c resp × NotWritten lib c r)
        ⊎ ((j : Json) × Accepted lib c r j
            × (reported lib c j ≡ some (chunk_size lib c))
            × AfterConfirm s₂ (resp, s'))

    confirm_chunk_lem : (s : S) → AfterConfirm s (confirm_chunk lib remote c s)
    unfolding confirm_chunk
    confirm_chunk_lem s = (refl, confirm_answer_lem lib c (confirm_call s).0)

    after_write_lem :
        (path j : Json) (s : S)
        → (write_call path s).0 ≡ some j
        → (verdict' : Option Bool) → whole lib c j ≡ verdict'
        → AfterWrite path s (after_write lib remote c verdict' j (write_call path s).1)
    unfolding after_write
    after_write_lem path j s e none h =
        inl (
          refl,
          inl refl,
          subst (NotWritten lib c) (sym e) (whole-other lib c j (λ f. absurd (cc))),
        )
    after_write_lem path j s e (some false) h = inl (
      refl,
      chunk_failed-Failed lib c (negsuc 0) _ j refl,
      subst (NotWritten lib c) (sym e) (whole-other lib c j (λ f. absurd (cc))),
    )
    after_write_lem path j s e (some true) h =
        let (zero_code, all) = whole-true lib c j h in
        inr (j, (e, zero_code), all, confirm_chunk_lem (write_call path s).1)

    written_chunk_lem :
        (path : Json) (s : S) (r : Option Json)
        → (write_call path s).0 ≡ r
        → AfterWrite path s (written_chunk lib remote c r (write_call path s).1)
    unfolding written_chunk
    written_chunk_lem path s none e = inl (refl, inl refl, inl e)
    written_chunk_lem path s (some j) e = after_write_lem path j s e (whole lib c j) refl

    abbrev progress_of : Json → Option ℤ
    progress_of = value_int64 lib (utf8 "upload_size") (pos 0)

    -- The chunk is covered by the progress.
    abbrev covered : ℤ → Bool
    covered progress = leb_ℤ (c.offset +ℤ chunk_size lib c) progress

    -- What follows on a preparation that was accepted.
    abbrev pub Skipped : S → Json → ℤ → Option Message × S → Type 0
    Skipped s₁ j progress (resp, s') =
        (leb_ℤ (c.offset +ℤ chunk_size lib c) progress ≡ true)
        × (s' ≡ s₁)
        × (resp ≡ done_with lib c j)

    abbrev pub Written : S → Json → ℤ → Option Message × S → Type 0
    Written s₁ j progress r =
        (leb_ℤ (c.offset +ℤ chunk_size lib c) progress ≡ false)
        × (path : Json) × (lib.member (utf8 "filepath") j ≡ some path)
        × AfterWrite path s₁ r

    -- A preparation with code 0 that lacks what is read from it: the progress, or the path where the chunk
    -- is not covered.
    abbrev pub Unreadable : Json → Type 0
    Unreadable j =
        (value_int64 lib (utf8 "upload_size") (pos 0) j ≡ none)
        ⊎ ((progress : ℤ) × (value_int64 lib (utf8 "upload_size") (pos 0) j ≡ some progress)
            × (leb_ℤ (c.offset +ℤ chunk_size lib c) progress ≡ false)
            × (lib.member (utf8 "filepath") j ≡ none))

    abbrev pub AfterPrepare : S → Option Message × S → Type 0
    AfterPrepare s (resp, s') =
        let (r, s₁) = prepare_call s in
        ((s' ≡ s₁) × Failed lib c resp × NotAccepted lib c r)
        ⊎ ((j : Json) × Accepted lib c r j
            × (((s' ≡ s₁) × (resp ≡ none) × Unreadable j)
                ⊎ ((progress : ℤ) × (value_int64 lib (utf8 "upload_size") (pos 0) j ≡ some progress)
                    × (Skipped s₁ j progress (resp, s') ⊎ Written s₁ j progress (resp, s')))))

    module _ (s : S) (j : Json) (has : (prepare_call s).0 ≡ some j)
        (zero_code : code_of lib j ≡ some (pos 0)) where
      abbrev s₁ : S
      s₁ = (prepare_call s).1

      write_lem :
          (progress : ℤ)
          → progress_of j ≡ some progress
          → covered progress ≡ false
          → (path : Option Json) → lib.member (utf8 "filepath") j ≡ path
          → AfterPrepare s (send_chunk lib remote c path s₁)
      unfolding send_chunk
      write_lem progress read short none e =
          inr (j, (has, zero_code), inl (refl, refl, inr (progress, read, short, e)))
      write_lem progress read short (some path) e = inr (
        j,
        (has, zero_code),
        inr (
          progress,
          read,
          inr (short, path, e, written_chunk_lem path s₁ (write_call path s₁).0 refl),
        ),
      )

      write_or_skip_lem :
          (progress : Option ℤ)
          → progress_of j ≡ progress
          → AfterPrepare s (write_or_skip lib remote c progress j s₁)
      unfolding write_or_skip
      write_or_skip_lem none read = inr (j, (has, zero_code), inl (refl, refl, inl read))
      write_or_skip_lem (some progress) read = elim (Bool-cases (covered progress)) [
        | inl all ↦
            subst (AfterPrepare s)
              (sym (if-true (send_chunk lib remote c (lib.member (utf8 "filepath") j) s₁) all))
              (inr (j, (has, zero_code), inr (progress, read, inl (all, refl, refl))))
        | inr short ↦
            subst (AfterPrepare s) (sym (if-false (done_with lib c j, s₁) short))
              (write_lem progress read short (lib.member (utf8 "filepath") j) refl)
      ]

    prepared_code_lem :
        (s : S) (j : Json)
        → (prepare_call s).0 ≡ some j
        → (code : Option ℤ) → code_of lib j ≡ code
        → AfterPrepare s (prepared_code lib remote c code j (prepare_call s).1)
    unfolding prepared_code
    prepared_code_lem s j has none e = inl (refl, inl refl, inr (j, has, no_code lib c j e))
    prepared_code_lem s j has (some code) e = elim (Bool-cases (eq_ℤ code (pos 0))) [
      | inl zero_code ↦
          subst (AfterPrepare s)
            (sym
              (if-true (chunk_failed lib c code (utf8 "上传校验失败") j, (prepare_call s).1) zero_code))
            (write_or_skip_lem s j has (e ∙ ap some ((eq_ℤ_iff code (pos 0)).0 zero_code))
              (progress_of j) refl)
      | inr other ↦
          subst (AfterPrepare s)
            (sym (if-false (write_or_skip lib remote c (progress_of j) j (prepare_call s).1) other))
            (inl (
              refl,
              chunk_failed-Failed lib c code (utf8 "上传校验失败") j other,
              inr (j, has, other_code lib c j code e other),
            ))
    ]

    prepared_chunk_lem :
        (s : S) (r : Option Json)
        → (prepare_call s).0 ≡ r
        → AfterPrepare s (prepared_chunk lib remote c r (prepare_call s).1)
    unfolding prepared_chunk
    prepared_chunk_lem s none has = inl (refl, inl refl, inl has)
    prepared_chunk_lem s (some j) has = prepared_code_lem s j has (code_of lib j) refl

    -- The gateway's `upload_data` behind the check of the token, on every branch and whatever the
    -- services answer. The preparation comes first; where it gives no result with code 0, the answer
    -- is a failure and nothing follows. With code 0 the chunk is acknowledged and not written where the
    -- progress covers it, and is written under the path of the preparation where it does not; a
    -- preparation without a readable progress, or without the path that is needed, throws. The written
    -- chunk is confirmed where the storage service answered with code 0 and the size of the chunk, and
    -- only then; otherwise the answer is a failure. It is a success exactly where the confirmation has
    -- code 0, up to a missing progress, which throws.
    pub prepare_chunk_lem : (s : S) → AfterPrepare s (prepare_chunk lib remote c s)
    unfolding prepare_chunk
    prepare_chunk_lem s = prepared_chunk_lem s (prepare_call s).0 refl
