-- ===== src/Gateway/Process/Answers.antt =====
-- gateway/bin/gateway_main.cc: how the answers of the services to an upload are read.
use mathlib.Core.Option
use file_server.Prelude.{
  ◌≡◌, ◌≢◌, ◌⊎◌, refl, ap, sym, subst, ◌∙◌, inl, inr, Bool, true, false, Option, none, some,
  if◌then◌else◌, if-true, if-false, Option-cases, Bool-cases,
}
use file_server.Prelude.Int.{ℤ, pos, negsuc, eq_ℤ, eq_ℤ_iff}
use file_server.Prelude.Text.{Bytes}
use file_server.Json.{JsonLib, utf8, value_text, value_int64}
use file_server.Protocol.Message.{Message}
use file_server.Gateway.Process.{
  Chunk, chunk_size, code_of, chunk_failed, reply_plain, done_with, confirm_code, confirm_answer,
  whole,
}

module _ (lib : JsonLib) (c : Chunk lib) where
  open lib use {Json}

  -- No answer, or one with a code that is not 0.
  abbrev pub Failed : Option Message → Type 0
  Failed resp =
      (resp ≡ none)
      ⊎ ((code : ℤ) × (msg : Bytes) × (eq_ℤ code (pos 0) ≡ false)
          × (resp ≡ reply_plain lib c.request code msg))

  pub chunk_failed-Failed :
      (code : ℤ) (otherwise : Bytes) (r : Json)
      → eq_ℤ code (pos 0) ≡ false
      → Failed (chunk_failed lib c code otherwise r)
  unfolding chunk_failed
  chunk_failed-Failed code otherwise r e =
      elim (Option-cases (value_text lib (utf8 "msg") otherwise r)) [
        | inl f ↦ inl (rw (f, chunk_failed) refl)
        | inr (msg, f) ↦ inr (code, msg, e, rw (f, chunk_failed) refl)
      ]

  -- A result with code 0.
  abbrev pub Accepted : Option Json → Json → Type 0
  Accepted r j = (r ≡ some j) × (code_of lib j ≡ some (pos 0))

  -- No result, or one whose code is not 0 or cannot be read.
  abbrev pub NotAccepted : Option Json → Type 0
  NotAccepted r = (r ≡ none) ⊎ ((j : Json) × (r ≡ some j) × (code_of lib j ≢ some (pos 0)))

  pub other_code :
      (j : Json) (code : ℤ)
      → code_of lib j ≡ some code
      → eq_ℤ code (pos 0) ≡ false
      → code_of lib j ≢ some (pos 0)
  other_code j code e other f = absurd (cc (other, ap is_zero e, ap is_zero f))
    where
      is_zero : Option ℤ → Bool
      is_zero none = false
      is_zero (some n) = eq_ℤ n (pos 0)

  pub no_code : (j : Json) → code_of lib j ≡ none → code_of lib j ≢ some (pos 0)
  no_code j e f = absurd (cc (e, f))

  pub confirm_answer_lem :
      (r : Option Json)
      → (NotAccepted r × Failed (confirm_answer lib c r))
        ⊎ ((j : Json) × Accepted r j × (confirm_answer lib c r ≡ done_with lib c j))
  unfolding confirm_answer confirm_code
  confirm_answer_lem none = inl (inl refl, inl refl)
  confirm_answer_lem (some j) = elim (Option-cases (code_of lib j)) [
    | inl e ↦ inl (inr (j, refl, no_code j e), inl (ap (λ k. confirm_code lib c k j) e))
    | inr (code, e) ↦ elim (Bool-cases (eq_ℤ code (pos 0))) [
      | inl zero_code ↦ inr (
        j,
        (refl, e ∙ ap some ((eq_ℤ_iff code (pos 0)).0 zero_code)),
        ap (λ k. confirm_code lib c k j) e
            ∙ if-true (chunk_failed lib c code (utf8 "进度确认失败") j) zero_code,
      )
      | inr other ↦ inl (
        inr (j, refl, other_code j code e other),
        subst Failed (sym (ap (λ k. confirm_code lib c k j) e ∙ if-false (done_with lib c j) other))
            (chunk_failed-Failed code (utf8 "进度确认失败") j other),
      )
    ]
  ]

  -- What the storage service reports to have written.
  abbrev pub reported : Json → Option ℤ
  reported = value_int64 lib (utf8 "written") (negsuc 0)

  abbrev judged : Json → Option ℤ → Option Bool
  judged j none = none
  judged j (some code) =
      if eq_ℤ code (pos 0)
      then Option.map (λ written. eq_ℤ written (chunk_size lib c)) (reported j)
      else some false

  abbrev verdict : Option ℤ → Option Bool
  verdict written = Option.map (λ n. eq_ℤ n (chunk_size lib c)) written

  verdict-true : (r : Option ℤ) → verdict r ≡ some true → r ≡ some (chunk_size lib c)
  verdict-true none e = absurd (cc)
  verdict-true (some n) e = ap some ((eq_ℤ_iff n (chunk_size lib c)).0 (ap (or_false) e))
    where
      or_false : Option Bool → Bool
      or_false none = false
      or_false (some b) = b

  judged-true :
      (j : Json) (code : Option ℤ)
      → judged j code ≡ some true
      → (code ≡ some (pos 0)) × (reported j ≡ some (chunk_size lib c))
  judged-true j none e = absurd (cc)
  judged-true j (some code) e = elim (Bool-cases (eq_ℤ code (pos 0))) [
    | inl h ↦ (
      ap some ((eq_ℤ_iff code (pos 0)).0 h),
      verdict-true (reported j) (sym (if-true (some false) h) ∙ e),
    )
    | inr h ↦ absurd (cc (sym (if-false (verdict (reported j)) h) ∙ e))
  ]

  pub whole-true :
      (j : Json)
      → whole lib c j ≡ some true
      → (code_of lib j ≡ some (pos 0)) × (reported j ≡ some (chunk_size lib c))
  unfolding whole
  whole-true j e = judged-true j (code_of lib j) e

  -- No result, or one that does not report the whole chunk with code 0.
  abbrev pub NotWritten : Option Json → Type 0
  NotWritten r =
      (r ≡ none)
      ⊎ ((j : Json) × (r ≡ some j)
          × ¬ ((code_of lib j ≡ some (pos 0)) × (reported j ≡ some (chunk_size lib c))))

  judged_lem :
      (j : Json)
      → (code_of lib j ≡ some (pos 0)) × (reported j ≡ some (chunk_size lib c))
      → judged j (code_of lib j) ≡ some true
  judged_lem j (zero_code, all) =
      ap (judged j) zero_code
      ∙ ap verdict all
      ∙ ap some ((eq_ℤ_iff (chunk_size lib c) (chunk_size lib c)).1 refl)

  pub whole-other : (j : Json) → whole lib c j ≢ some true → NotWritten (some j)
  unfolding whole
  whole-other j other = inr (j, refl, λ h. other (judged_lem j h))
