-- ===== src/Client/Local/Saved.antt =====
-- client/file_client.cc: what is on the local disk after a download that ends well.
use file_server.Prelude.{
  ℕ, zero, suc, ◌≡◌, refl, sym, ap, ◌∙◌, inl, inr, Bool-cases, true, false, not, ◌||◌, Option, none,
  some, [], ◌++◌, length, if-true, if-false, arith,
}
use file_server.Prelude.Int.{ℤ, pos, eq_ℤ, eq_ℤ_iff, ltb_ℤ}
use file_server.Prelude.Text.{Bytes}
use file_server.Prelude.Action.{Action, lift, >>=-inv}
use file_server.Json.{JsonLib, utf8, value_text, value_int64}
use file_server.Client.{
  ClientResponse, ok, Sender, Ending, unfinished, finished, stopped, chunk_request, piece_size,
  send_with_file, after_chunk, download_loop,
}
use file_server.Client.Local.{
  LocalDisk, target_of, Outcome, answered, local_failure, success, after_download, download_to,
  download_sized, download_info, download_file,
}

module _ (lib : JsonLib) {S : Type 0} (send : Sender lib S) where
  -- The loop stops by an answer that is not ok.
  after_chunk_stopped :
      (go : ℤ → Bytes → Action S (Ending lib × Bytes)) (offset : ℤ) (saved : Bytes)
      (r : Option (ClientResponse lib)) (s s' : S) (resp : ClientResponse lib) (saved' : Bytes)
      → ((offset' : ℤ) (saved₁ : Bytes) (s₁ : S)
          → go offset' saved₁ s₁ ≡ (some (stopped resp, saved'), s')
          → ok lib resp ≡ false)
      → after_chunk lib send go offset saved r s ≡ (some (stopped resp, saved'), s')
      → ok lib resp ≡ false
  unfolding after_chunk
  after_chunk_stopped go offset saved none s s' resp saved' ih e = absurd (cc)
  after_chunk_stopped go offset saved (some r) s s' resp saved' ih e =
      elim (Bool-cases (ok lib r)) [
        | inl good ↦ ih _ _ s (sym (if-true _ good) ∙ e)
        | inr bad ↦
            let same : ◌≡◌ {A = Option (Ending lib × Bytes) × S} (some (stopped r, saved), s)
                (some (stopped resp, saved'), s') =
              sym (if-false _ bad) ∙ e in
            let this : r ≡ resp = cc in ap (ok lib) (sym this) ∙ bad
      ]

  download_loop-stopped :
      (rounds : ℕ) (token : Bytes) (file_id filesize offset : ℤ) (saved : Bytes) (s s' : S)
      (resp : ClientResponse lib) (saved' : Bytes)
      → download_loop lib send rounds token file_id filesize offset saved s
        ≡ (some (stopped resp, saved'), s')
      → ok lib resp ≡ false
  unfolding download_loop
  download_loop-stopped zero token file_id filesize offset saved s s' resp saved' e = absurd (cc)
  download_loop-stopped (suc rounds) token file_id filesize offset saved s s' resp saved' e =
      elim (Bool-cases (ltb_ℤ offset filesize)) [
        | inl more ↦
            let r =
              send (chunk_request lib token file_id offset (piece_size filesize offset)) [] s in
            after_chunk_stopped (download_loop lib send rounds token file_id filesize) offset saved
              r.0 r.1 s' resp saved'
              (λ o b s₁ e'.
                download_loop-stopped rounds token file_id filesize o b s₁ s' resp saved' e')
              (sym (if-true _ more) ∙ e)
        | inr done ↦ absurd (
            let h : (some (finished, saved), s) ≡ (some (stopped resp, saved'), s') =
              sym (if-false _ done) ∙ e in
            cc)
      ]

  module _ (disk : LocalDisk) where
    -- A download that ends well: the whole file of a size is at a target that could store it.
    abbrev Whole : ℤ → Option (Bytes × Bytes) → Type 0
    Whole filesize out =
        (target : Bytes) × (file : Bytes) × (out ≡ some (target, file))
        × (disk.can_store target file ≡ true)
        × (pos (length file) ≡ filesize)

    after_download-Whole :
        (target : Bytes) (filesize : ℤ) (ending : Ending lib) (saved : Bytes)
        (resp : ClientResponse lib) (out : Option (Bytes × Bytes))
        → ((r : ClientResponse lib) → ending ≡ stopped r → ok lib r ≡ false)
        → after_download lib disk target filesize (ending, saved) ≡ answered resp out
        → ok lib resp ≡ true
        → Whole filesize out
    unfolding after_download
    after_download-Whole target filesize unfinished saved resp out bad e good = absurd (cc)
    after_download-Whole target filesize (stopped r) saved resp out bad e good =
        let this : r ≡ resp = cc in absurd (let no = bad r refl in cc)
    after_download-Whole target filesize finished saved resp out bad e good =
        elim (Bool-cases
          (not (disk.can_store target saved) || not (eq_ℤ (pos (length saved)) filesize))) [
            | inl failed ↦
                let same : answered (local_failure lib (utf8 "写入文件失败: " ++ target))
                      (some (target, saved))
                    ≡ answered resp out =
                  sym (if-true _ failed) ∙ e in
                let this : local_failure lib (utf8 "写入文件失败: " ++ target) ≡ resp = cc in
                absurd (let no : ok lib resp ≡ false = ap (ok lib) (sym this) in cc)
            | inr fine ↦
                let same : answered (success lib target filesize) (some (target, saved))
                    ≡ answered resp out =
                  sym (if-false _ fine) ∙ e in
                (
                  target,
                  saved,
                  cc,
                  ground arith,
                  (eq_ℤ_iff (pos (length saved)) filesize).0 (ground arith),
                )
          ]

    failed_here :
        (msg : Bytes) (out' : Option (Bytes × Bytes)) (s s' : S) (resp : ClientResponse lib)
        (out : Option (Bytes × Bytes))
        → ◌≡◌ {A = Option (Outcome lib) × S}
            (some (answered (local_failure lib msg) out'), s)
            (some (answered resp out), s')
        → ok lib resp ≡ false
    failed_here msg out' s s' resp out e =
        let this : local_failure lib msg ≡ resp = cc in ap (ok lib) (sym this)

    download_to-Whole :
        (rounds : ℕ) (token : Bytes) (file_id filesize : ℤ) (target : Option Bytes) (s s' : S)
        (resp : ClientResponse lib) (out : Option (Bytes × Bytes))
        → download_to lib send disk rounds token file_id filesize target s
          ≡ (some (answered resp out), s')
        → ok lib resp ≡ true
        → Whole filesize out
    unfolding download_to
    download_to-Whole rounds token file_id filesize none s s' resp out e good =
        absurd (let no = failed_here _ _ s s' resp out e in cc)
    download_to-Whole rounds token file_id filesize (some target) s s' resp out e good =
        elim (Bool-cases (not (disk.can_create target))) [
          | inl closed ↦ absurd (
              let no =
                failed_here _ _ s s' resp out
                  (sym (ap {A = Action S (Outcome lib)} (λ g. g s) (if-true _ closed)) ∙ e) in
              cc)
          | inr opened ↦
              let ((ending, saved), looped, ends) =
                >>=-inv (download_loop lib send rounds token file_id filesize (pos 0) [])
                  (λ r. lift (some (after_download lib disk target filesize r))) s
                  (answered resp out) s'
                  (sym (ap {A = Action S (Outcome lib)} (λ g. g s) (if-false _ opened)) ∙ e) in
              let s₁ = (download_loop lib send rounds token file_id filesize (pos 0) [] s).1 in
              after_download-Whole target filesize ending saved resp out
                (λ r stops.
                  download_loop-stopped rounds token file_id filesize (pos 0) [] s s₁ r saved
                    (ap (λ q. (q, s₁)) (looped ∙ ap (λ (x : Ending lib). some (x, saved)) stops)))
                (let both : ◌≡◌ {A = Option (Outcome lib) × S}
                      (some (after_download lib disk target filesize (ending, saved)), s₁)
                      (some (answered resp out), s') =
                    ends in
                  cc)
                good
        ]

    download_info-Whole :
        (rounds : ℕ) (token : Bytes) (file_id : ℤ) (save_path : Bytes) (info : ClientResponse lib)
        (s s' : S) (resp : ClientResponse lib) (out : Option (Bytes × Bytes))
        → download_info lib send disk rounds token file_id save_path info s
          ≡ (some (answered resp out), s')
        → ok lib resp ≡ true
        → (filesize : ℤ) × (value_int64 lib (utf8 "filesize") (pos 0) info.body ≡ some filesize)
          × (eq_ℤ filesize (pos 0) ≡ false)
          × Whole filesize out
    unfolding download_info download_sized
    download_info-Whole rounds token file_id save_path info s s' resp out e good =
        elim (Bool-cases (not (ok lib info))) [
          | inl refused ↦
              let same : ◌≡◌ {A = Option (Outcome lib) × S} (some (answered info none), s)
                  (some (answered resp out), s') =
                sym (ap {A = Action S (Outcome lib)} (λ g. g s) (if-true _ refused)) ∙ e in
              let this : info ≡ resp = cc in
              absurd (let yes : ok lib info ≡ true = ap (ok lib) this ∙ good in cc)
          | inr accepted ↦
              let (filesize, told, rest) =
                >>=-inv (lift (value_int64 lib (utf8 "filesize") (pos 0) info.body))
                  (download_sized lib send disk rounds token file_id save_path info) s
                  (answered resp out) s'
                  (sym (ap {A = Action S (Outcome lib)} (λ g. g s) (if-false _ accepted)) ∙ e) in
              elim (Bool-cases (eq_ℤ filesize (pos 0))) [
                | inl nothing ↦ absurd (
                    let no = failed_here _ _ s s' resp out (
                      sym (ap {A = Action S (Outcome lib)} (λ g. g s) (if-true _ nothing))
                      ∙ rest) in
                    cc)
                | inr something ↦
                    let (filename, named, last) =
                      >>=-inv (lift (value_text lib (utf8 "filename") [] info.body))
                        (λ filename.
                          download_to lib send disk rounds token file_id filesize
                            (target_of (disk.is_directory save_path) save_path filename))
                        s (answered resp out) s'
                        (sym (ap {A = Action S (Outcome lib)} (λ g. g s) (if-false _ something))
                          ∙ rest) in
                    (
                      filesize,
                      told,
                      something,
                      download_to-Whole rounds token file_id filesize _ s s' resp out last good,
                    )
              ]
        ]

    -- DownloadFile answers with code 0 only if the server told a size that is not 0 before, and the
    -- local file that was written has exactly this size and could be stored.
    pub download_file-Whole :
        (rounds : ℕ) (token : Bytes) (file_id : ℤ) (save_path : Bytes) (s s' : S)
        (resp : ClientResponse lib) (out : Option (Bytes × Bytes))
        → download_file lib send disk rounds token file_id save_path s
          ≡ (some (answered resp out), s')
        → ok lib resp ≡ true
        → (info : ClientResponse lib) × (filesize : ℤ) × ((send_with_file lib send
              (utf8 "download")
              token
              file_id
              s).0
            ≡ some info)
          × (value_int64 lib (utf8 "filesize") (pos 0) info.body ≡ some filesize)
          × (eq_ℤ filesize (pos 0) ≡ false)
          × (target : Bytes) × (file : Bytes) × (out ≡ some (target, file))
          × (disk.can_store target file ≡ true)
          × (pos (length file) ≡ filesize)
    unfolding download_file
    download_file-Whole rounds token file_id save_path s s' resp out e good =
        let (info, sent, rest) =
          >>=-inv (send_with_file lib send (utf8 "download") token file_id)
            (download_info lib send disk rounds token file_id save_path) s (answered resp out) s'
            e in
        let (filesize, told, some_byte, (target, file, is, stored, long)) =
          download_info-Whole rounds token file_id save_path info _ s' resp out rest good in
        (info, filesize, sent, told, some_byte, target, file, is, stored, long)
