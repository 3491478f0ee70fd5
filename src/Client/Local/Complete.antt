-- ===== src/Client/Local/Complete.antt =====
-- client/file_client.cc: whole uploads and downloads with a server that does its part.
use file_server.Prelude.{
  ℕ, suc, ◌≤◌, ◌<◌, ◌≡◌, ap, ◌∙◌, Bool, true, false, not, Option, none, some, [], take, length,
  if-true, if-false, arith,
}
use file_server.Prelude.Int.{ℤ, pos, pos_part, ◌-ℤ◌, eq_ℤ, leb_ℤ}
use file_server.Prelude.Text.{Bytes}
use file_server.Prelude.Action.{Action, lift, >>=-some}
use file_server.Json.{JsonLib, utf8, value_text, value_int64, at_int64}
use file_server.Client.{
  ClientResponse, ok, Sender, Ending, finished, send_with_file, send_upload_start, upload_loop,
  download_loop, upload_from, upload_at, upload_started, upload_file, after_upload, finalized,
}
use file_server.Client.Transfers.{Appends, Serves, upload_loop_lem, download_loop_lem}
use file_server.Client.Local.{
  LocalDisk, target_of, Outcome, answered, success, after_download, download_to, download_sized,
  download_info, download_file,
}

is_ok : (lib : JsonLib) (resp : ClientResponse lib) → resp.code ≡ pos 0 → not (ok lib resp) ≡ false
is_ok lib resp zero_code = ap (λ z. not (eq_ℤ z (pos 0))) zero_code

module _ (lib : JsonLib) {S : Type 0} (send : Sender lib S) (token : Bytes) (file_id : ℤ)
    (file : Bytes) where
  module _ (Good : S → Type 0) (disk : LocalDisk) (save_path filename target : Bytes) where
    not_empty : 0 < length file → eq_ℤ (pos (length file)) (pos 0) ≡ false
    not_empty some_byte = ground arith

    stored_whole :
        disk.can_store target file ≡ true
        → after_download lib disk target (pos (length file)) (finished, file)
          ≡ answered (success lib target (pos (length file))) (some (target, file))
    unfolding after_download
    stored_whole stores = ground arith

    download_to_lem :
        (s : S)
        → Serves lib send token file_id Good file
        → Good s
        → disk.can_create target ≡ true
        → disk.can_store target file ≡ true
        → (s' : S) × (download_to lib send disk
              (suc (length file))
              token
              file_id
              (pos (length file))
              (some target)
              s
            ≡ (some (answered (success lib target (pos (length file))) (some (target, file))), s'))
    unfolding download_to
    download_to_lem s serves good creates stores =
        let (s', loops) =
          download_loop_lem lib send token file_id Good file (suc (length file)) 0 s serves good
            (omega arith) (omega arith) in
        (
          s',
          ap {A = Action S (Outcome lib)} (λ g. g s) (if-false _ (ap not creates))
              ∙ >>=-some
                  (download_loop lib send (suc (length file)) token file_id (pos (length file))
                    (pos 0) [])
                  (λ r. lift (some (after_download lib disk target (pos (length file)) r))) s
                  (finished, file) (ap (λ r. r.0) loops)
              ∙ ap
                  (λ (r : Option (Ending lib × Bytes) × S). (
                    some (after_download lib disk target (pos (length file)) (finished, file)),
                    r.1,
                  ))
                  loops
              ∙ ap (λ a. (some a, s')) (stored_whole stores),
        )

    -- A download of a file that is not empty ends within as many rounds as the file has bytes, and one
    -- more, with code 0 and the whole file at its target: the server tells the size and a name, is then
    -- in a good state, in which it serves each piece of the file that is not empty, and the target can be
    -- found, created and stored.
    pub download_file_lem :
        (info : ClientResponse lib) (s s₁ : S)
        → send_with_file lib send (utf8 "download") token file_id s ≡ (some info, s₁)
        → info.code ≡ pos 0
        → value_int64 lib (utf8 "filesize") (pos 0) info.body ≡ some (pos (length file))
        → 0 < length file
        → value_text lib (utf8 "filename") [] info.body ≡ some filename
        → target_of (disk.is_directory save_path) save_path filename ≡ some target
        → disk.can_create target ≡ true
        → disk.can_store target file ≡ true
        → Serves lib send token file_id Good file
        → Good s₁
        → (s' : S) × (download_file lib send disk (suc (length file)) token file_id save_path s
            ≡ (some (answered (success lib target (pos (length file))) (some (target, file))), s'))
    unfolding download_file download_info download_sized
    download_file_lem info s s₁ sent zero_code told some_byte named found creates stores serves
          good =
        let (s', loads) = download_to_lem s₁ serves good creates stores in
        (
          s',
          >>=-some (send_with_file lib send (utf8 "download") token file_id)
                (download_info lib send disk (suc (length file)) token file_id save_path) s info
                (ap (λ r. r.0) sent)
              ∙ ap
                  (λ (r : Option (ClientResponse lib) × S).
                    download_info lib send disk (suc (length file)) token file_id save_path info
                      r.1)
                  sent
              ∙ ap {A = Action S (Outcome lib)} (λ g. g s₁) (if-false _ (is_ok lib info zero_code))
              ∙ >>=-some (lift (value_int64 lib (utf8 "filesize") (pos 0) info.body))
                  (download_sized lib send disk (suc (length file)) token file_id save_path info) s₁
                  (pos (length file)) told
              ∙ ap {A = Action S (Outcome lib)} (λ g. g s₁) (if-false _ (not_empty some_byte))
              ∙ >>=-some (lift (value_text lib (utf8 "filename") [] info.body))
                  (λ n.
                    download_to lib send disk (suc (length file)) token file_id (pos (length file))
                      (target_of (disk.is_directory save_path) save_path n))
                  s₁ filename named
              ∙ ap
                  (λ t.
                    download_to lib send disk (suc (length file)) token file_id (pos (length file))
                      t s₁)
                  found
              ∙ loads,
        )

  module _ (Uploading Kept : Bytes → S → Type 0) where
    -- In a state in which the whole file has come the server finalises it with code 0, and keeps it.
    abbrev pub Finishes : Type 0
    Finishes =
        (t : S)
        → Uploading file t
        → (final : ClientResponse lib) × (t' : S) × (answer : lib.Json) × (send_with_file lib send
              (utf8 "upload_finalize") token file_id t
            ≡ (some final, t'))
          × (final.code ≡ pos 0)
          × (lib.assign (utf8 "file_id") (lib.number file_id) final.body ≡ some answer)
          × Kept file t'

    -- A response of code 0, and the whole file is kept.
    abbrev Uploaded : Option (ClientResponse lib) × S → Type 0
    Uploaded r =
        (resp : ClientResponse lib) × (s' : S) × (r ≡ (some resp, s'))
        × (ok lib resp ≡ true)
        × Kept file s'

    after_upload-Uploaded :
        (t : S)
        → Uploading file t
        → Finishes
        → Uploaded (after_upload lib send token file_id finished t)
    unfolding after_upload finalized
    after_upload-Uploaded t has finishes =
        let (final, t', answer, sent, zero_code, assigned, kept) = finishes t has in
        let finals = finalized lib send file_id in
        let good : ok lib final ≡ true = ap (λ z. eq_ℤ z (pos 0)) zero_code in
        (
          record final { body = answer },
          t',
          >>=-some (send_with_file lib send (utf8 "upload_finalize") token file_id)
                (λ resp. lift (finals resp)) t final (ap (λ r. r.0) sent)
              ∙ ap (λ (r : Option (ClientResponse lib) × S). lift (finals final) r.1) sent
              ∙ ap (λ o. (o, t'))
                  (if-true (some final) good
                    ∙ ap
                        (λ (o : Option lib.Json). elim o as (λ _. Option (ClientResponse lib)) [
                          | none ↦ none
                          | some body ↦ some (record final { body = body })
                        ])
                        assigned),
          good,
          kept,
        )

    upload_from-Uploaded :
        (k : ℕ) (s : S)
        → k ≤ length file
        → Uploading (take k file) s
        → Appends lib send Uploading token file_id file
        → Finishes
        → Uploaded (upload_from lib send token file file_id (pos k) s)
    unfolding upload_from ◌-ℤ◌
    upload_from-Uploaded k s inside has appends finishes =
        let rounds = suc (pos_part (pos (length file) -ℤ pos k)) in
        let (s₂, loops, whole) =
          upload_loop_lem lib send Uploading token file_id file appends rounds k s inside
            (ground arith) has in
        let (resp, s', e, good, kept) = after_upload-Uploaded s₂ whole finishes in
        (
          resp,
          s',
          >>=-some (upload_loop lib send rounds token file_id (leb_ℤ (pos 0) (pos k)) file (pos k))
                (after_upload lib send token file_id) s finished
                (ap (λ b. (upload_loop lib send rounds token file_id b file (pos k) s).0) readable
                  ∙ ap (λ r. r.0) loops)
              ∙ ap
                  (λ (b : Bool).
                    after_upload lib send token file_id finished
                      (upload_loop lib send rounds token file_id b file (pos k) s).1)
                  readable
              ∙ ap
                  (λ (r : Option (Ending lib) × S).
                    after_upload lib send token file_id finished r.1)
                  loops
              ∙ e,
          good,
          kept,
        )
      where
        readable : leb_ℤ (pos 0) (pos k) ≡ true
        readable = ground arith

    -- An upload ends with code 0, and the server keeps the whole file then: it accepts the start and tells
    -- the file's id and an offset inside the file, is in a state in which the bytes before the offset have
    -- come, appends each next piece of the file that is not empty, and finalises the file when it has
    -- come in whole.
    pub upload_file_lem :
        (filename md5 : Bytes) (k : ℕ) (start : ClientResponse lib) (s s₁ : S)
        → send_upload_start lib send token filename (pos (length file)) md5 s ≡ (some start, s₁)
        → start.code ≡ pos 0
        → at_int64 lib (utf8 "file_id") start.body ≡ some file_id
        → value_int64 lib (utf8 "offset") (pos 0) start.body ≡ some (pos k)
        → k ≤ length file
        → Uploading (take k file) s₁
        → Appends lib send Uploading token file_id file
        → Finishes
        → (resp : ClientResponse lib) × (s' : S) × (upload_file lib send token filename md5 file s
            ≡ (some resp, s'))
          × (ok lib resp ≡ true)
          × Kept file s'
    unfolding upload_file upload_started upload_at
    upload_file_lem filename md5 k start s s₁ sent zero_code named offset inside has appends
          finishes =
        let (resp, s', e, good, whole) = upload_from-Uploaded k s₁ inside has appends finishes in
        (
          resp,
          s',
          >>=-some (send_upload_start lib send token filename (pos (length file)) md5)
                (upload_started lib send token file) s start (ap (λ r. r.0) sent)
              ∙ ap
                  (λ (r : Option (ClientResponse lib) × S).
                    upload_started lib send token file start r.1)
                  sent
              ∙ ap {A = Action S (ClientResponse lib)} (λ g. g s₁)
                  (if-false _ (is_ok lib start zero_code))
              ∙ >>=-some (lift (at_int64 lib (utf8 "file_id") start.body))
                  (upload_at lib send token file start) s₁ file_id named
              ∙ >>=-some (lift (value_int64 lib (utf8 "offset") (pos 0) start.body))
                  (upload_from lib send token file file_id) s₁ (pos k) offset
              ∙ e,
          good,
          whole,
        )
