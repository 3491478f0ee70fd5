-- ===== src/Console/Resume.antt =====
-- client/console_ui.cc: DoResumeUpload, which has an upload loop of its own.
pub mod Same
use file_server.Prelude.{
  ℕ, zero, suc, ◌≡◌, refl, sym, ap, ◌∙◌, inl, inr, Bool-cases, Bool, true, false, not, Option, none,
  some, [], ◌++◌, length, if◌then◌else◌, if-true, if-false,
}
use file_server.Prelude.Int.{ℤ, pos, pos_part, ◌+ℤ◌, ◌-ℤ◌, ltb_ℤ, leb_ℤ}
use file_server.Prelude.Text.{Bytes}
use file_server.Prelude.Action.{Action, lift, call, ◌>>=◌}
use file_server.Json.{JsonLib, utf8, value_int64, at_int64}
use file_server.Services.UserService.{is_empty}
use file_server.Services.Filename.{base_name}
use file_server.Client.{
  ClientResponse, ok, Sender, Ending, unfinished, finished, stopped, send_upload_start,
  send_upload_data, send_with_file, piece, piece_size, after_piece, upload_round, upload_loop,
  finalized, after_upload, upload_from, upload_at, upload_started, upload_file,
}
use file_server.Client.Local.{LocalDisk, upload_path}
use file_server.Console.{
  Console, read_line, say, Ui, on_world, print_data, print_response, when_logged_in, do_upload,
}

module _ (lib : JsonLib) {S : Type 0} (send : Sender lib S) (disk : LocalDisk) where
  -- A round's answer.
  unfoldable pub resume_next :
      (ℤ → Action S (Ending lib)) → ℤ → ℕ → Option (ClientResponse lib) → Action S (Ending lib)
  resume_next go offset size none s = (none, s)
  resume_next go offset size (some resp) s =
      if not (ok lib resp) then (some (stopped resp), s) else go (offset +ℤ pos size) s

  -- The loop of `DoResumeUpload`, on a number of rounds.
  unfoldable pub resume_loop : ℕ → Bytes → ℤ → Bool → Bytes → ℤ → Action S (Ending lib)
  unfolding resume_next
  resume_loop zero token file_id readable file offset s = (some unfinished, s)
  resume_loop (suc rounds) token file_id readable file offset s =
      if ltb_ℤ offset (pos (length file))
      then (let size = piece_size (pos (length file)) offset in
          let (resp, s') =
            send_upload_data lib send token file_id offset
              (piece lib send readable file offset size) s in
          resume_next (resume_loop rounds token file_id readable file) offset size resp s')
      else (some finished, s)

  -- Behind the loop; it is `unfinished` for no number of rounds that `resume_from` gives.
  unfoldable pub after_resume : Bytes → ℤ → Ending lib → Ui lib send disk Bool
  unfolding print_response
  after_resume token file_id (stopped resp) c = print_response lib send disk none resp c
  after_resume token file_id unfinished c = (none, c)
  after_resume token file_id finished c =
      (on_world lib send disk (send_with_file lib send (utf8 "upload_finalize") token file_id)
          >>= print_response lib send disk (some (utf8 "续传完成")))
        c

  -- The parts of `DoResumeUpload` from the loop, from the reading of the answer to the start, and from
  -- the start.
  unfoldable pub resume_from : Bytes → Bytes → ℤ → ℤ → Ui lib send disk Bool
  unfolding resume_loop after_resume
  resume_from token file file_id offset = do
    ending ← on_world lib send disk (
        resume_loop (suc (pos_part (pos (length file) -ℤ offset))) token file_id
          (leb_ℤ (pos 0) offset) file offset)
    after_resume token file_id ending

  unfoldable pub resume_at : Bytes → Bytes → ClientResponse lib → ℤ → Ui lib send disk Bool
  unfolding resume_from
  resume_at token file start file_id = do
    offset ← lift (value_int64 lib (utf8 "offset") (pos 0) start.body)
    resume_from token file file_id offset

  unfoldable pub resume_started : Bytes → Bytes → ClientResponse lib → Ui lib send disk Bool
  unfolding resume_at print_response
  resume_started token file start =
      if not (ok lib start) then print_response lib send disk none start else (do
        file_id ← lift (at_int64 lib (utf8 "file_id") start.body)
        resume_at token file start file_id)

  unfoldable pub resume_path : Bytes → Bytes → Option Bytes → Ui lib send disk Bool
  unfolding resume_started
  resume_path token path none c = (some true, say (utf8 "文件不存在: " ++ (path ++ utf8 "\n")) c)
  resume_path token path (some file) c =
      (on_world lib send disk (
            send_upload_start lib send token (base_name path path) (pos (length file))
              (disk.md5 file))
          >>= resume_started token file)
        c

  -- `DoResumeUpload`
  unfoldable pub do_resume_upload : Ui lib send disk Bool
  unfolding read_line when_logged_in resume_path
  do_resume_upload =
      when_logged_in lib send disk
        (do path ← call read_line; (λ c. resume_path c.token path (disk.read path) c))
