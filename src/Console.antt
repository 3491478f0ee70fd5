-- ===== src/Console.antt =====
-- client/console_ui.cc: the menu of the console, over the client, the local disk and the lines that are
-- typed. Of what is printed, `shown` has the results and the complaints, not the menu, the prompts and
-- the progress.
pub mod Display
pub mod Menu
pub mod Resume
use file_server.Prelude.{
  ℕ, zero, suc, ◌==◌, Bool, true, false, not, Option, none, some, List, [], ◌∷◌, ◌++◌, length, take,
  drop, if◌then◌else◌,
}
use file_server.Prelude.Int.{ℤ, pos, pos_part, ◌+ℤ◌, ◌-ℤ◌, eq_ℤ, ltb_ℤ, leb_ℤ}
use file_server.Prelude.Text.{Bytes, same_text}
use file_server.Prelude.Decimal.{to_string, stoll}
use file_server.Prelude.Action.{Action, lift, call, ◌>>=◌}
use file_server.Json.{JsonLib, utf8, value_int64, at_int64, at_text, at, index}
use file_server.Services.UserService.{is_empty}
use file_server.Services.Filename.{base_name}
use file_server.Client.{
  ClientResponse, ok, Sender, send_register, send_login, send_upload_start, send_upload_data,
  send_with_file, send_list, piece, piece_size,
}
use file_server.Client.Local.{
  LocalDisk, Outcome, still_loading, answered, upload_path, download_file,
}
use file_server.Console.Display.{format_size, right_aligned}

-- What the console holds besides the client's connection, whose state is `world`.
pub record Console (S : Type 0) : Type 0 where
  pub world : S
  pub token : Bytes
  pub input : List Bytes
  pub shown : Bytes

-- `ReadLine`: at the end of the input the line stays empty.
unfoldable pub read_line : {S : Type 0} → Console S → Bytes × Console S
read_line c = elim c.input [ [] ↦ ([], c) | line ∷ rest ↦ (line, record c { input = rest }) ]

unfoldable pub or_zero : Option ℤ → ℤ
or_zero none = pos 0
or_zero (some n) = n

-- `ReadFileId`
unfoldable pub read_file_id : {S : Type 0} → Console S → ℤ × Console S
unfolding read_line or_zero
read_file_id c = let (line, c') = read_line c in (or_zero (stoll line), c')

abbrev pub say : {S : Type 0} → Bytes → Console S → Console S
say t c = record c { shown = c.shown ++ t }

module _ (lib : JsonLib) {S : Type 0} (send : Sender lib S) (disk : LocalDisk) where
  open lib use {Json}

  abbrev pub Ui : Type 0 → Type 0
  Ui A = Action (Console S) A

  -- A call of the client.
  abbrev pub on_world : {A : Type 0} → Action S A → Ui A
  on_world m c = let (r, s') = m c.world in (r, record c { world = s' })

  abbrev first_line : Option Bytes → ClientResponse lib → Bytes
  first_line (some ok_msg) resp = utf8 "  [OK] " ++ (ok_msg ++ utf8 "\n")
  first_line none resp = utf8 "  [OK] " ++ (resp.msg ++ utf8 "\n")

  unfoldable pub print_data : Option Bytes → Ui Bool
  print_data none c = (none, c)
  print_data (some t) c = (some true, say (utf8 "  " ++ (t ++ utf8 "\n")) c)

  -- `PrintResponse`; the menu goes on behind it, but for the exception of `dump`.
  unfoldable pub print_response : Option Bytes → ClientResponse lib → Ui Bool
  unfolding print_data
  print_response ok_msg resp c =
      if ok lib resp
      then (if lib.is_empty resp.body
          then (some true, say (first_line ok_msg resp) c)
          else print_data (lib.dump resp.body) (say (first_line ok_msg resp) c))
      else (
        some true,
        say (utf8 "  [失败] code=" ++ (to_string resp.code ++ (utf8 " " ++ (resp.msg ++ utf8 "\n"))))
            c,
      )

  -- `DoRegister`; ReadPassword reads as ReadLine does, without the echo.
  unfoldable pub do_register : Ui Bool
  unfolding read_line print_response
  do_register = do
    user ← call read_line
    pass ← call read_line
    resp ← on_world (send_register lib send user pass)
    print_response (some (utf8 "注册成功")) resp

  unfoldable pub keep_token :
      ClientResponse lib × Bytes → Console S → ClientResponse lib × Console S
  keep_token (resp, token) c = (resp, record c { token = token })

  -- `DoLogin`: the client keeps the token.
  unfoldable pub do_login : Ui Bool
  unfolding read_line keep_token print_response
  do_login = do
    user ← call read_line
    pass ← call read_line
    r ← (λ c. on_world (send_login lib send user pass c.token) c)
    resp ← call (keep_token r)
    print_response (some (utf8 "登录成功")) resp

  -- `IsLoggedIn` in front of the rest.
  unfoldable pub when_logged_in : Ui Bool → Ui Bool
  when_logged_in rest c = if is_empty c.token then (some true, say (utf8 "请先登录!\n") c) else rest c

  -- `DoUpload`
  unfoldable pub do_upload : Ui Bool
  unfolding read_line print_response when_logged_in
  do_upload = when_logged_in (do
    path ← call read_line
    resp ← (λ c. on_world (upload_path lib send disk c.token path) c)
    print_response (some (utf8 "上传完成")) resp)

  -- A download that is not over within the rounds is taken for an exception.
  unfoldable pub print_outcome : Outcome lib → Ui Bool
  unfolding print_response
  print_outcome still_loading c = (none, c)
  print_outcome (answered resp saved) c = print_response (some (utf8 "下载完成")) resp c

  -- `DoDownload`
  unfoldable pub do_download : ℕ → Ui Bool
  unfolding read_line read_file_id print_outcome when_logged_in
  do_download rounds = when_logged_in (do
    file_id ← call read_file_id
    save_path ← call read_line
    outcome ← (λ c. on_world (download_file lib send disk rounds c.token file_id save_path) c)
    print_outcome outcome)

  -- `DoDeleteFile`
  unfoldable pub do_delete_file : Ui Bool
  unfolding read_file_id print_response when_logged_in
  do_delete_file = when_logged_in (do
    file_id ← call read_file_id
    resp ← (λ c. on_world (send_with_file lib send (utf8 "delete") c.token file_id) c)
    print_response (some (utf8 "删除成功")) resp)

  -- A row of the table of files. `setw` before a JSON value sets the indentation of its text, which a
  -- number has not.
  unfoldable pub file_row : Json → Option Bytes
  unfolding right_aligned format_size
  file_row f = elim (lib.dump (index lib (utf8 "id") f)) [
    | none ↦ none
    | some id ↦ elim (at_text lib (utf8 "filename") f) [
      | none ↦ none
      | some name ↦ elim (at_int64 lib (utf8 "filesize") f) [
        | none ↦ none
        | some size ↦ elim (at lib lib.get_int (utf8 "status") f) [
          | none ↦ none
          | some status ↦ some (
              utf8 "  "
              ++ (id
                  ++ (utf8 "  "
                      ++ (right_aligned 20 (take 20 name)
                          ++ (utf8 "  "
                              ++ (right_aligned 10 (format_size size)
                                  ++ (utf8 "  "
                                      ++ ((if eq_ℤ status (pos 1) then utf8 "完成" else utf8 "上传中")
                                          ++ utf8 "\n"))))))))
        ]
      ]
    ]
  ]

  unfoldable pub print_rows : List Json → Ui Bool
  unfolding file_row
  print_rows [] c = (some true, c)
  print_rows (f ∷ fs) c = elim (file_row f) [
    | none ↦ (none, c)
    | some row ↦ print_rows fs (say row c)
  ]

  abbrev table_head : Bytes
  table_head =
      utf8 "\n  ID  文件名                  大小       状态\n"
      ++ utf8 "  -------------------------------------------------\n"

  -- What `for (auto& f : files)` visits is a parameter.
  unfoldable pub print_files : (Json → List Json) → ClientResponse lib → Ui Bool
  unfolding print_rows
  print_files items resp =
      if ok lib resp
      then (elim (lib.member (utf8 "files") resp.body) [
        | none ↦ lift (some true)
        | some files ↦ λ c. print_rows (items files) (say table_head c)
      ])
      else lift (some true)

  -- `DoListFiles`
  unfoldable pub do_list_files : (Json → List Json) → Ui Bool
  unfolding print_files print_response when_logged_in
  do_list_files items = when_logged_in (do
    resp ← (λ c. on_world (send_list lib send c.token) c)
    go_on ← print_files items resp
    print_response none resp)
