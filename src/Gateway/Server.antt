-- ===== src/Gateway/Server.antt =====
-- gateway/bin/server_main.cc: the handlers of the server that runs all services in one process. Their
-- state is the database and the disk; `none` is an exception, after which nothing is sent.
pub mod Refusal
use mathlib.Core.Option
use file_server.Prelude.{
  Bool, true, false, not, ◌||◌, Option, none, some, List, [], ◌∷◌, ◌++◌, length, map, if◌then◌else◌,
}
use file_server.Prelude.Int.{ℤ, pos, negsuc, eq_ℤ, leb_ℤ, ltb_ℤ}
use file_server.Prelude.Text.{Bytes}
use file_server.Prelude.Action.{Action, lift, call, ◌>>=◌}
use file_server.Json.{JsonLib, utf8, value, value_text, value_int64, at_int64}
use file_server.Protocol.Message.{Message, empty_message, size32, encode}
use file_server.Protocol.Body.{get_json, set_json}
use file_server.Database.{Mysql}
use file_server.Database.Tables.{FileInfo}
use file_server.Storage.{Os}
use file_server.Services.Filename.{Tm}
use file_server.Services.UserService
use file_server.Services.FileService
use file_server.Services.FileService.{Server, UploadStartResult}
use file_server.Gateway.Processor.{NetworkTask}
use file_server.Gateway.Router.{Handler, Router, reply_header, register, route}

module _ (lib : JsonLib) where
  open lib use {Json, object, text, number}

  abbrev pub data_entry : Json → List (Bytes × Json)
  data_entry data' = if lib.is_empty data' then [] else (utf8 "data", data') ∷ []

  abbrev pub with_binary : Bytes → Message → Message
  with_binary binary msg = record msg {
    binary_data = binary;
    header = record msg.header { data_length = size32 binary };
  }

  -- `MakeResponse`; `none` is the exception of `dump`.
  unfoldable pub make_response : Message → ℤ → Bytes → Json → Bytes → Option Message
  make_response req code msg data' binary = Option.map (with_binary binary) (
      set_json lib (object ((utf8 "code", number code) ∷ (utf8 "msg", text msg) ∷ data_entry data'))
        (record empty_message { header = reply_header req }))

  abbrev no_data : Json
  no_data = object []

  -- `MakeResponse` with its default arguments.
  abbrev pub respond : Message → ℤ → Bytes → Option Message
  respond req code msg = make_response req code msg no_data []

  abbrev pub answer : Message → Json → Option Message
  answer req data' = make_response req (pos 0) (utf8 "ok") data' []

  -- `GetToken`
  unfoldable pub get_token : Message → Option Bytes
  get_token req = value_text lib (utf8 "token") [] (get_json lib req)

  abbrev file_id_of : Message → Option ℤ
  file_id_of req = at_int64 lib (utf8 "file_id") (get_json lib req)

  unfoldable pub listed_file : FileInfo → Json
  listed_file f = object (
      (utf8 "id", number f.id)
      ∷ (utf8 "filename", text f.filename)
      ∷ (utf8 "filesize", number f.filesize)
      ∷ (utf8 "status", number f.status)
      ∷ (utf8 "upload_size", number f.upload_size)
      ∷ [])

  unfoldable pub file_details : FileInfo → Json
  file_details f = object (
      (utf8 "filesize", number f.filesize)
      ∷ (utf8 "filename", text f.filename)
      ∷ (utf8 "md5", text f.md5)
      ∷ (utf8 "status", number f.status)
      ∷ [])

  module _ (mysql : Mysql) (os : Os) (base : Bytes) where
    open mysql use {Db}

    abbrev pub World : Type 0
    World = Server Db

    abbrev on_db : {A : Type 0} → (Db → A × Db) → Action World A
    on_db f = call (λ s. let (a, db') = f s.db in (a, record s { db = db' }))

    -- `register` and `login`, with the token that `GenerateToken` makes.
    unfoldable pub token_answer : Message → Bytes → Bytes → Option Message
    token_answer req complaint token =
        if UserService.is_empty token
        then respond req (negsuc 0) complaint
        else answer req (object ((utf8 "token", text token) ∷ []))

    unfoldable pub register_handler : Bytes → Handler World
    unfolding token_answer
    register_handler new_token req = do
      username ← lift (value_text lib (utf8 "username") [] (get_json lib req))
      password ← lift (value_text lib (utf8 "password") [] (get_json lib req))
      token ← on_db (UserService.register mysql new_token username password)
      lift (token_answer req (utf8 "注册失败: 用户名已存在或参数错误") token)

    unfoldable pub login_handler : Bytes → Handler World
    unfolding token_answer
    login_handler new_token req = do
      username ← lift (value_text lib (utf8 "username") [] (get_json lib req))
      password ← lift (value_text lib (utf8 "password") [] (get_json lib req))
      token ← on_db (UserService.login mysql new_token username password)
      lift (token_answer req (utf8 "登录失败: 用户名或密码错误") token)

    -- The first two lines of the other handlers, and the rest for a user.
    unfoldable pub with_user : (ℤ → Action World Message) → Handler World
    with_user rest req = do
      token ← lift (get_token req)
      uid ← on_db (UserService.verify_token mysql token)
      (if leb_ℤ uid (pos 0) then lift (respond req (negsuc 0) (utf8 "认证失败")) else rest uid)

    unfoldable pub start_answer : Message → UploadStartResult → Option Message
    start_answer req result =
        if leb_ℤ result.file_id (pos 0)
        then respond req (negsuc 0) (utf8 "上传初始化失败")
        else answer req (
            object (
              (utf8 "file_id", number result.file_id)
              ∷ (utf8 "offset", number result.offset)
              ∷ (utf8 "is_resume", lib.boolean result.is_resume)
              ∷ []))

    unfoldable pub upload_start_handler : Tm → Handler World
    unfolding start_answer
    upload_start_handler now req =
        with_user
          (λ uid. do
            filename ← lift (value_text lib (utf8 "filename") [] (get_json lib req))
            filesize ← lift (value_int64 lib (utf8 "filesize") (pos 0) (get_json lib req))
            md5 ← lift (value_text lib (utf8 "md5") [] (get_json lib req))
            result ← call (FileService.upload_start mysql os base now uid filename filesize md5)
            lift (start_answer req result))
          req

    unfoldable pub upload_data_handler : Handler World
    upload_data_handler req =
        with_user
          (λ uid. do
            file_id ← lift (file_id_of req)
            offset ← lift (value_int64 lib (utf8 "offset") (pos 0) (get_json lib req))
            written ←
                call (FileService.upload_data mysql os base file_id uid req.binary_data offset)
            lift (
                if ltb_ℤ written (pos 0)
                then respond req (negsuc 0) (utf8 "数据写入失败")
                else answer req (object ((utf8 "written", number written) ∷ []))))
          req

    unfoldable pub upload_finalize_handler : Handler World
    upload_finalize_handler req =
        with_user
          (λ uid. do
            file_id ← lift (file_id_of req)
            ok ← call (FileService.upload_finalize mysql os base file_id uid)
            lift (
                if ok
                then respond req (pos 0) (utf8 "上传完成")
                else respond req (negsuc 0) (utf8 "上传完成失败")))
          req

    unfoldable pub download_answer : Message → ℤ → Option FileInfo → Option Message
    download_answer req uid none = respond req (negsuc 0) (utf8 "文件不存在")
    download_answer req uid (some info) =
        if not (eq_ℤ info.user_id uid)
        then respond req (negsuc 0) (utf8 "文件不存在")
        else answer req (file_details info)

    unfoldable pub download_handler : Handler World
    unfolding download_answer
    download_handler req =
        with_user
          (λ uid. do
            file_id ← lift (file_id_of req)
            info ← call (FileService.get_file_info mysql os base file_id)
            lift (download_answer req uid info))
          req

    unfoldable pub chunk_answer : Message → Bytes → Option Message
    chunk_answer req [] = respond req (negsuc 0) (utf8 "读取失败或文件末尾")
    chunk_answer req (b ∷ bs) =
        make_response req (pos 0) (utf8 "ok")
          (object ((utf8 "size", number (pos (length (b ∷ bs)))) ∷ [])) (b ∷ bs)

    unfoldable pub download_chunk_handler : Handler World
    unfolding chunk_answer
    download_chunk_handler req =
        with_user
          (λ uid. do
            file_id ← lift (file_id_of req)
            offset ← lift (value_int64 lib (utf8 "offset") (pos 0) (get_json lib req))
            size ← lift (value lib lib.get_size (utf8 "size") 0 (get_json lib req))
            chunk ← FileService.download_chunk mysql os base file_id uid offset size
            lift (chunk_answer req chunk))
          req

    unfoldable pub list_handler : Handler World
    list_handler req =
        with_user
          (λ uid. do
            files ← call (FileService.query_files mysql os base uid)
            lift (answer req (object ((utf8 "files", lib.array (map listed_file files)) ∷ []))))
          req

    unfoldable pub delete_handler : Handler World
    delete_handler req =
        with_user
          (λ uid. do
            file_id ← lift (file_id_of req)
            ok ← call (FileService.delete mysql os base file_id uid)
            lift (
                if ok
                then respond req (pos 0) (utf8 "删除成功")
                else respond req (negsuc 0) (utf8 "删除失败")))
          req

    -- The registrations of `main`, the last one outermost. `GenerateToken` and the clock answer the
    -- request with `new_token` and `now`.
    unfoldable pub server_router : Bytes → Tm → Router World
    server_router new_token now = register (utf8 "delete") delete_handler (
        register (utf8 "list") list_handler (
          register (utf8 "download_chunk") download_chunk_handler (
            register (utf8 "download") download_handler (
              register (utf8 "upload_finalize") upload_finalize_handler (
                register (utf8 "upload_data") upload_data_handler (
                  register (utf8 "upload_start") (upload_start_handler now) (
                    register (utf8 "login") (login_handler new_token)
                      (register (utf8 "register") (register_handler new_token) []))))))))

    -- The task handler of `main`: the bytes for the connection, which are sent if it is still open.
    unfoldable pub handle_task : Router World → NetworkTask → Action World Bytes
    handle_task router task = do
      response ← route lib router task.request
      lift (some (encode response))
