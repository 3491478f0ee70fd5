-- ===== src/Client/Local.antt =====
-- client/file_client.cc: UploadFile and DownloadFile, with the local files. The local disk and the
-- checksum are an interface.
pub mod Saved
pub mod Complete
use file_server.Prelude.{
  ℕ, suc, ◌==◌, Bool, true, false, not, ◌&&◌, ◌||◌, Option, none, some, List, [], ◌∷◌, ◌++◌, length,
  if◌then◌else◌,
}
use file_server.Prelude.Int.{ℤ, pos, negsuc, eq_ℤ}
use file_server.Prelude.Text.{Bytes}
use file_server.Prelude.Action.{Action, lift, ◌>>=◌}
use file_server.Json.{JsonLib, utf8, value_text, value_int64}
use file_server.Services.Filename.{base_name}
use file_server.Client.{
  ClientResponse, ok, Sender, Ending, unfinished, finished, stopped, send_with_file, upload_file,
  download_loop,
}

pub record LocalDisk : Type 0 where
  -- The bytes of a file that can be opened, and its checksum in hexadecimal digits.
  pub read : Bytes → Option Bytes
  pub md5 : Bytes → Bytes
  -- Whether a path is a directory, whether a file can be created, and whether writing bytes to it and
  -- closing it does not fail.
  pub is_directory : Bytes → Bool
  pub can_create : Bytes → Bool
  pub can_store : Bytes → Bytes → Bool

-- `target.back() != '/'`, for a target that is not empty.
unfoldable pub wants_slash : Bytes → Bool
wants_slash [] = false
wants_slash (c ∷ []) = not (c == b'/')
wants_slash (c ∷ d ∷ ds) = wants_slash (d ∷ ds)

unfoldable pub in_directory : Bytes → Bytes → Bytes
unfolding wants_slash
in_directory path filename = (if wants_slash path then path ++ b'/' ∷ [] else path) ++ filename

-- Where a download is saved; `none` for a directory and a file without a name.
unfoldable pub target_of : Bool → Bytes → Bytes → Option Bytes
unfolding in_directory
target_of false path filename = some path
target_of true path [] = none
target_of true path (c ∷ cs) = some (in_directory path (c ∷ cs))

module _ (lib : JsonLib) where
  open lib use {Json, object, text, number}

  -- `{-1, msg, {}, {}}`
  abbrev pub local_failure : Bytes → ClientResponse lib
  local_failure msg = record { code = negsuc 0; msg = msg; body = lib.null; binary_data = [] }

  -- The last answer of `DownloadFile`.
  abbrev pub success : Bytes → ℤ → ClientResponse lib
  success target filesize = record {
    code = pos 0;
    msg = utf8 "ok";
    body = object ((utf8 "filesize", number filesize) ∷ (utf8 "path", text target) ∷ []);
    binary_data = [];
  }

  -- How a download ends: not within the rounds, or with a response, and what was written to which file.
  pub data Outcome : Type 0 where
    still_loading : Outcome
    answered : ClientResponse lib → Option (Bytes × Bytes) → Outcome

  -- The end of `DownloadFile`.
  unfoldable pub after_download : LocalDisk → Bytes → ℤ → Ending lib × Bytes → Outcome
  after_download disk target filesize (unfinished, saved) = still_loading
  after_download disk target filesize (stopped resp, saved) = answered resp (some (target, saved))
  after_download disk target filesize (finished, saved) =
      if not (disk.can_store target saved) || not (eq_ℤ (pos (length saved)) filesize)
      then answered (local_failure (utf8 "写入文件失败: " ++ target)) (some (target, saved))
      else answered (success target filesize) (some (target, saved))

  module _ {S : Type 0} (send : Sender lib S) (disk : LocalDisk) where
    -- `UploadFile`
    unfoldable pub upload_path : Bytes → Bytes → Action S (ClientResponse lib)
    upload_path token path = elim (disk.read path) [
      | none ↦ lift (some (local_failure (utf8 "无法打开文件: " ++ path)))
      | some file ↦ upload_file lib send token (base_name path path) (disk.md5 file) file
    ]

    -- The part of `DownloadFile` behind the choice of the target, on a number of rounds. `offset` is
    -- the number of bytes that were received.
    unfoldable pub download_to : ℕ → Bytes → ℤ → ℤ → Option Bytes → Action S Outcome
    unfolding after_download
    download_to rounds token file_id filesize none =
        lift (some (answered (local_failure (utf8 "保存路径是目录，无法确定文件名")) none))
    download_to rounds token file_id filesize (some target) =
        if not (disk.can_create target)
        then lift (some (answered (local_failure (utf8 "无法创建文件: " ++ target)) none))
        else (do
          ending ← download_loop lib send rounds token file_id filesize (pos 0) []
          lift (some (after_download disk target filesize ending)))

    -- The part behind the test of the size.
    unfoldable pub download_sized :
        ℕ → Bytes → ℤ → Bytes → ClientResponse lib → ℤ → Action S Outcome
    unfolding download_to target_of
    download_sized rounds token file_id save_path info filesize =
        if eq_ℤ filesize (pos 0)
        then lift (some (answered (local_failure (utf8 "文件不存在")) none))
        else (do
          filename ← lift (value_text lib (utf8 "filename") [] info.body)
          download_to rounds token file_id filesize
              (target_of (disk.is_directory save_path) save_path filename))

    unfoldable pub download_info : ℕ → Bytes → ℤ → Bytes → ClientResponse lib → Action S Outcome
    unfolding download_sized
    download_info rounds token file_id save_path info =
        if not (ok lib info) then lift (some (answered info none)) else (do
          filesize ← lift (value_int64 lib (utf8 "filesize") (pos 0) info.body)
          download_sized rounds token file_id save_path info filesize)

    -- `DownloadFile`
    unfoldable pub download_file : ℕ → Bytes → ℤ → Bytes → Action S Outcome
    unfolding download_info
    download_file rounds token file_id save_path = do
      info ← send_with_file lib send (utf8 "download") token file_id
      download_info rounds token file_id save_path info
