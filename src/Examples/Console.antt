-- ===== src/Examples/Console.antt =====
-- Runs of client/file_client.cc and client/console_ui.cc with a local disk.
use file_server.Prelude.{
  ℕ, Bool, ◌&&◌, ◌||◌, ◌==◌, ltb, ap, if◌then◌else◌, ◌≤◌, ◌<◌, ◌*◌, ◌+◌, ◌-◌, ◌≡◌, ◌↔◌, refl, true,
  false, Option, some, [], ◌∷◌, ◌++◌, take, drop, arith, length,
}
use file_server.Prelude.Int.{ℤ, pos, negsuc, pos_part, eq_ℤ, ◌+ℤ◌, ◌-ℤ◌}
use file_server.Prelude.Text.{Bytes, same_text}
use file_server.Json.{utf8, value, value_int64, value_text}
use file_server.Client.{
  ClientResponse, Sender, chunk_request, send_with_file, after_chunk, download_loop,
}
use file_server.Client.Transfers.{Serves}
use file_server.Client.Local.{
  LocalDisk, answered, success, download_file, download_info, download_sized, download_to,
  target_of, after_download,
}
use file_server.Client.Local.Saved.{download_file-Whole}
use file_server.Client.Local.Complete.{download_file_lem}
use file_server.Console.{Console, do_upload}
use file_server.Console.Display.{times, percent, filled_cells, cells, progress_bounds}
use file_server.Console.Resume.{do_resume_upload}
use file_server.Console.Resume.Same.{do_resume_upload-do_upload}
use file_server.Console.Menu.{menu_loop, menu_loop-end_of_input}
use file_server.Examples.FlatJson.{flat_json, Tree, num, word, no_more, member_of, find, object_of}

abbrev pub three_bytes : Bytes
three_bytes = 10 ∷ 20 ∷ 30 ∷ []

abbrev home : LocalDisk
home = record {
  read = λ path. some three_bytes;
  md5 = λ file. [];
  is_directory = λ path. false;
  can_create = λ path. true;
  can_store = λ path file. true;
}

abbrev pub number_at : Bytes → Tree → ℕ
number_at key request = elim (find key request) [ some (num n) ↦ pos_part n | _ ↦ 0 ]

abbrev info : Bytes → ClientResponse flat_json
unfolding flat_json utf8
info bytes = record {
  code = pos 0;
  msg = [];
  body =
      member_of (utf8 "filesize") (num (pos 3))
        (member_of (utf8 "filename") (word (utf8 "a")) no_more);
  binary_data = bytes;
}

unfoldable pub refusal : ClientResponse flat_json
unfolding flat_json
refusal = record { code = negsuc 0; msg = []; body = no_more; binary_data = [] }

abbrev pub is_command : Bytes → Tree → Bool
is_command name request = elim (find (utf8 "cmd") request) [
  | some (word t) ↦ same_text name t
  | _ ↦ false
]

-- No byte is asked for, or bytes past the end.
abbrev out_of_file : ℕ → ℕ → Bool
out_of_file offset size = size == 0 || ltb 3 (offset + size)

-- A server with one file, which tells its size and serves its pieces, and refuses others.
abbrev serving : Sender flat_json ℕ
unfolding flat_json
serving request binary s = (
  some (
      if is_command (utf8 "download_chunk") request
        && out_of_file (number_at (utf8 "offset") request) (number_at (utf8 "size") request)
      then refusal
      else info (
          take (number_at (utf8 "size") request)
            (drop (number_at (utf8 "offset") request) three_bytes))),
  s,
)

inside_file : (offset size : ℕ) → 0 < size → offset + size ≤ 3 → out_of_file offset size ≡ false
inside_file offset size some_byte inside = ground arith

serving-Serves : Serves flat_json serving [] (pos 5) (λ s. Unit {0}) three_bytes
unfolding serving info flat_json chunk_request find object_of utf8 same_text refusal
serving-Serves s offset size good some_byte inside = (
  info (take size (drop offset three_bytes)),
  s,
  ap (λ b. (some (if b then refusal else info (take size (drop offset three_bytes))), s))
      (inside_file offset size some_byte inside),
  refl,
  refl,
  tt,
)

told_size : value_int64 flat_json (utf8 "filesize") (pos 0) (info []).body ≡ some (pos 3)
unfolding flat_json info value find same_text utf8
told_size = refl

told_name : value_text flat_json (utf8 "filename") [] (info []).body ≡ some (utf8 "a")
unfolding flat_json info value find same_text utf8
told_name = refl

told_info : send_with_file flat_json serving (utf8 "download") [] (pos 5) 0 ≡ (some (info []), 0)
unfolding send_with_file serving refusal info flat_json find object_of utf8 same_text
told_info = refl

zero_code : (info []).code ≡ pos 0
unfolding info
zero_code = refl

to_path : target_of false (utf8 "/b") (utf8 "a") ≡ some (utf8 "/b")
unfolding target_of
to_path = refl

download_file_lem_example :
    (s' : ℕ) × (download_file flat_json serving home 4 [] (pos 5) (utf8 "/b") 0 ≡ (
      some (answered (success flat_json (utf8 "/b") (pos 3)) (some (utf8 "/b", three_bytes))),
      s',
    ))
download_file_lem_example =
    download_file_lem flat_json serving [] (pos 5) three_bytes (λ s. Unit {0}) home (utf8 "/b")
      (utf8 "a") (utf8 "/b") (info []) 0 0 told_info zero_code told_size (omega arith) told_name
      to_path refl refl serving-Serves tt

download_runs :
    download_file flat_json serving home 4 [] (pos 5) (utf8 "/b") 0
    ≡ (some (answered (success flat_json (utf8 "/b") (pos 3)) (some (utf8 "/b", three_bytes))), 0)
unfolding download_file download_info download_sized download_to after_download download_loop
    after_chunk send_with_file target_of serving refusal info flat_json chunk_request find object_of
    utf8 same_text value ◌+ℤ◌ ◌-ℤ◌
download_runs = refl

download_file-Whole_example :
    (i : ClientResponse flat_json) × (filesize : ℤ) × ((send_with_file flat_json serving
        (utf8 "download")
        []
        (pos 5)
        0).0
      ≡ some i)
    × (value_int64 flat_json (utf8 "filesize") (pos 0) i.body ≡ some filesize)
    × (eq_ℤ filesize (pos 0) ≡ false)
    × (target : Bytes) × (file : Bytes) × (◌≡◌ {A = Option (Bytes × Bytes)}
        (some (utf8 "/b", three_bytes))
        (some (target, file)))
    × (home.can_store target file ≡ true)
    × (pos (length file) ≡ filesize)
download_file-Whole_example =
    download_file-Whole flat_json serving home 4 [] (pos 5) (utf8 "/b") 0 0
      (success flat_json (utf8 "/b") (pos 3)) (some (utf8 "/b", three_bytes)) download_runs refl

unfoldable pub stored : ClientResponse flat_json
unfolding flat_json utf8
stored = record {
  code = pos 0;
  msg = [];
  body = member_of (utf8 "file_id") (num (pos 5)) (member_of (utf8 "offset") (num (pos 0)) no_more);
  binary_data = [];
}

-- A server that appends what it gets.
abbrev appending : Sender flat_json Bytes
appending request binary s = (some stored, s ++ binary)

progress_bounds_example :
    (percent 3 8 ≤ 100)
    × ((percent 3 8 ≡ 100) ↔ (◌≡◌ {A = ℕ} 3 8))
    × (filled_cells (percent 3 8) ≤ 30)
    × (10 * filled_cells (percent 3 8) ≤ 3 * percent 3 8)
    × (3 * percent 3 8 < 10 * filled_cells (percent 3 8) + 10)
    × (cells 30 0 (filled_cells (percent 3 8))
        ≡ times (filled_cells (percent 3 8)) (utf8 "█")
          ++ times (30 - filled_cells (percent 3 8)) (utf8 "░"))
progress_bounds_example = progress_bounds 3 8 (omega arith) (omega arith)

-- A console whose client is logged in, with a path as the next line.
abbrev with_path : Console Bytes
with_path = record { world = []; token = 1 ∷ []; input = utf8 "/b" ∷ []; shown = [] }

do_resume_upload-do_upload_example :
    (do_resume_upload flat_json appending home with_path).1.world
    ≡ (do_upload flat_json appending home with_path).1.world
do_resume_upload-do_upload_example = do_resume_upload-do_upload flat_json appending home with_path

menu_loop-end_of_input_example :
    let c : Console Bytes = record { world = []; token = []; input = []; shown = [] } in
    ((menu_loop flat_json appending home (λ j. []) 9 7 c).0 ≡ some true)
    × ((menu_loop flat_json appending home (λ j. []) 9 7 c).1.world ≡ [])
menu_loop-end_of_input_example =
    menu_loop-end_of_input flat_json appending home (λ j. []) 9 7 [] [] []
