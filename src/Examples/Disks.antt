-- ===== src/Examples/Disks.antt =====
-- Runs of storage/ and of the names of files.
use file_server.Prelude.{
  ℕ, ◌≤◌, ◌≡◌, refl, true, false, none, some, [], ◌∷◌, length, All, arith, if◌then◌else◌,
}
use file_server.Prelude.Int.{pos, pos_part}
use file_server.Prelude.Text.{same_text}
use file_server.Prelude.Decimal.{to_string}
use file_server.Storage.{
  Bytes, Disk, Os, get_absolute_path, write_chunk, read_chunk, get_file_size, create_user_dir,
}
use file_server.Storage.Chunks.{content, grown, read-write_chunk, write_pieces, next_piece}
use file_server.Services.Filename.{sanitize_filename}
use file_server.Services.Filename.Safety.{IsSafe, sanitize_filename-IsSafe}
use file_server.Services.ChunkRpc.{store_chunk}
use file_server.Services.ChunkRpc.Storing.{InsideUserDir, Stored, store_chunk_lem}

-- Everything is permitted and no write fails.
abbrev pub open_os : Os
open_os = record {
  can_read = λ p. true;
  can_update = λ p. true;
  can_create = λ dirs p. true;
  can_remove = λ p. true;
  can_make_dir = λ dirs p. true;
  stops_after = λ p offset new. none;
  dir_size = λ p. 4096;
}

abbrev pub root : Bytes
root = b'/' ∷ b'd' ∷ []

abbrev name : Bytes
name = b'a' ∷ []

abbrev absolute : Bytes
absolute = b'/' ∷ b'd' ∷ b'/' ∷ b'a' ∷ []

abbrev pub no_files : Disk
no_files = record { files = λ p. none; dirs = λ p. false }

abbrev one_file : Disk
one_file = record {
  files = λ p. if same_text absolute p then some (7 ∷ 8 ∷ 9 ∷ []) else none;
  dirs = λ p. false;
}

abbrev chunk : Bytes
chunk = 1 ∷ 2 ∷ []

abbrev after_write : Disk
after_write = (write_chunk open_os root name chunk (pos 1) one_file).1

wrote : write_chunk open_os root name chunk (pos 1) one_file ≡ (pos 2, after_write)
unfolding write_chunk get_absolute_path same_text
wrote = refl

read-write_chunk_example :
    (read_chunk open_os root name (pos 1) 2 after_write ≡ some chunk)
    × (size : ℕ) × (get_file_size open_os root name after_write ≡ pos size)
    × (size
        ≡ grown
            (length (content (one_file.files (get_absolute_path root name))))
            (pos_part (pos 1))
            chunk)
read-write_chunk_example =
    read-write_chunk open_os root name chunk (pos 1) one_file 2 after_write wrote refl (omega arith)

one_file_there : one_file.files (get_absolute_path root name) ≡ some (7 ∷ 8 ∷ 9 ∷ [])
unfolding get_absolute_path same_text
one_file_there = refl

abbrev after_pieces : Disk
after_pieces = (write_pieces open_os root name (chunk ∷ chunk ∷ []) 3 one_file).1

wrote_pieces : write_pieces open_os root name (chunk ∷ chunk ∷ []) 3 one_file ≡ (true, after_pieces)
unfolding write_pieces next_piece write_chunk get_absolute_path same_text
wrote_pieces = refl

abbrev bad_name : Bytes
bad_name = b'.' ∷ b'.' ∷ b'/' ∷ b'.' ∷ b'h' ∷ b':' ∷ b'i' ∷ []

sanitize_filename-IsSafe_example :
    All IsSafe (sanitize_filename bad_name)
    × (1 ≤ length (sanitize_filename bad_name))
    × (length (sanitize_filename bad_name) ≤ 200)
sanitize_filename-IsSafe_example = sanitize_filename-IsSafe bad_name

-- The file 3/a of the user 3.
abbrev user_file : Bytes
user_file = b'3' ∷ b'/' ∷ b'a' ∷ []

stored :
    (store_chunk open_os root (pos 3) (pos 0) (pos 2) user_file chunk no_files).0 ≡ some (pos 2)
unfolding store_chunk create_user_dir write_chunk get_absolute_path same_text to_string
stored = refl

store_chunk_lem_example :
    InsideUserDir (pos 3) user_file
    × (pos 2 ≡ pos (length chunk))
    × (pos 2 ≡ pos (length chunk))
    × Stored open_os root user_file chunk
        (pos 0)
        no_files.files
        (store_chunk open_os root (pos 3) (pos 0) (pos 2) user_file chunk no_files).1.files
store_chunk_lem_example =
    store_chunk_lem open_os root (pos 3) (pos 0) (pos 2) user_file chunk no_files (pos 2) stored
