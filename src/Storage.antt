-- ===== src/Storage.antt =====
-- storage/storage_manager.cc: chunks of files on the disk. The operating system answers whether a
-- path can be opened, made or removed, and how much of a write reaches the disk.
pub mod Chunks
use file_server.Prelude.{
  ℕ, zero, suc, ◌+◌, ◌-◌, ◌^◌, Bool, true, false, ◌&&◌, ◌||◌, Option, none, some, List, [], ◌∷◌,
  ◌++◌, length, take, drop, replicate, ltb, leb, ◌==◌, if◌then◌else◌,
}
use file_server.Prelude.Int.{ℤ, pos, negsuc}
use file_server.Prelude.Text.{same_text}
use file_server.Prelude.Decimal.{to_string}

abbrev pub Bytes : Type 0
Bytes = List ℕ

-- The regular files by their path, and the paths of the directories.
pub record Disk : Type 0 where
  pub files : Bytes → Option Bytes
  pub dirs : Bytes → Bool

-- The answers of the operating system, which may depend on the directories that are there.
-- `can_read`, `can_update`: an existing file opens for reading, for reading and writing.
-- `can_create`: opening for writing makes or empties the file. `stops_after`: a write fails after so
-- many bytes, or does not fail. `dir_size`: what `stat` says of a directory.
pub record Os : Type 0 where
  pub can_read : Bytes → Bool
  pub can_update : Bytes → Bool
  pub can_create : (Bytes → Bool) → Bytes → Bool
  pub can_remove : Bytes → Bool
  pub can_make_dir : (Bytes → Bool) → Bytes → Bool
  pub stops_after : Bytes → ℕ → Bytes → Option ℕ
  pub dir_size : Bytes → ℕ

abbrev pub set_file : Bytes → Option Bytes → Disk → Disk
set_file path content disk = record disk {
  files = λ p. if same_text path p then content else disk.files p;
}

abbrev pub exists : Option Bytes → Bool
exists none = false
exists (some content) = true

abbrev pub ends_with_slash : Bytes → Bool
ends_with_slash [] = false
ends_with_slash (b ∷ []) = b == b'/'
ends_with_slash (b ∷ c ∷ bs) = ends_with_slash (c ∷ bs)

abbrev pub starts_with_slash : Bytes → Bool
starts_with_slash [] = false
starts_with_slash (b ∷ bs) = b == b'/'

-- `GetAbsolutePath`; the base path is not empty.
unfoldable pub get_absolute_path : Bytes → Bytes → Bytes
get_absolute_path base [] = []
get_absolute_path base (b ∷ bs) =
    if ends_with_slash base || starts_with_slash (b ∷ bs)
    then base ++ b ∷ bs
    else base ++ b'/' ∷ b ∷ bs

-- A write of `new` at `offset`; a gap behind the end is filled with zeros. A write of no bytes leaves
-- the file as it is, also behind its end.
unfoldable pub write_at : Bytes → ℕ → Bytes → Bytes
write_at old offset [] = old
write_at old offset (b ∷ bs) =
    take offset (old ++ replicate (offset - length old) 0)
    ++ (b ∷ bs ++ drop (offset + length (b ∷ bs)) old)

module _ (os : Os) (base : Bytes) where
  abbrev make_dir : Bytes → Disk → Disk
  make_dir path disk = record disk { dirs = λ p. same_text path p || disk.dirs p }

  -- The constructor: what `mkdir` returns is not looked at.
  unfoldable pub open_storage : Disk → Disk
  open_storage disk = if os.can_make_dir disk.dirs base then make_dir base disk else disk

  -- `CreateUserDir`: a directory that is there already is no error.
  unfoldable pub create_user_dir : ℤ → Disk → Bool × Disk
  create_user_dir user_id disk =
      let path = base ++ b'/' ∷ to_string user_id in
      if disk.dirs path
      then (true, disk)
      else if os.can_make_dir disk.dirs path
      then (true, make_dir path disk)
      else (false, disk)

  -- The first `open`: an existing file, for reading and writing.
  abbrev opens_update : Bytes → Disk → Bool
  opens_update path disk = exists (disk.files path) && os.can_update path

  -- `open` with `out` alone: the file is made, or emptied.
  unfoldable pub create_file : Bytes → Disk → Disk
  create_file path disk =
      if os.can_create disk.dirs path then set_file path (some []) disk else disk

  -- From the seek on, with the content that the open file has.
  unfoldable pub write_open : Bytes → Option Bytes → Bytes → ℤ → Disk → ℤ × Disk
  write_open path none new offset disk = (negsuc 0, disk)
  write_open path (some old) new (negsuc n) disk = (negsuc 0, disk)
  write_open path (some old) new (pos offset) disk = elim (os.stops_after path offset new) [
    | none ↦ (pos (length new), set_file path (some (write_at old offset new)) disk)
    | some k ↦ (negsuc 0, set_file path (some (write_at old offset (take k new))) disk)
  ]

  abbrev write_if_open : Bytes → Bytes → ℤ → Disk → ℤ × Disk
  write_if_open path new offset disk =
      if opens_update path disk
      then write_open path (disk.files path) new offset disk
      else (negsuc 0, disk)

  -- `WriteChunk`
  unfoldable pub write_chunk : Bytes → Bytes → ℤ → Disk → ℤ × Disk
  unfolding create_file write_open
  write_chunk filepath new offset disk =
      let path = get_absolute_path base filepath in
      if opens_update path disk
      then write_open path (disk.files path) new offset disk
      else write_if_open path new offset (create_file path disk)

  -- From the size on: `remaining` is positive where the offset is inside the file. A size of 2 ^ 63
  -- or more is negative as an `int64_t`, so it is not cut down, and the buffer cannot be made:
  -- `none` is the exception.
  unfoldable pub read_open : Bytes → ℤ → ℕ → Option Bytes
  read_open content (negsuc n) size = some []
  read_open content (pos offset) size =
      if leb (length content) offset
      then some []
      else if ltb size (2 ^ 63)
      then some (take size (drop offset content))
      else none

  -- `ReadChunk`
  unfoldable pub read_chunk : Bytes → ℤ → ℕ → Disk → Option Bytes
  unfolding read_open
  read_chunk filepath offset size disk =
      let path = get_absolute_path base filepath in
      elim (disk.files path) [
        | none ↦ some []
        | some content ↦ if os.can_read path then read_open content offset size else some []
      ]

  -- `DeleteFile`
  unfoldable pub delete_file : Bytes → Disk → Bool × Disk
  delete_file filepath disk =
      let path = get_absolute_path base filepath in
      if exists (disk.files path) && os.can_remove path
      then (true, set_file path none disk)
      else (false, disk)

  -- `GetFileSize`
  unfoldable pub get_file_size : Bytes → Disk → ℤ
  get_file_size filepath disk =
      let path = get_absolute_path base filepath in
      elim (disk.files path) [
        | some content ↦ pos (length content)
        | none ↦ if disk.dirs path then pos (os.dir_size path) else negsuc 0
      ]
