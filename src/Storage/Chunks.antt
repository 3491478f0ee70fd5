-- ===== src/Storage/Chunks.antt =====
-- What `WriteChunk` writes, `ReadChunk` reads back, and nothing else changes.
use file_server.Prelude.{
  ℕ, ◌+◌, ◌-◌, ◌^◌, ◌<◌, max, ◌≡◌, refl, sym, ap, ap₂, ◌∙◌, Bool, true, false, Option, none, some,
  List, [], ◌∷◌, ◌++◌, length, take, drop, replicate, if◌then◌else◌, arith, length-append,
  length-take, length-drop, length-replicate, drop-length_append, take-length_append, take_all,
  drop_all, append-nil, append_assoc, drop-drop,
}
use file_server.Prelude.Int.{ℤ, pos, negsuc, pos_part}
use file_server.Prelude.Text.{same_text, same_text_refl}
use file_server.Storage.{
  Bytes, Disk, Os, get_absolute_path, write_at, write_chunk, read_chunk, get_file_size,
}

-- What stands before the offset.
abbrev before : Bytes → ℕ → Bytes
before old offset = take offset (old ++ replicate (offset - length old) 0)

length-before : (old : Bytes) (offset : ℕ) → length (before old offset) ≡ offset
length-before old offset = omega (
  arith,
  length-take offset (old ++ replicate (offset - length old) 0),
  length-append old (replicate (offset - length old) 0),
  length-replicate {A = ℕ} (offset - length old) 0,
)

-- The size that a file has after a write: a write of no bytes does not make it longer.
abbrev pub grown : ℕ → ℕ → Bytes → ℕ
grown size offset [] = size
grown size offset (b ∷ bs) = max size (offset + length (b ∷ bs))

-- What `write_at` does with bytes that there are.
abbrev over : Bytes → ℕ → Bytes → Bytes
over old offset new = before old offset ++ (new ++ drop (offset + length new) old)

length-over :
    (old : Bytes) (offset : ℕ) (new : Bytes)
    → length (over old offset new) ≡ max (length old) (offset + length new)
length-over old offset new = omega (
  arith,
  length-append (before old offset) (new ++ drop (offset + length new) old),
  length-append new (drop (offset + length new) old),
  length-drop (offset + length new) old,
  length-before old offset,
)

pub length-write_at :
    (old : Bytes) (offset : ℕ) (new : Bytes)
    → length (write_at old offset new) ≡ grown (length old) offset new
unfolding write_at
length-write_at old offset [] = refl
length-write_at old offset (b ∷ bs) = length-over old offset (b ∷ bs)

drop-over :
    (old : Bytes) (offset : ℕ) (new : Bytes)
    → drop offset (over old offset new) ≡ new ++ drop (offset + length new) old
drop-over old offset new =
    ap (λ k. drop k (over old offset new)) (sym (length-before old offset))
    ∙ drop-length_append (before old offset) _

-- The bytes that were written stand at their offset.
pub write_at_range :
    (old : Bytes) (offset : ℕ) (new : Bytes)
    → take (length new) (drop offset (write_at old offset new)) ≡ new
unfolding write_at
write_at_range old offset [] = take-length_append [] (drop offset old)
write_at_range old offset (b ∷ bs) =
    ap (take (length (b ∷ bs))) (drop-over old offset (b ∷ bs)) ∙ take-length_append (b ∷ bs) _

-- A write at the end appends.
pub write_at_end : (old new : Bytes) → write_at old (length old) new ≡ old ++ new
unfolding write_at
write_at_end old [] = sym (append-nil old)
write_at_end old (b ∷ bs) =
    ap₂ ◌++◌
      (ap (λ k. take (length old) (old ++ replicate k 0)) {x = length old - length old} {y = 0}
          (omega arith)
        ∙ ap (take (length old)) (append-nil old)
        ∙ take_all (length old) old (omega arith))
      (ap (◌++◌ (b ∷ bs)) (drop_all (length old + length (b ∷ bs)) old (omega arith))
        ∙ append-nil (b ∷ bs))

-- A write that is made again, as by a client that got no answer, changes nothing.
pub write_at_again :
    (old : Bytes) (offset : ℕ) (new : Bytes)
    → write_at (write_at old offset new) offset new ≡ write_at old offset new
unfolding write_at
write_at_again old offset [] = refl
write_at_again old offset (b ∷ bs) = ap₂ ◌++◌ same_before (ap (◌++◌ (b ∷ bs)) same_after)
  where
    new : Bytes
    new = b ∷ bs

    once : Bytes
    once = over old offset new

    after : Bytes
    after = new ++ drop (offset + length new) old

    no_gap : offset - length once ≡ 0
    no_gap = omega (arith, length-over old offset new)

    same_before : take offset (once ++ replicate (offset - length once) 0) ≡ before old offset
    same_before =
        ap (λ k. take offset (once ++ replicate k 0)) no_gap
        ∙ ap (take offset) (append-nil once)
        ∙ ap (λ k. take k once) (sym (length-before old offset))
        ∙ take-length_append (before old offset) after

    same_after : drop (offset + length new) once ≡ drop (offset + length new) old
    same_after =
        sym (drop-drop offset (length new) once)
        ∙ ap (drop (length new)) (drop-over old offset new)
        ∙ drop-length_append new _

-- The content of a file, nothing where there is none.
abbrev pub content : Option Bytes → Bytes
content none = []
content (some c) = c

module _ (os : Os) (base filepath : Bytes) where
  abbrev path : Bytes
  path = get_absolute_path base filepath

  -- `WriteChunk` that succeeds has written all of the data at the offset, over the content that the
  -- file had, or a new file. No other file changes.
  pub write_chunk_ok :
      (new : Bytes) (offset : ℤ) (disk : Disk) (n : ℕ) (disk' : Disk)
      → write_chunk os base filepath new offset disk ≡ (pos n, disk')
      → (k : ℕ) × (offset ≡ pos k)
        × (n ≡ length new)
        × (disk'.files path ≡ some (write_at (content (disk.files path)) k new))
        × ((p : Bytes) → same_text path p ≡ false → disk'.files p ≡ disk.files p)
  unfolding write_chunk
  write_chunk_ok new (negsuc k) disk n disk' e = absurd (ground arith)
  write_chunk_ok new (pos k) disk n disk' e =
      (k, refl, ground arith, ground (arith, same_text_refl path), λ p h. ground arith)

  -- `ReadChunk` of a file that opens returns the bytes from the offset on, as many as there are up
  -- to the size; before the file and behind its end it returns nothing.
  pub read_chunk_lem :
      (disk : Disk) (c : Bytes) (offset : ℤ) (size : ℕ)
      → disk.files path ≡ some c
      → os.can_read path ≡ true
      → size < 2 ^ 63
      → read_chunk os base filepath offset size disk
        ≡ some (elim offset [ pos k ↦ take size (drop k c) | negsuc k ↦ [] ])
  unfolding read_chunk
  read_chunk_lem disk c (negsuc k) size e r h = ground arith
  read_chunk_lem disk c (pos k) size e r h =
      ground (arith, drop_all k c, take_all {A = ℕ} size [] (omega arith))

  -- A chunk that was written is read back, from the same offset and in its size. The file has its old
  -- size, or ends with the chunk where that is further; a chunk of no bytes does not make it longer.
  pub read-write_chunk :
      (new : Bytes) (offset : ℤ) (disk : Disk) (n : ℕ) (disk' : Disk)
      → write_chunk os base filepath new offset disk ≡ (pos n, disk')
      → os.can_read path ≡ true
      → n < 2 ^ 63
      → (read_chunk os base filepath offset n disk' ≡ some new)
        × (size : ℕ) × (get_file_size os base filepath disk' ≡ pos size)
        × (size ≡ grown (length (content (disk.files path))) (pos_part offset) new)
  unfolding get_file_size
  read-write_chunk new offset disk n disk' e r h =
      let (k, at_k, all, there, _) = write_chunk_ok new offset disk n disk' e in
      let old = content (disk.files path) in
      (
        read_chunk_lem disk' (write_at old k new) offset n there r h
            ∙ ap some (
                ap (λ o. elim o [ pos j ↦ take n (drop j (write_at old k new)) | negsuc j ↦ [] ])
                  at_k
                ∙ ap (λ m. take m (drop k (write_at old k new))) all
                ∙ write_at_range old k new),
        length (write_at old k new),
        ap
            (λ f. elim f [
              | some c ↦ pos (length c)
              | none ↦ if disk'.dirs path then pos (os.dir_size path) else negsuc 0
            ])
            there,
        length-write_at old k new ∙ ap (λ a. grown (length old) a new) (sym (ap pos_part at_k)),
      )

-- The chunks of a file, written one behind the other as a client sends them: whether every write
-- succeeded.
unfoldable pub next_piece : (Disk → Bool × Disk) → ℤ × Disk → Bool × Disk
next_piece go_on (pos n, disk) = go_on disk
next_piece go_on (negsuc n, disk) = (false, disk)

unfoldable pub write_pieces : Os → Bytes → Bytes → List Bytes → ℕ → Disk → Bool × Disk
unfolding next_piece
write_pieces os base filepath [] offset disk = (true, disk)
write_pieces os base filepath (piece ∷ pieces) offset disk =
    next_piece (write_pieces os base filepath pieces (offset + length piece))
      (write_chunk os base filepath piece (pos offset) disk)

pub join_pieces : List Bytes → Bytes
join_pieces [] = []
join_pieces (piece ∷ pieces) = piece ++ join_pieces pieces

-- Chunks that are all written behind one another, from the end of a file on, make the file longer by
-- their bytes in order.
pub write_pieces-append :
    (os : Os) (base filepath : Bytes) (pieces : List Bytes) (c : Bytes) (disk disk' : Disk)
    → disk.files (get_absolute_path base filepath) ≡ some c
    → write_pieces os base filepath pieces (length c) disk ≡ (true, disk')
    → disk'.files (get_absolute_path base filepath) ≡ some (c ++ join_pieces pieces)
unfolding write_pieces join_pieces
write_pieces-append os base filepath [] c disk disk' there e =
    ap (λ (r : Bool × Disk). r.1.files (get_absolute_path base filepath)) (sym e)
    ∙ there
    ∙ ap some (sym (append-nil c))
write_pieces-append os base filepath (piece ∷ pieces) c disk disk' there e =
    go (λ d. write_pieces-append os base filepath pieces (c ++ piece) d disk')
      (write_chunk os base filepath piece (pos (length c)) disk) refl e
  where
    file : Bytes
    file = get_absolute_path base filepath

    go :
        ((d : Disk)
          → d.files file ≡ some (c ++ piece)
          → write_pieces os base filepath pieces (length (c ++ piece)) d ≡ (true, disk')
          → disk'.files file ≡ some ((c ++ piece) ++ join_pieces pieces))
        → (r : ℤ × Disk) → write_chunk os base filepath piece (pos (length c)) disk ≡ r
        → next_piece (write_pieces os base filepath pieces (length c + length piece)) r
          ≡ (true, disk')
        → disk'.files file ≡ some (c ++ (piece ++ join_pieces pieces))
    go again (negsuc n, d) w f = absurd (cc)
    go again (pos n, d) w f =
        let (k, at_k, all, written, _) =
          write_chunk_ok os base filepath piece (pos (length c)) disk n d w in
        let appended : d.files file ≡ some (c ++ piece) =
          written
          ∙ ap (λ o. some (write_at (content o) k piece)) there
          ∙ ap (λ j. some (write_at c j piece)) {x = k} {y = length c} (ground (arith, at_k))
          ∙ ap some (write_at_end c piece) in
        again d appended
          (ap (λ o. write_pieces os base filepath pieces o d) (length-append c piece) ∙ f)
        ∙ ap some (append_assoc c piece (join_pieces pieces))
