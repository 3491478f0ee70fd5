-- ===== src/Rpc/ZkClient/Paths.antt =====
-- rpc/zk_client.cc: EnsurePath creates the parents of a path, from the root down.
use file_server.Prelude.{
  ℕ, zero, suc, ◌+◌, ◌≤◌, ◌<◌, ◌≡◌, refl, sym, ap, ◌∙◌, false, none, List, [], ◌∷◌, ◌++◌, length,
  take, drop, All, ◌==◌, ◌||◌, arith, append_assoc, append-nil, length-append, take-length_append,
  if-true, if-false, lt→ltb, ge→ltb,
}
use file_server.Prelude.Text.{Bytes, same_text}
use file_server.Json.{utf8}
use file_server.Rpc.ZkClient.{ZkLib, first_slash, next_slash, ensure_node, ensure_loop, ensure_path}

-- A name between two separators.
abbrev pub IsName : Bytes → Type 0
IsName name = (0 < length name) × All (λ c. (c == b'/') ≡ false) name

-- The absolute path of a list of names.
abbrev pub absolute : List Bytes → Bytes
absolute [] = []
absolute (name ∷ names) = b'/' ∷ (name ++ absolute names)

-- The paths of the nodes on the way from a node down.
abbrev pub parents_from : Bytes → List Bytes → List Bytes
parents_from done [] = []
parents_from done (name ∷ names) = let sub = done ++ (b'/' ∷ name) in sub ∷ parents_from sub names

first_slash_name :
    (name : Bytes) (names : List Bytes)
    → All (λ c. (c == b'/') ≡ false) name
    → first_slash (name ++ absolute names) ≡ length name
unfolding first_slash
first_slash_name [] [] all = refl
first_slash_name [] (n ∷ ns) all = refl
first_slash_name (c ∷ cs) names all = ground (arith, first_slash_name cs names all.1)

drop_name :
    (done name : Bytes) (names : List Bytes)
    → drop (suc (length done)) (done ++ absolute (name ∷ names)) ≡ name ++ absolute names
drop_name [] name names = refl
drop_name (d ∷ ds) name names = drop_name ds name names

length-absolute : (names : List Bytes) → length names ≤ length (absolute names)
length-absolute [] = omega arith
length-absolute (name ∷ names) =
    omega (arith, length-absolute names, length-append name (absolute names))

-- A path with a name is not empty, and not the root.
no_root :
    (name : Bytes) (names : List Bytes)
    → IsName name
    → ((length (absolute (name ∷ names)) == 0) || same_text (absolute (name ∷ names)) (utf8 "/"))
      ≡ false
unfolding same_text utf8
no_root [] names is_name = absurd (omega arith)
no_root (c ∷ cs) names is_name = ground arith

module _ (zk : ZkLib) where
  -- Nodes without a value, created one after the other; a failure is passed over.
  abbrev pub create_all : List Bytes → zk.Nodes → zk.Nodes
  create_all [] s = s
  create_all (p ∷ ps) s = create_all ps (zk.create p none false s).2

  -- One round that finds the end of `sub`.
  round_lem :
      (rounds from : ℕ) (path sub : Bytes) (s : zk.Nodes)
      → from < length path
      → next_slash path from ≡ length sub
      → take (length sub) path ≡ sub
      → 1 < length sub
      → ensure_loop zk (suc rounds) path from s
        ≡ ensure_loop zk rounds path (suc (length sub)) (zk.create sub none false s).2
  unfolding ensure_loop ensure_node
  round_lem rounds from path sub s inside next whole long =
      if-true s (lt→ltb from (length path) inside)
      ∙ ap (λ n. ensure_loop zk rounds path (suc n) (ensure_node zk (take n path) s)) next
      ∙ ap (λ p. ensure_loop zk rounds path (suc (length sub)) (ensure_node zk p s)) whole
      ∙ ap (ensure_loop zk rounds path (suc (length sub))) (if-true s (lt→ltb 1 (length sub) long))

  -- The loop from the start of a name, behind `done` and a separator.
  ensure_loop_lem :
      (rounds : ℕ) (path done : Bytes) (names : List Bytes) (s : zk.Nodes)
      → length names ≤ rounds
      → path ≡ done ++ absolute names
      → All IsName names
      → ensure_loop zk rounds path (suc (length done)) s ≡ create_all (parents_from done names) s
  unfolding ensure_loop
  ensure_loop_lem zero path done [] s enough e all = refl
  ensure_loop_lem (suc rounds) path done [] s enough e all =
      if-false
        (ensure_loop zk rounds path (suc (next_slash path (suc (length done))))
          (ensure_node zk (take (next_slash path (suc (length done))) path) s))
        (ge→ltb (suc (length done)) (length path)
          (omega (arith, ap length e, ap length (append-nil done))))
  ensure_loop_lem zero path done (name ∷ names) s enough e all = absurd (omega arith)
  ensure_loop_lem (suc rounds) path done (name ∷ names) s enough e all =
      let sub = done ++ (b'/' ∷ name) in
      let cut : path ≡ sub ++ absolute names =
        e ∙ sym (append_assoc done (b'/' ∷ name) (absolute names)) in
      let len : length sub ≡ suc (length done) + length name =
        length-append done (b'/' ∷ name) ∙ omega arith in
      let found : next_slash path (suc (length done)) ≡ length sub =
        ap (λ r. suc (length done) + first_slash r)
          (ap (drop (suc (length done))) e ∙ drop_name done name names)
        ∙ ap (◌+◌ (suc (length done))) (first_slash_name name names all.0.1)
        ∙ sym len in
      round_lem rounds (suc (length done)) path sub s
        (omega (arith, ap length cut, length-append sub (absolute names), len, all.0.0)) found
        (ap (take (length sub)) cut ∙ take-length_append sub (absolute names))
        (omega (arith, len, all.0.0))
      ∙ ensure_loop_lem rounds path sub names (zk.create sub none false s).2 (omega arith) cut all.1

  -- The nodes of an absolute path, of names that are not empty and have no separator, are created from
  -- the root down, each once, and the path itself last.
  pub ensure_path_lem :
      (name : Bytes) (names : List Bytes) (s : zk.Nodes)
      → All IsName (name ∷ names)
      → ensure_path zk (absolute (name ∷ names)) s ≡ create_all (parents_from [] (name ∷ names)) s
  unfolding ensure_path
  ensure_path_lem name names s all =
      if-false s (no_root name names all.0)
      ∙ ensure_loop_lem (length (absolute (name ∷ names))) (absolute (name ∷ names)) []
          (name ∷ names) s (length-absolute (name ∷ names)) refl all
