-- ===== src/Gateway/Sessions/Lookup.antt =====
-- gateway/network/tcp_connection_manager.cc: the ids are unique, and each leads to its session.
use file_server.Prelude.{
  ℕ, suc, ◌+◌, ◌^◌, ◌<◌, ◌≤◌, ◌==◌, ==_iff, ◌≡◌, refl, ap, subst, ◌∙◌, true, false, none, some,
  List, [], ◌∷◌, length, arith, Bool-cases, All, inl, inr, if◌then◌else◌,
}
use file_server.Gateway.Sessions.{
  Session, Manager, find, erase, add_session, remove_session, get_session, connection_count,
}

-- No two sessions have the same id.
abbrev pub Distinct : List Session → Type 0
Distinct [] = Unit {0}
Distinct (s ∷ ss) = All (λ t. (t.id == s.id) ≡ false) ss × Distinct ss

-- The ids are distinct, and below the next one.
abbrev pub IsNumbered : Manager → Type 0
IsNumbered m = Distinct m.sessions × All (λ s. s.id < m.next_id) m.sessions

All-erase : (P : Session → Type 0) (id : ℕ) (ss : List Session) → All P ss → All P (erase id ss)
unfolding erase
All-erase P id [] all = tt
All-erase P id (s ∷ ss) all = elim (Bool-cases (s.id == id)) [
  | inl same ↦ subst (All P) (erases same) all.1
  | inr other ↦ subst (All P) (keeps other) (all.0, All-erase P id ss all.1)
]
  where
    erases : (s.id == id) ≡ true → ss ≡ erase id (s ∷ ss)
    erases same = ground arith

    keeps : (s.id == id) ≡ false → s ∷ erase id ss ≡ erase id (s ∷ ss)
    keeps other = ground arith

erase-Distinct : (id : ℕ) (ss : List Session) → Distinct ss → Distinct (erase id ss)
unfolding erase
erase-Distinct id [] d = tt
erase-Distinct id (s ∷ ss) d = elim (Bool-cases (s.id == id)) [
  | inl same ↦ subst Distinct (erases same) d.1
  | inr other ↦
      subst Distinct (keeps other)
        (All-erase (λ t. (t.id == s.id) ≡ false) id ss d.0, erase-Distinct id ss d.1)
]
  where
    erases : (s.id == id) ≡ true → ss ≡ erase id (s ∷ ss)
    erases same = ground arith

    keeps : (s.id == id) ≡ false → s ∷ erase id ss ≡ erase id (s ∷ ss)
    keeps other = ground arith

pub erase-absent : (id : ℕ) (ss : List Session) → All (λ s. s.id < id) ss → erase id ss ≡ ss
unfolding erase
erase-absent id [] all = refl
erase-absent id (s ∷ ss) all = ground (arith, erase-absent id ss all.1)

find-absent : (id : ℕ) (ss : List Session) → All (λ s. (s.id == id) ≡ false) ss → find id ss ≡ none
unfolding find
find-absent id [] all = refl
find-absent id (s ∷ ss) all = ground (arith, find-absent id ss all.1)

find-erase :
    (id other : ℕ) (ss : List Session)
    → Distinct ss
    → find other (erase id ss) ≡ (if other == id then none else find other ss)
unfolding find erase
find-erase id other [] d = ground arith
find-erase id other (s ∷ ss) d = elim (Bool-cases (s.id == id)) [
  | inl same ↦ elim (Bool-cases (other == id)) [
    | inl gone ↦ ground (
      arith,
      find-absent other ss (subst (λ n. All (λ t. (t.id == n) ≡ false) ss) (equal same gone) d.0),
    )
    | inr here ↦ ground (arith)
  ]
  | inr kept ↦ ground (arith, find-erase id other ss d.1)
]
  where
    equal : (s.id == id) ≡ true → (other == id) ≡ true → s.id ≡ other
    equal same gone = omega (arith, (==_iff s.id id).0 same, (==_iff other id).0 gone)

below-other :
    (n : ℕ) (ss : List Session) → All (λ s. s.id < n) ss → All (λ s. (s.id == n) ≡ false) ss
below-other n [] all = tt
below-other n (s ∷ ss) all = (ground arith, below-other n ss all.1)

below-suc : (n m : ℕ) (ss : List Session) → n ≤ m → All (λ s. s.id < n) ss → All (λ s. s.id < m) ss
below-suc n m [] h all = tt
below-suc n m (s ∷ ss) h all = (omega arith, below-suc n m ss h all.1)

-- Where the ids are distinct and below the next one, and the next one does not wrap, this stays
-- so; the new session's id leads to it, every other id leads where it led before, and there is one
-- connection more.
pub add_session_lem :
    (conn id : ℕ) (m : Manager)
    → IsNumbered m
    → m.next_id + 1 < 2 ^ 64
    → let (s, m') = add_session conn m in
      IsNumbered m'
      × (s.conn ≡ conn)
      × (get_session id m' ≡ (if id == s.id then some s else get_session id m))
      × (connection_count m' ≡ connection_count m + 1)
unfolding add_session get_session find connection_count
add_session_lem conn id m (distinct, below) h =
    let same = erase-absent m.next_id m.sessions below in
    (
      (
        (
          All-erase (λ s. (s.id == m.next_id) ≡ false) m.next_id m.sessions
              (below-other m.next_id m.sessions below),
          erase-Distinct m.next_id m.sessions distinct,
        ),
        (
          omega (arith, h),
          below-suc m.next_id _ _ (omega (arith, h))
              (All-erase (λ s. s.id < m.next_id) m.next_id m.sessions below),
        ),
      ),
      refl,
      ground (arith, same),
      ap (λ ss. suc (length ss)) same ∙ omega arith,
    )

-- Where the ids are distinct and below the next one, this stays so; a removed id leads nowhere,
-- and every other id leads where it led before.
pub remove_session_lem :
    (id other : ℕ) (m : Manager)
    → IsNumbered m
    → IsNumbered (remove_session id m)
      × (get_session other (remove_session id m)
          ≡ (if other == id then none else get_session other m))
unfolding remove_session get_session
remove_session_lem id other m (distinct, below) = (
  (erase-Distinct id m.sessions distinct, All-erase (λ s. s.id < m.next_id) id m.sessions below),
  find-erase id other m.sessions distinct,
)
