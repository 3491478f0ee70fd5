-- ===== src/Gateway/TcpServer/Tracking.antt =====
-- gateway/network/tcp_server_wrapper.cc and tcp_connection_manager.cc: the sessions are those of the open
-- connections.
use mathlib.Core.List.{Perm}
use mathlib.Core.List.Perm
use file_server.Prelude.{
  ℕ, suc, ◌+◌, ◌^◌, ◌<◌, ◌==◌, ◌≡◌, refl, sym, ap, subst, ◌∙◌, Bool, true, false, List, [], ◌∷◌,
  length, map, arith, Bool-cases, All, inl, inr, if◌then◌else◌, if-true, if-false,
}
use file_server.Gateway.Sessions.{
  Session, Manager, erase, erase_conn, add_session, remove_connection, connection_count,
}
use file_server.Gateway.Sessions.Lookup.{Distinct, IsNumbered, erase-absent, add_session_lem}
use file_server.Gateway.TcpServer.{TcpServer, new_server, on_connection}

abbrev pub has : ℕ → List ℕ → Bool
has c [] = false
has c (d ∷ ds) = if d == c then true else has c ds

abbrev pub without : ℕ → List ℕ → List ℕ
without c [] = []
without c (d ∷ ds) = if d == c then ds else d ∷ without c ds

-- The server, the state of its callbacks, and the connections that are open, the newest first.
pub record Net (W : Type 0) : Type 0 where
  pub server : TcpServer W
  pub user : W
  pub open_conns : List ℕ

-- The events of the network library: a connection comes up that is not open, and an open one goes down,
-- when the weak pointers to the open connections lead to them.
pub data Step {W : Type 0} (n : Net W) : Net W → Type 0 where
  up :
      (conn : ℕ)
      → has conn n.open_conns ≡ false
      → n.server.manager.next_id + 1 < 2 ^ 64
      → Step n (record {
        server = (on_connection (λ c. has c n.open_conns) conn true n.server n.user).0;
        user = (on_connection (λ c. has c n.open_conns) conn true n.server n.user).1;
        open_conns = conn ∷ n.open_conns;
      })
  down :
      (conn : ℕ)
      → has conn n.open_conns ≡ true
      → Step n (record {
        server = (on_connection (λ c. has c n.open_conns) conn false n.server n.user).0;
        user = (on_connection (λ c. has c n.open_conns) conn false n.server n.user).1;
        open_conns = without conn n.open_conns;
      })

pub data Reach {W : Type 0} (n : Net W) : Net W → Type 0 where
  here : Reach n n
  next : {m k : Net W} → Reach n m → Step m k → Reach n k

-- The sessions are numbered, and theirs are the open connections.
abbrev pub Tracks : {W : Type 0} → Net W → Type 0
Tracks n =
    IsNumbered n.server.manager × (map (λ s. s.conn) n.server.manager.sessions ≡ n.open_conns)

All-erase_conn :
    (P : Session → Type 0) (alive : ℕ → Bool) (conn : ℕ) (ss : List Session)
    → All P ss
    → All P (erase_conn alive conn ss)
unfolding erase_conn
All-erase_conn P alive conn [] all = tt
All-erase_conn P alive conn (s ∷ ss) all =
    elim (Bool-cases (if alive s.conn then s.conn == conn else false)) [
      | inl gone ↦ subst (All P) (sym (if-true _ gone)) all.1
      | inr kept ↦
          subst (All P) (sym (if-false _ kept)) (all.0, All-erase_conn P alive conn ss all.1)
    ]

erase_conn-Distinct :
    (alive : ℕ → Bool) (conn : ℕ) (ss : List Session)
    → Distinct ss
    → Distinct (erase_conn alive conn ss)
unfolding erase_conn
erase_conn-Distinct alive conn [] d = tt
erase_conn-Distinct alive conn (s ∷ ss) d =
    elim (Bool-cases (if alive s.conn then s.conn == conn else false)) [
      | inl gone ↦ subst Distinct (sym (if-true _ gone)) d.1
      | inr kept ↦ subst Distinct (sym (if-false _ kept)) (
        All-erase_conn (λ t. (t.id == s.id) ≡ false) alive conn ss d.0,
        erase_conn-Distinct alive conn ss d.1,
      )
    ]

-- Where every session's connection is alive, its session is the one that goes.
conns-erase_conn :
    (alive : ℕ → Bool) (conn : ℕ) (ss : List Session)
    → All (λ s. alive s.conn ≡ true) ss
    → map (λ (s : Session). s.conn) (erase_conn alive conn ss)
      ≡ without conn (map (λ (s : Session). s.conn) ss)
unfolding erase_conn
conns-erase_conn alive conn [] all = refl
conns-erase_conn alive conn (s ∷ ss) all = elim (Bool-cases (s.conn == conn)) [
  | inl gone ↦
      ap (map (λ (t : Session). t.conn)) (if-true (s ∷ erase_conn alive conn ss) (this gone))
      ∙ sym (if-true (s.conn ∷ without conn (map (λ (t : Session). t.conn) ss)) gone)
  | inr kept ↦
      ap (map (λ (t : Session). t.conn)) (if-false ss (this kept))
      ∙ ap (◌∷◌ s.conn) (conns-erase_conn alive conn ss all.1)
      ∙ sym (if-false (map (λ (t : Session). t.conn) ss) kept)
]
  where
    this : {b : Bool} → (s.conn == conn) ≡ b → (if alive s.conn then s.conn == conn else false) ≡ b
    this e = if-true false all.0 ∙ e

-- What is in a list has it; so all that are mapped into it are alive.
has-weaken : (c d : ℕ) (ds : List ℕ) → has c ds ≡ true → has c (d ∷ ds) ≡ true
has-weaken c d ds h = ground arith

alive_lem :
    (conns : List ℕ) (ss : List Session)
    → All (λ c. has c conns ≡ true) (map (λ (s : Session). s.conn) ss)
    → All (λ s. has s.conn conns ≡ true) ss
alive_lem conns [] all = tt
alive_lem conns (s ∷ ss) all = (all.0, alive_lem conns ss all.1)

weakened :
    (d : ℕ) (ds es : List ℕ) → All (λ c. has c ds ≡ true) es → All (λ c. has c (d ∷ ds) ≡ true) es
weakened d ds [] all = tt
weakened d ds (e ∷ es) all = (has-weaken e d ds all.0, weakened d ds es all.1)

members_lem : (ds : List ℕ) → All (λ c. has c ds ≡ true) ds
members_lem [] = tt
members_lem (d ∷ ds) = (ground arith, weakened d ds ds (members_lem ds))

added : (conn : ℕ) (m : Manager) → IsNumbered m → erase m.next_id m.sessions ≡ m.sessions
added conn m (distinct, below) = erase-absent m.next_id m.sessions below

Step-Tracks : {W : Type 0} {n m : Net W} → Step n m → Tracks n → Tracks m
unfolding on_connection add_session remove_connection
Step-Tracks {n = n} (up conn new fits) (numbered, same) =
    let (numbered', is_conn, found, count) =
      add_session_lem conn 0 n.server.manager numbered fits in
    (
      numbered',
      ap (◌∷◌ conn)
          (ap (map (λ (t : Session). t.conn)) (added conn n.server.manager numbered) ∙ same),
    )
Step-Tracks {n = n} (down conn there) (numbered, same) = (
  (
    erase_conn-Distinct (λ c. has c n.open_conns) conn n.server.manager.sessions numbered.0,
    All-erase_conn (λ s. s.id < n.server.manager.next_id) (λ c. has c n.open_conns) conn
        n.server.manager.sessions numbered.1,
  ),
  conns-erase_conn (λ c. has c n.open_conns) conn n.server.manager.sessions
        (alive_lem n.open_conns n.server.manager.sessions
          (subst (All (λ c. has c n.open_conns ≡ true)) (sym same) (members_lem n.open_conns)))
      ∙ ap (without conn) same,
)

Reach-Tracks : {W : Type 0} {n m : Net W} → Reach n m → Tracks n → Tracks m
Reach-Tracks here t = t
Reach-Tracks (next r s) t = Step-Tracks s (Reach-Tracks r t)

length-map : (ss : List Session) → length (map (λ (s : Session). s.conn) ss) ≡ length ss
length-map [] = refl
length-map (s ∷ ss) = ap suc (length-map ss)

-- However connections come up and go down, from a new server on: the sessions' ids are distinct and below
-- the next one, the sessions are those of the open connections, each once, in whatever order, and
-- ConnectionCount is the number of open connections. The ids do not wrap.
pub sessions_track :
    {W : Type 0} (user : W) (m : Net W)
    → Reach (record { server = new_server; user = user; open_conns = [] }) m
    → IsNumbered m.server.manager
      × Perm (map (λ s. s.conn) m.server.manager.sessions) m.open_conns
      × (connection_count m.server.manager ≡ length m.open_conns)
unfolding connection_count
sessions_track user m r =
    let (numbered, same) = Reach-Tracks r ((tt, tt), refl) in
    (
      numbered,
      subst (Perm (map (λ (s : Session). s.conn) m.server.manager.sessions)) same (Perm.refl _),
      sym (length-map m.server.manager.sessions) ∙ ap length same,
    )
