-- ===== src/Database/Pool/Capacity.antt =====
-- database/mysql_pool.cc: how many connections there are, and what becomes of dead ones.
use file_server.Prelude.{
  ℕ, suc, ◌+◌, ◌<◌, ◌≤◌, ◌≡◌, refl, ap, subst, inl, inr, true, false, ◌||◌, Option, none, some,
  List, [], ◌∷◌, length, length-append, ltb, arith, Bool-cases,
}
use file_server.Database.Pool.{
  Pool, Answers, no_connections, add_created, fill, new_pool, can_proceed, check, grow, take_from,
  get_connection, return_connection, Step, gets, returns, Steps, here, ◌then◌,
}

-- Every connection that was counted is idle, lent or closed, and no more are counted than allowed.
pub record IsCounted (size : ℕ) (p : Pool) : Type 0 where
  pub counted : p.total_created ≡ length p.idle + length p.lent + length p.closed
  pub at_most : p.total_created ≤ size
  pub same_size : p.pool_size ≡ size

fill-IsCounted :
    (size : ℕ) (conns : List (Option ℕ)) (p : Pool)
    → p.total_created ≡ length p.idle + length p.lent + length p.closed
    → p.total_created + length conns ≤ size
    → p.pool_size ≡ size
    → IsCounted size (fill conns p)
unfolding fill add_created
fill-IsCounted size [] p counted at_most same = record {
  counted = counted;
  at_most = omega (arith, at_most);
  same_size = same;
}
fill-IsCounted size (none ∷ conns) p counted at_most same =
    fill-IsCounted size conns p counted (omega (arith, at_most)) same
fill-IsCounted size (some conn ∷ conns) p counted at_most same =
    fill-IsCounted size conns (add_created (some conn) p)
      (omega (arith, counted, length-append p.idle (conn ∷ []))) (omega (arith, at_most)) same

module _ (size : ℕ) where
  check-IsCounted :
      (a : Answers) (conn : ℕ) (p : Pool)
      → p.total_created ≡ suc (length p.idle + length p.lent + length p.closed)
      → p.total_created ≤ size
      → p.pool_size ≡ size
      → IsCounted size (check a conn p).1
  unfolding check
  check-IsCounted a conn p counted at_most same = elim (Bool-cases (a.pings || a.reconnects)) [
    | inl alive ↦ record {
      counted = ground (arith, counted);
      at_most = ground (arith, at_most);
      same_size = ground (arith, same);
    }
    | inr dead ↦ record {
      counted = ground (arith, counted);
      at_most = ground (arith, at_most);
      same_size = ground (arith, same);
    }
  ]

  grow-IsCounted :
      (a : Answers) (created : Option ℕ) (p : Pool)
      → p.total_created < size
      → IsCounted size p
      → IsCounted size (grow a created p).1
  unfolding grow
  grow-IsCounted a none p h c = c
  grow-IsCounted a (some conn) p h c =
      check-IsCounted a conn _ (omega (arith, c.counted)) (omega (arith, h)) c.same_size

  take_from-IsCounted :
      (a : Answers) (conns : List ℕ) (p : Pool)
      → p.idle ≡ conns
      → IsCounted size p
      → IsCounted size (take_from a conns p).1
  unfolding take_from
  take_from-IsCounted a (conn ∷ rest) p e c =
      check-IsCounted a conn _ (omega (arith, c.counted, ap length e)) c.at_most c.same_size
  take_from-IsCounted a [] p e c = elim (Bool-cases (ltb p.total_created p.pool_size)) [
    | inl room ↦
        subst (IsCounted size) (grows room)
          (grow-IsCounted a a.created p (ground (arith, c.same_size)) c)
    | inr full ↦ subst (IsCounted size) (stays full) c
  ]
    where
      grows : ltb p.total_created p.pool_size ≡ true → (grow a a.created p).1 ≡ (take_from a [] p).1
      grows room = ground arith

      stays : ltb p.total_created p.pool_size ≡ false → p ≡ (take_from a [] p).1
      stays full = ground arith

  get_connection-takes :
      (a : Answers) (p p' : Pool) (conn : Option ℕ)
      → get_connection a p ≡ some (conn, p')
      → take_from a p.idle p ≡ (conn, p')
  unfolding get_connection
  get_connection-takes a p p' conn e = elim (Bool-cases (can_proceed p)) [
    | inl free ↦ ground arith
    | inr waits ↦ absurd (ground arith)
  ]

  Step-IsCounted : (p p' : Pool) → Step p p' → IsCounted size p → IsCounted size p'
  unfolding return_connection
  Step-IsCounted p p' (gets a conn e) c =
      subst (IsCounted size) (ap (λ r. r.1) (get_connection-takes a p p' conn e))
        (take_from-IsCounted a p.idle p refl c)
  Step-IsCounted p p' (returns before conn after e) c = record {
    counted = omega (
      arith,
      c.counted,
      ap length e,
      length-append before (conn ∷ after),
      length-append before after,
      length-append p.idle (conn ∷ []),
    );
    at_most = c.at_most;
    same_size = c.same_size;
  }

  Steps-IsCounted : (p p' : Pool) → Steps p p' → IsCounted size p → IsCounted size p'
  Steps-IsCounted p p' here c = c
  Steps-IsCounted p p' (◌then◌ {q = q} step steps) c =
      Steps-IsCounted q p' steps (Step-IsCounted p q step c)

new_pool-IsCounted : (conns : List (Option ℕ)) → IsCounted (length conns) (new_pool conns)
unfolding new_pool
new_pool-IsCounted conns =
    fill-IsCounted (length conns) conns (no_connections (length conns)) refl (omega arith) refl

-- However the threads take turns and whatever the server answers, every connection that was
-- counted is idle, lent or closed, and no more than the size of the pool are idle or lent.
pub pool_accounts :
    (conns : List (Option ℕ)) (p : Pool)
    → Steps (new_pool conns) p
    → (p.total_created ≡ length p.idle + length p.lent + length p.closed)
      × (length p.idle + length p.lent ≤ length conns)
pool_accounts conns p steps =
    let c = Steps-IsCounted _ _ p steps (new_pool-IsCounted conns) in
    (c.counted, omega (arith, c.counted, c.at_most))

length-zero : (xs : List ℕ) → length xs ≡ 0 → xs ≡ []
length-zero [] e = refl
length-zero (x ∷ xs) e = absurd (omega (arith, e))

get_connection-waits :
    (a : Answers) (p : Pool)
    → p.idle ≡ []
    → ltb p.total_created p.pool_size ≡ false
    → get_connection a p ≡ none
unfolding get_connection
get_connection-waits a p e h = ground (arith, e)

-- When as many dead connections were closed as the pool is large, no connection is lent that could
-- come back, and `GetConnection` waits, whatever the server would answer.
pub pool_blocked :
    (conns : List (Option ℕ)) (p : Pool) (a : Answers)
    → Steps (new_pool conns) p
    → length p.closed ≡ length conns
    → (p.lent ≡ []) × (get_connection a p ≡ none)
pool_blocked conns p a steps all =
    let c = Steps-IsCounted _ _ p steps (new_pool-IsCounted conns) in
    (
      length-zero p.lent (omega (arith, c.counted, c.at_most, all)),
      get_connection-waits a p (length-zero p.idle (omega (arith, c.counted, c.at_most, all)))
          (ground (arith, c.counted, c.at_most, c.same_size, all)),
    )
