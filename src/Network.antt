-- ===== src/Network.antt =====
-- The network library as a client of the repository uses it, and the wait for a connection in
-- rpc/rpc_client.cc and client/file_client.cc. The library is an interface, in a state of everything
-- that the client talks to.
use file_server.Prelude.{
  ℕ, zero, suc, ◌≤◌, ◌<◌, ◌≡◌, refl, ap, ◌∙◌, Bool, false, List, if◌then◌else◌, if-true, if-false,
  inl, inr, Bool-cases, arith,
}
use file_server.Prelude.Int.{ℤ}
use file_server.Prelude.Text.{Bytes}

pub record Network (S : Type 0) : Type 0 where
  -- `connect()` of a new `TcpClient` to a host and a port.
  pub start : Bytes → ℤ → S → S
  -- What happens in 100 ms, and `connected_`, which `OnConnection` sets.
  pub sleep : S → S
  pub connected : S → Bool
  -- The bytes that come back, in the pieces of `OnMessage`, within the time of a call that sends bytes.
  pub exchange : Bytes → S → List Bytes × S
  -- `connection_.reset()`
  pub release : S → S

module _ {S : Type 0} (net : Network S) where
  -- The loop of `Connect` in RpcClient and FileClient, on the rounds left.
  unfoldable pub wait_up : ℕ → S → S
  wait_up zero s = s
  wait_up (suc rounds) s =
      let rest = wait_up rounds (net.sleep s) in if net.connected s then s else rest

  -- `Connect`: at most 30 rounds.
  unfoldable pub connect : Bytes → ℤ → S → Bool × S
  unfolding wait_up
  connect host port s = let s' = wait_up 30 (net.start host port s) in (net.connected s', s')

  -- The state after a number of sleeps.
  abbrev pub slept : ℕ → S → S
  slept zero s = s
  slept (suc n) s = slept n (net.sleep s)

  wait_up_lem :
      (rounds : ℕ) (s : S)
      → (n : ℕ) × (n ≤ rounds)
        × (wait_up rounds s ≡ slept n s)
        × ((k : ℕ) → k < n → net.connected (slept k s) ≡ false)
        × (net.connected (slept n s) ≡ false → n ≡ rounds)
  unfolding wait_up
  wait_up_lem zero s = (0, omega arith, refl, λ k h. absurd (omega arith), λ e. refl)
  wait_up_lem (suc rounds) s = elim (Bool-cases (net.connected s)) [
    | inl up ↦ (0, omega arith, if-true _ up, λ k h. absurd (omega arith), λ e. absurd (cc))
    | inr down ↦
        let (n, few, e, before, all) = wait_up_lem rounds (net.sleep s) in
        (suc n, omega arith, if-false _ down ∙ e, earlier n s down before, λ d. ap suc (all d))
  ]
    where
      earlier :
          (n : ℕ) (s : S)
          → net.connected s ≡ false
          → ((k : ℕ) → k < n → net.connected (slept k (net.sleep s)) ≡ false)
          → (k : ℕ) → k < suc n
          → net.connected (slept k s) ≡ false
      earlier n s down before zero h = down
      earlier n s down before (suc k) h = before k (omega arith)

  -- Connect sleeps until there is a connection, and answers true then; it answers false after 30 sleeps
  -- without one.
  pub connect_lem :
      (host : Bytes) (port : ℤ) (s : S)
      → let first = net.start host port s in
        (n : ℕ) × (n ≤ 30)
        × (connect host port s ≡ (net.connected (slept n first), slept n first))
        × ((k : ℕ) → k < n → net.connected (slept k first) ≡ false)
        × (net.connected (slept n first) ≡ false → n ≡ 30)
  unfolding connect
  connect_lem host port s =
      let (n, few, e, before, all) = wait_up_lem 30 (net.start host port s) in
      (n, few, ap (λ t. (net.connected t, t)) e, before, all)
