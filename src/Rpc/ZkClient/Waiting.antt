-- ===== src/Rpc/ZkClient/Waiting.antt =====
-- rpc/zk_client.cc: Connect waits no longer than it should, and gives up no earlier.
use mathlib.Core.Option
use file_server.Prelude.{
  ℕ, zero, suc, ◌+◌, ◌*◌, ◌≤◌, ◌<◌, ◌≡◌, refl, ap, ◌∙◌, inl, inr, Bool-cases, Bool, true, false,
  not, ◌&&◌, some, List, [], ◌∷◌, if-true, if-false, arith,
}
use file_server.Prelude.Int.{ℤ, pos, pos_part, ltb_ℤ}
use file_server.Rpc.ZkClient.{
  ZkState, connected_state, expired_session_state, other_state, ZkClient, watcher_callback, notify,
  wait_connected, connect,
}

-- The wait was shorter than the timeout and a round, no connection means that it lasted all the
-- timeout, and the handle is as before.
abbrev Waited : Bool → ℤ → ℕ × ZkClient → Type 0
Waited handle timeout r =
    (r.0 < pos_part timeout + 100)
    × (r.1.connected ≡ false → pos_part timeout ≤ r.0)
    × (r.1.handle ≡ handle)

notify_handle :
    (states : List ZkState) (client : ZkClient) → (notify states client).handle ≡ client.handle
unfolding notify watcher_callback
notify_handle [] client = refl
notify_handle (connected_state ∷ states) client =
    notify_handle states (record client { connected = true })
notify_handle (expired_session_state ∷ states) client =
    notify_handle states (record client { connected = false })
notify_handle (other_state ∷ states) client = notify_handle states client

abbrev go_on : ℤ → ℕ → ZkClient → Bool
go_on timeout waited client = not client.connected && ltb_ℤ (pos waited) timeout

goes_on :
    (timeout : ℤ) (waited : ℕ) (client : ZkClient)
    → go_on timeout waited client ≡ true
    → waited < pos_part timeout
goes_on timeout waited client e = ground arith

gives_up :
    (timeout : ℤ) (waited : ℕ) (client : ZkClient)
    → go_on timeout waited client ≡ false
    → client.connected ≡ false
    → pos_part timeout ≤ waited
gives_up timeout waited client e c = ground arith

wait_connected_lem :
    (rounds : ℕ) (timeout : ℤ) (told : ℕ → List ZkState) (waited : ℕ) (client : ZkClient)
    → pos_part timeout + 100 ≤ waited + 100 * rounds
    → waited < pos_part timeout + 100
    → (r : ℕ × ZkClient) × (wait_connected rounds timeout told waited client ≡ some r)
      × Waited client.handle timeout r
unfolding wait_connected
wait_connected_lem zero timeout told waited client enough before = absurd (omega arith)
wait_connected_lem (suc rounds) timeout told waited client enough before =
    elim (Bool-cases (go_on timeout waited client)) [
      | inl more ↦
          let (r, e, (short, long, handle)) =
            wait_connected_lem rounds timeout told (waited + 100) (notify (told waited) client)
              (omega arith) (omega (arith, goes_on timeout waited client more)) in
          (
            r,
            if-true (some (waited, client)) more ∙ e,
            (short, long, handle ∙ notify_handle (told waited) client),
          )
      | inr done ↦
          ((waited, client), if-false _ done, (before, gives_up timeout waited client done, refl))
    ]

-- Connect ends within as many rounds of 100 ms as the timeout has begun, and one more. Where ZooKeeper's
-- library made a handle, its answer is whether the client is connected, it waited less than 100 ms
-- beyond the timeout, and it answers false only after the whole timeout. Without a handle the answer is
-- false at once, and the client stays as connected as it was.
pub connect_lem :
    (initialised : Bool) (rounds : ℕ) (timeout : ℤ) (told : ℕ → List ZkState) (client : ZkClient)
    → pos_part timeout + 100 ≤ 100 * rounds
    → (answer : Bool) × (waited : ℕ) × (client' : ZkClient) × (connect initialised rounds timeout
          told client
        ≡ some (answer, waited, client'))
      × (client'.handle ≡ initialised)
      × (initialised ≡ true → answer ≡ client'.connected)
      × (initialised ≡ false
          → (answer ≡ false) × (waited ≡ 0) × (client'.connected ≡ client.connected))
      × (waited < pos_part timeout + 100)
      × (initialised ≡ true → answer ≡ false → pos_part timeout ≤ waited)
unfolding connect
connect_lem false rounds timeout told client enough = (
  false,
  0,
  record client { handle = false },
  refl,
  refl,
  λ e. absurd (cc),
  λ e. (refl, refl, refl),
  omega arith,
  λ e. absurd (cc),
)
connect_lem true rounds timeout told client enough =
    let (r, e, (short, long, handle)) =
      wait_connected_lem rounds timeout told 0 (record client { handle = true }) (omega arith)
        (omega arith) in
    (
      r.1.connected,
      r.0,
      r.1,
      ap (λ o. Option.map (λ (q : ℕ × ZkClient). (q.1.connected, q.0, q.1)) o) e,
      handle,
      λ e'. refl,
      λ e'. absurd (cc),
      short,
      λ e'. long,
    )
