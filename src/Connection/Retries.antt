-- ===== src/Connection/Retries.antt =====
-- How often a call is tried, and what its result means.
use mmorpg_simulator.Common.{
  ℕ, zero, suc, ◌+◌, ◌-◌, ◌≤◌, ◌<◌, ◌≡◌, ◌⊎◌, inl, inr, refl, ◌∙◌, ap, true, Bool-cases, Option,
  none, some, arith, codes, ◌&&◌,
}
use mmorpg_simulator.Common.Int.{ℤ, pos, negsuc}
use mmorpg_simulator.Connection.{
  Driver, Connection, Diagnostic, Executed, succeeded, failed, reconnect, reconnect_loop,
  check_failover_state, retry_loop, execute_proc, executed, is_state, max_retries,
}

reconnect_loop-executions :
    (n : ℕ) (d : Driver) (c : Connection) → (reconnect_loop n d c).0.executions ≡ c.executions
unfolding reconnect_loop reconnect
reconnect_loop-executions zero d c = refl
reconnect_loop-executions (suc n) d c = grind (arith, reconnect_loop-executions n d)

check-executions :
    (d : Driver) (g : Option Diagnostic) (c : Connection)
    → (check_failover_state d g c).0.executions ≡ c.executions
unfolding check_failover_state
check-executions d none c = refl
check-executions d (some g) c = grind (arith, reconnect_loop-executions)

-- A call that was tried up to `n` times: it failed, or its last execution is the one that succeeded
-- and whose result was read.
pub record IsTried (n : ℕ) (d : Driver) (c c' : Connection) (result : ℤ) : Type 0 where
  pub bounded : c'.executions ≤ c.executions + n
  pub meaning :
      (result ≡ negsuc 0)
      ⊎ ((result ≡ pos 0)
          × ((last : ℕ) × (c'.executions ≡ suc last)
              × (c.executions ≤ last)
              × (d.execution last ≡ succeeded)
              × (d.result_read last ≡ true)))

-- An execution that fails uses one of the tries.
later-IsTried :
    (n : ℕ) (d : Driver) (c c1 c' : Connection) (result : ℤ)
    → c1.executions ≡ suc c.executions
    → IsTried n d c1 c' result
    → IsTried (suc n) d c c' result
later-IsTried n d c c1 c' result e t = record {
  bounded = omega (arith, e, t.bounded);
  meaning = elim t.meaning [
    | inl fails ↦ inl fails
    | inr (ok, (last, at_last, le, done, was_read)) ↦
        inr (ok, (last, at_last, omega (arith, e, le), done, was_read))
  ];
}

Executed-cases : (x : Executed) → (x ≡ succeeded) ⊎ ((g : Option Diagnostic) × (x ≡ failed g))
Executed-cases succeeded = inl refl
Executed-cases (failed g) = inr (g, refl)

retry_loop-IsTried :
    (n : ℕ) (d : Driver) (c : Connection) → IsTried n d c (retry_loop n d c).0 (retry_loop n d c).1
unfolding retry_loop
retry_loop-IsTried zero d c = record { bounded = omega arith; meaning = inl refl }
retry_loop-IsTried (suc n) d c = elim (Executed-cases (d.execution c.executions)) [
  | inl done ↦ elim (Bool-cases (d.result_read c.executions)) [
    | inl was_read ↦
        rw (done, was_read, retry_loop)
          (record {
            bounded = omega arith;
            meaning = inr (refl, (c.executions, refl, omega arith, done, was_read));
          })
    | inr unread ↦
        rw (done, unread, retry_loop) (record { bounded = omega arith; meaning = inl refl })
  ]
  | inr (g, fails) ↦
      let c1 : Connection = (check_failover_state d g (executed c)).0 in
      let e : c1.executions ≡ suc c.executions = check-executions d g (executed c) in
      elim (Bool-cases (check_failover_state d g (executed c)).1) [
        | inl again ↦
            rw (fails, again, retry_loop) (later-IsTried n d c c1 _ _ e (retry_loop-IsTried n d c1))
        | inr over ↦
            rw (fails, over, retry_loop) (record { bounded = omega (arith, e); meaning = inl refl })
      ]
]

-- A call is executed five times at most. Its result is -1, or it is 0 and then the last execution
-- succeeded and its result was read.
pub execute_proc-IsTried :
    (d : Driver) (c : Connection)
    → IsTried max_retries d c (execute_proc d c).0 (execute_proc d c).1
unfolding execute_proc
execute_proc-IsTried d c = elim (Bool-cases (c.connected && c.has_stmt)) [
  | inl ready ↦ rw (ready, execute_proc) (retry_loop-IsTried max_retries d c)
  | inr not_ready ↦
      rw (not_ready, execute_proc) (record { bounded = omega arith; meaning = inl refl })
]

-- An execution that fails over: the driver has switched to another server.
abbrev pub FailsOver : Driver → ℕ → Type 0
FailsOver d i =
    (g : Diagnostic) × (d.execution i ≡ failed (some g)) × (is_state (codes "08S02") g ≡ true)

suc-add : (k n : ℕ) → suc k + n ≡ suc (k + n)
suc-add k n = omega arith

failover_retries :
    (n : ℕ) (d : Driver) (c : Connection)
    → FailsOver d c.executions
    → retry_loop (suc n) d c ≡ retry_loop n d (executed c)
unfolding retry_loop check_failover_state
failover_retries n d c (g, fails, switched) = ground (arith, fails, switched)

succeeds_after :
    (k n : ℕ) (d : Driver) (c : Connection) (last : ℕ)
    → last ≡ c.executions + k
    → ((i : ℕ) → c.executions ≤ i → i < last → FailsOver d i)
    → d.execution last ≡ succeeded
    → d.result_read last ≡ true
    → retry_loop (suc (k + n)) d c ≡ (record c { executions = suc last }, pos 0)
unfolding retry_loop
succeeds_after zero n d c last e fails done was_read =
    let here : c.executions ≡ last = omega (arith, e) in
    let done' : d.execution c.executions ≡ succeeded = ap d.execution here ∙ done in
    let read' : d.result_read c.executions ≡ true = ap d.result_read here ∙ was_read in
    rw (done', read', retry_loop) (ap (λ m. (record c { executions = suc m }, pos 0)) here)
succeeds_after (suc k) n d c last e fails done was_read =
    ap (λ m. retry_loop (suc m) d c) (suc-add k n)
    ∙ failover_retries (suc (k + n)) d c (fails c.executions (omega arith) (omega (arith, e)))
    ∙ succeeds_after k n d (executed c) last (omega (arith, e))
        (λ i le lt. fails i (omega (arith, le)) lt) done was_read

-- While a connection is there, a call whose first executions, fewer than five, meet a switch to
-- another server, and whose next one succeeds and has its result read, returns 0 after exactly these
-- executions.
pub execute_proc_survives :
    (k : ℕ) (d : Driver) (c : Connection)
    → k < max_retries
    → (c.connected && c.has_stmt) ≡ true
    → ((i : ℕ) → c.executions ≤ i → i < c.executions + k → FailsOver d i)
    → d.execution (c.executions + k) ≡ succeeded
    → d.result_read (c.executions + k) ≡ true
    → execute_proc d c ≡ (record c { executions = suc (c.executions + k) }, pos 0)
unfolding execute_proc
execute_proc_survives k d c lt ready fails done was_read =
    let five : max_retries ≡ suc (k + (4 - k)) = omega (arith, lt) in
    rw (ready, execute_proc)
      (ap (λ m. retry_loop m d c) five
        ∙ succeeds_after k (4 - k) d c (c.executions + k) refl fails done was_read)
