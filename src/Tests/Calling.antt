-- ===== src/Tests/Calling.antt =====
-- A call of the database that is tried again.
use mmorpg_simulator.Common.{ℕ, zero, suc, ◌≡◌, ◌≤◌, ◌<◌, ◌+◌, refl, true, some, arith, codes}
use mmorpg_simulator.Common.Int.{pos}
use mmorpg_simulator.Connection.{
  Driver, Connection, Executed, succeeded, failed, execute_proc, max_retries,
}
use mmorpg_simulator.Connection.Retries.{
  IsTried, execute_proc-IsTried, execute_proc_survives, FailsOver,
}

-- The first execution meets a switch to another server.
abbrev switching : ℕ → Executed
switching zero = failed (some (record { sql_state = codes "08S02"; native_error = 0 }))
switching (suc n) = succeeded

abbrev driver : Driver
driver = record { execution = switching; reconnects = λ n. true; result_read = λ n. true }

abbrev fresh : Connection
fresh = record { connected = true; has_stmt = true; executions = 0; attempts = 0 }

execute_proc-IsTried_example :
    IsTried max_retries driver fresh (execute_proc driver fresh).0 (execute_proc driver fresh).1
execute_proc-IsTried_example = execute_proc-IsTried driver fresh

only_first : (i : ℕ) → 0 ≤ i → i < 0 + 1 → FailsOver driver i
only_first zero le lt = (record { sql_state = codes "08S02"; native_error = 0 }, refl, refl)
only_first (suc i) le lt = absurd (omega (arith, lt))

execute_proc_survives_example :
    execute_proc driver fresh ≡ (record fresh { executions = suc (0 + 1) }, pos 0)
execute_proc_survives_example =
    execute_proc_survives 1 driver fresh (omega arith) refl only_first refl refl
