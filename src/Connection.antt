-- ===== src/Connection.antt =====
-- A call of the database with its retries (GameServer/DBConnection.cpp: ExecuteProc,
-- CheckFailoverState, Reconnect). What the ODBC driver answers is a parameter.
pub mod Retries
use mmorpg_simulator.Common.{
  ℕ, zero, suc, Bool, true, false, not, ◌&&◌, Option, none, some, ◌==◌, if◌then◌else◌, take, Text,
  codes, text_eq,
}
use mmorpg_simulator.Common.Int.{ℤ, pos, negsuc}

abbrev pub max_retries : ℕ
max_retries = 5

-- The first diagnostic record of a statement.
pub record Diagnostic : Type 0 where
  pub sql_state : Text
  pub native_error : ℕ

-- How a SQLExecDirectW ends: with success, or with the record that SQLGetDiagRecW finds, if any.
pub data Executed : Type 0 where
  succeeded : Executed
  failed : Option Diagnostic → Executed

-- The answers of the driver, counted over the life of the connection: to the executions, to the
-- attempts to reconnect, and, through the callback, to the reading of a result.
pub record Driver : Type 0 where
  pub execution : ℕ → Executed
  pub reconnects : ℕ → Bool
  pub result_read : ℕ → Bool

pub record Connection : Type 0 where
  pub connected : Bool
  pub has_stmt : Bool
  pub executions : ℕ
  pub attempts : ℕ

-- `wcsncmp(sqlState, ..., 5) == 0`
abbrev pub is_state : Text → Diagnostic → Bool
is_state t g = text_eq (take 5 g.sql_state) t

-- Reconnect: the old statement is freed, and success brings a new one.
unfoldable pub reconnect : Driver → Connection → Connection × Bool
reconnect d c =
    if d.reconnects c.attempts
    then (record c { connected = true; has_stmt = true; attempts = suc c.attempts }, true)
    else (record c { has_stmt = false; attempts = suc c.attempts }, false)

-- The attempts after a lost connection, up to the first that succeeds.
unfoldable pub reconnect_loop : ℕ → Driver → Connection → Connection × Bool
reconnect_loop zero d c = (c, false)
reconnect_loop (suc n) d c =
    let again = reconnect_loop n d (reconnect d c).0 in
    if (reconnect d c).1 then reconnect d c else again

-- Whether the call is to be tried again.
unfoldable pub check_failover_state : Driver → Option Diagnostic → Connection → Connection × Bool
check_failover_state d none c = (c, false)
check_failover_state d (some g) c =
    let lost = reconnect_loop max_retries d (record c { connected = false }) in
    let read_only = is_state (codes "HY000") g && (g.native_error == 1836) in
    if is_state (codes "08S02") g
    then (c, true)
    else if is_state (codes "08S01") g
    then (if lost.1 then lost else (lost.0, read_only))
    else (c, read_only)

abbrev pub executed : Connection → Connection
executed c = record c { executions = suc c.executions }

-- The loop, with the number of retries that are left. 0 is success.
unfoldable pub retry_loop : ℕ → Driver → Connection → Connection × ℤ
unfolding check_failover_state
retry_loop zero d c = (c, negsuc 0)
retry_loop (suc n) d c = elim (d.execution c.executions) [
  | succeeded ↦ (executed c, if d.result_read c.executions then pos 0 else negsuc 0)
  | failed g ↦
      let checked = check_failover_state d g (executed c) in
      let again = retry_loop n d checked.0 in if checked.1 then again else (checked.0, negsuc 0)
]

unfoldable pub execute_proc : Driver → Connection → Connection × ℤ
unfolding retry_loop
execute_proc d c =
    if not (c.connected && c.has_stmt) then (c, negsuc 0) else retry_loop max_retries d c
