-- ===== src/Attendance.antt =====
-- The daily attendance (GameServer/main.cpp: SendAttendanceInfo, OnAttendanceCheck).
use mmorpg_simulator.Common.{ℕ, [], ◌∷◌, u8, u32}
use mmorpg_simulator.Protocol.{attendance_info, attendance_result}
use mmorpg_simulator.Protocol.Payloads.{AttendanceInfo, AttendanceResult}
use mmorpg_simulator.World.Data.{World, ProcCall, ResultSet}
use mmorpg_simulator.World.Sessions.{player, send}
use mmorpg_simulator.World.Database.{call, reply, rows, column}

abbrev attendance : ResultSet → AttendanceInfo
attendance [] = record { today_attended = 0; reward_gold = 0 }
attendance (r ∷ _) = record { today_attended = u8 (column 0 r); reward_gold = u32 (column 1 r) }

abbrev pub send_attendance_info : ℕ → World → World
send_attendance_info s w =
    let c = ProcCall.attendance_info (player w s).char_uid in
    send s (attendance_info (attendance (rows (reply c w)))) (call c w)

abbrev checked_in : ResultSet → AttendanceResult
checked_in [] = record { success = 0; reward_gold = 0 }
checked_in (r ∷ _) = record { success = u8 (column 0 r); reward_gold = u32 (column 1 r) }

abbrev pub on_attendance_check : ℕ → World → World
on_attendance_check s w =
    let c = ProcCall.attendance_check (player w s).char_uid in
    send s (attendance_result (checked_in (rows (reply c w)))) (call c w)
