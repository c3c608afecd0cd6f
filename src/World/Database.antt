-- ===== src/World/Database.antt =====
-- Calls of the database and of rand() (GameServer/main.cpp).
use mmorpg_simulator.Common.{ℕ, zero, suc, Option, some, List, [], ◌∷◌, Text}
use mmorpg_simulator.World.Data.{World, ProcCall, Cell, num, text, ResultSet}

-- `dbConn.ExecuteProc` is called; its answer is read by `reply` before.
abbrev pub call : ProcCall → World → World
call c w = record w { calls = c ∷ w.calls }

abbrev pub reply : ProcCall → World → Option (List ResultSet)
reply c w = w.env.database w.calls c

-- The number in the first column of the first row, or 0 as the variable is initialised.
pub first_num : Option (List ResultSet) → ℕ
first_num (some (((num n ∷ cs) ∷ rows) ∷ sets)) = n
first_num _ = 0

-- The rows that SQLFetch delivers, and those that it delivers after SQLMoreResults.
abbrev pub rows : Option (List ResultSet) → ResultSet
rows (some (set ∷ sets)) = set
rows _ = []

abbrev pub more_rows : Option (List ResultSet) → ResultSet
more_rows (some (set ∷ set' ∷ sets)) = set'
more_rows _ = []

-- The number or the text that a variable bound to a column holds, counted from 0.
abbrev pub column : ℕ → List Cell → ℕ
column zero (num n ∷ cs) = n
column (suc i) (c ∷ cs) = column i cs
column _ _ = 0

abbrev pub text_column : ℕ → List Cell → Text
text_column zero (text t ∷ cs) = t
text_column (suc i) (c ∷ cs) = text_column i cs
text_column _ _ = []

-- The next value of rand().
abbrev pub draw : World → ℕ
draw w = w.env.rand w.rands

abbrev pub drawn : World → World
drawn w = record w { rands = suc w.rands }

-- AddItemToDB: the uid of the new row, or 0 if there is none.
unfoldable pub new_item_uid : ℕ → ℕ → World → ℕ
unfolding first_num
new_item_uid char_uid tid w = first_num (reply (ProcCall.inventory_add char_uid tid) w)

abbrev pub add_item_to_db : ℕ → ℕ → World → World
add_item_to_db char_uid tid = call (ProcCall.inventory_add char_uid tid)

abbrev pub remove_item_from_db : ℕ → World → World
remove_item_from_db uid = call (ProcCall.inventory_remove uid)

abbrev pub equip_item_db : ℕ → ℕ → ℕ → World → World
equip_item_db char_uid slot uid = call (ProcCall.equip_item char_uid slot uid)

abbrev pub save_quest_progress : ℕ → ℕ → ℕ → ℕ → World → World
save_quest_progress char_uid quest status progress =
    call (ProcCall.quest_save char_uid quest status progress)
