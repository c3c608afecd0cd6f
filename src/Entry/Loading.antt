-- ===== src/Entry/Loading.antt =====
-- What is loaded from the database.
use mmorpg_simulator.Common.{
  ℕ, ◌≡◌, refl, ◌∙◌, ap, List, [], ◌∷◌, ◌==◌, if◌then◌else◌, u8, u16, ==_refl, ==_ne,
}
use native.Mathlib.Decide.{ℕ_discrete}
use mmorpg_simulator.World.Data.{World, ResultSet, Cell, QuestProgress, ProcCall}
use mmorpg_simulator.World.Sessions.{player}
use mmorpg_simulator.World.Database.{column, rows, reply}
use mmorpg_simulator.Quest.{QuestBook, progress_of, put_progress, available, find_progress}
use mmorpg_simulator.Quest.Book.{progress_of-put_self, progress_of-put_ne}
use mmorpg_simulator.Quest.Lifecycle.{quest_state}
use mmorpg_simulator.Entry.{loaded_book, load_quest_progress}

-- A row as the state of a quest.
abbrev row_progress : List Cell → QuestProgress
row_progress r = record { status = u8 (column 1 r); progress = u16 (column 2 r) }

-- The state that the last row for a quest tells.
pub last_row : ResultSet → ℕ → QuestProgress → QuestProgress
last_row [] id v = v
last_row (r ∷ rs) id v = last_row rs id (if u16 (column 0 r) == id then row_progress r else v)

put_row :
    (book : QuestBook) (r : List Cell) (id : ℕ)
    → progress_of (put_progress book (u16 (column 0 r)) (row_progress r)) id
      ≡ (if u16 (column 0 r) == id then row_progress r else progress_of book id)
put_row book r id = elim (ℕ_discrete (u16 (column 0 r)) id) [
  | yes same ↦ rw (same, ==_refl id) (progress_of-put_self book id (row_progress r))
  | no other ↦
      rw (==_ne (u16 (column 0 r)) id other)
        (progress_of-put_ne book (u16 (column 0 r)) (row_progress r) id other)
]

book-last_row :
    (rs : ResultSet) (book : QuestBook) (id : ℕ)
    → progress_of (loaded_book rs book) id ≡ last_row rs id (progress_of book id)
unfolding loaded_book last_row
book-last_row [] book id = refl
book-last_row (r ∷ rs) book id =
    book-last_row rs (put_progress book (u16 (column 0 r)) (row_progress r)) id
    ∙ ap (last_row rs id) (put_row book r id)

-- The quests that are loaded for a character: each is as the last row for it tells, available if
-- there is none, whatever the session had before.
pub load-last_row :
    (s id : ℕ) (w : World)
    → quest_state s id (load_quest_progress s w)
      ≡ last_row (rows (reply (ProcCall.quest_load (player w s).char_uid) w)) id available
unfolding load_quest_progress find_progress
load-last_row s id w =
    rw (==_refl s)
      (book-last_row (rows (reply (ProcCall.quest_load (player w s).char_uid) w)) [] id)
