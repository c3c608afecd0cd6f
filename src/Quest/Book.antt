-- ===== src/Quest/Book.antt =====
-- The map from quest ids to progress.
use mmorpg_simulator.Common.{ℕ, ◌≡◌, ◌≢◌, List, [], ◌∷◌, arith}
use mmorpg_simulator.World.Data.{QuestData, QuestProgress}
use mmorpg_simulator.Quest.{
  QuestBook, find_progress, put_progress, progress_of, advance, advance_book, kept,
}

pub progress_of-put_self :
    (b : QuestBook) (id : ℕ) (v : QuestProgress) → progress_of (put_progress b id v) id ≡ v
unfolding find_progress put_progress
progress_of-put_self [] id v = ground arith
progress_of-put_self ((k, u) ∷ b) id v = ground (arith, progress_of-put_self b id v)

pub progress_of-put_ne :
    (b : QuestBook) (id : ℕ) (v : QuestProgress) (j : ℕ)
    → id ≢ j
    → progress_of (put_progress b id v) j ≡ progress_of b j
unfolding find_progress put_progress
progress_of-put_ne [] id v j h = ground arith
progress_of-put_ne ((k, u) ∷ b) id v j h = ground (arith, progress_of-put_ne b id v j)

-- The loop advances each entry by the quest of its id.
pub progress_of-advance_book :
    (qs : List QuestData) (b : QuestBook) (id : ℕ)
    → progress_of (advance_book qs b) id
      ≡ kept (progress_of b id) (advance qs id (progress_of b id))
unfolding find_progress advance_book
progress_of-advance_book qs [] id = ground arith
progress_of-advance_book qs ((k, u) ∷ b) id = ground (arith, progress_of-advance_book qs b id)
