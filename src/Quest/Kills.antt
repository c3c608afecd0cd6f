-- ===== src/Quest/Kills.antt =====
-- An accepted quest counts kills up to its target.
use mmorpg_simulator.Common.{
  ℕ, zero, suc, ◌<◌, ◌≡◌, refl, sym, List, ap, ◌∙◌, some, arith, ==_refl, ◌≤◌, ltb, if◌then◌else◌,
  Bool-cases, inl, inr,
}
use mmorpg_simulator.World.Data.{World, QuestData, QuestProgress}
use mmorpg_simulator.Quest.{update_quest_progress, find_quest, advance, kept}
use mmorpg_simulator.Quest.Book.{progress_of-advance_book}
use mmorpg_simulator.Quest.Lifecycle.{quest_state}

-- `n` kills.
pub kill_times : ℕ → ℕ → World → World
kill_times s zero w = w
kill_times s (suc n) w = update_quest_progress s (kill_times s n w)

kill_times-quests : (s n : ℕ) (w : World) → (kill_times s n w).quests ≡ w.quests
unfolding kill_times update_quest_progress
kill_times-quests s zero w = refl
kill_times-quests s (suc n) w = kill_times-quests s n w

update-state :
    (s id : ℕ) (w : World)
    → quest_state s id (update_quest_progress s w)
      ≡ kept (quest_state s id w) (advance w.quests id (quest_state s id w))
unfolding update_quest_progress
update-state s id w = rw (==_refl s) (progress_of-advance_book w.quests (w.quest_progress s) id)

abbrev pub counting : ℕ → QuestProgress
counting n = record { status = 1; progress = n }

abbrev pub finished : QuestData → QuestProgress
finished q = record { status = 2; progress = q.target }

advance-below :
    (qs : List QuestData) (id : ℕ) (q : QuestData) (n : ℕ)
    → find_quest qs id ≡ some q
    → suc n < q.target
    → q.target < 65536
    → kept (counting n) (advance qs id (counting n)) ≡ counting (suc n)
unfolding advance
advance-below qs id q n known lt small = ground arith

advance-last :
    (qs : List QuestData) (id : ℕ) (q : QuestData) (n : ℕ)
    → find_quest qs id ≡ some q
    → q.target ≡ suc n
    → q.target < 65536
    → kept (counting n) (advance qs id (counting n)) ≡ finished q
unfolding advance
advance-last qs id q n known eq small = ground arith

module _ (s id : ℕ) (w : World) (q : QuestData) (known : find_quest w.quests id ≡ some q)
    (accepted : quest_state s id w ≡ counting 0) (small : q.target < 65536) where
  next_kill :
      (n : ℕ)
      → quest_state s id (kill_times s n w) ≡ counting n
      → quest_state s id (kill_times s (suc n) w)
        ≡ kept (counting n) (advance w.quests id (counting n))
  unfolding kill_times
  next_kill n h =
      rw (update-state s id (kill_times s n w), kill_times-quests s n w)
        (ap (λ u. kept u (advance w.quests id u)) h)

  still_counting : (n : ℕ) → n < q.target → quest_state s id (kill_times s n w) ≡ counting n
  unfolding kill_times
  still_counting zero lt = accepted
  still_counting (suc n) lt =
      next_kill n (still_counting n (omega arith)) ∙ advance-below w.quests id q n known lt small

  reached : (k : ℕ) → k ≡ q.target → 0 < k → quest_state s id (kill_times s k w) ≡ finished q
  reached zero e lt = elim lt [ ]
  reached (suc n) e lt =
      next_kill n (still_counting n (omega arith))
      ∙ advance-last w.quests id q n known (sym e) small

  -- For a quest of the server that is accepted with no kill yet and has a target from 1 to 65535:
  -- after fewer kills than the target it is in progress and shows their number, and the kill that
  -- reaches the target makes it completable.
  pub kills_to_target :
      (k : ℕ)
      → 0 < q.target
      → k ≤ q.target
      → quest_state s id (kill_times s k w) ≡ (if ltb k q.target then counting k else finished q)
  kills_to_target k some_ le = elim (Bool-cases (ltb k q.target)) [
    | inl below ↦ rw below (still_counting k (ground arith))
    | inr there ↦ rw there (reached k (ground arith) (ground arith))
  ]
