-- ===== src/Quest/Lifecycle.antt =====
-- The states of a quest, and the steps between them.
use mmorpg_simulator.Common.{
  ℕ, ◌+◌, ◌≡◌, ◌≢◌, refl, sym, ap, ◌∙◌, ◌⊎◌, inl, inr, some, Text, codes, true, List, [], ◌∷◌,
  arith, u16, leb, ◌==◌, ==_iff, ==_refl, subst, Bool-cases, Option-cases,
}
use native.Mathlib.Decide.{ℕ_discrete}
use mmorpg_simulator.Protocol.Requests.{QuestAccept, QuestComplete}
use mmorpg_simulator.World.Data.{World, QuestData, QuestProgress}
use mmorpg_simulator.World.Sessions.{player, send}
use mmorpg_simulator.Protocol.{quest_reward}
use mmorpg_simulator.Item.Frame.{give_item-frame}
use mmorpg_simulator.Movement.{is_near_quest_npc}
use mmorpg_simulator.Quest.{
  QuestBook, or_available, no_reward, put_progress, find_progress, reward_item, complete_quest,
  on_quest_accept, on_quest_complete, update_quest_progress, progress_of, find_quest, advance, kept,
}
use mmorpg_simulator.Quest.Book.{progress_of-put_self, progress_of-put_ne, progress_of-advance_book}

-- The state of a player's quest.
abbrev pub quest_state : ℕ → ℕ → World → QuestProgress
quest_state s id w = progress_of (w.quest_progress s) id

-- One step in a quest's life.
pub data Step (u v : QuestProgress) : Type 0 where
  stay : v ≡ u → Step u v
  accept : u.status ≢ 1 → u.status ≢ 2 → u.status ≢ 3 → v.status ≡ 1 → v.progress ≡ 0 → Step u v
  kill : u.status ≡ 1 → v.status ≡ 1 → v.progress ≡ u16 (u.progress + 1) → Step u v
  fulfil : u.status ≡ 1 → v.status ≡ 2 → v.progress ≡ u16 (u.progress + 1) → Step u v
  complete : u.status ≡ 2 → v.status ≡ 3 → v.progress ≡ u.progress → Step u v

accept_cases :
    (s : ℕ) (req : QuestAccept) (w : World)
    → ((on_quest_accept s req w).quest_progress s ≡ w.quest_progress s)
      ⊎ (((quest_state s req.quest_id w).status ≢ 1)
          × ((quest_state s req.quest_id w).status ≢ 2)
          × ((quest_state s req.quest_id w).status ≢ 3)
          × ((on_quest_accept s req w).quest_progress s
              ≡ put_progress
                  (w.quest_progress s)
                  req.quest_id
                  (record { status = 1; progress = 0 })))
unfolding on_quest_accept
accept_cases s req w = ground arith

reward_item-quest_progress :
    (s tid : ℕ) (w : World) → (reward_item s tid w).quest_progress ≡ w.quest_progress
unfolding reward_item
reward_item-quest_progress s tid w =
    ground (arith, ap (λ (v : World). v.quest_progress) (give_item-frame s tid w))

pub complete_quest-book :
    (s : ℕ) (q : QuestData) (v : QuestProgress) (id : ℕ) (w : World)
    → (complete_quest s q v id w).quest_progress s
      ≡ put_progress (w.quest_progress s) id (record v { status = 3 })
unfolding complete_quest
complete_quest-book s q v id w = rw (reward_item-quest_progress s q.reward_item_id) (ground arith)

-- A request to complete a quest that is completable, next to the quest giver.
pub record CanComplete (s id : ℕ) (w : World) (q : QuestData) (v : QuestProgress) : Type 0 where
  pub near : is_near_quest_npc (player w s) ≡ true
  pub known : find_quest w.quests id ≡ some q
  pub started : find_progress (w.quest_progress s) id ≡ some v
  pub completable : v.status ≡ 2

-- Any other request is answered by one refusal and changes nothing else.
pub complete_cases :
    (s : ℕ) (req : QuestComplete) (w : World)
    → ((why : Text) × (on_quest_complete s req w
          ≡ send s (quest_reward (no_reward req.quest_id why)) w))
      ⊎ ((q : QuestData) × (v : QuestProgress) × CanComplete s req.quest_id w q v
          × (on_quest_complete s req w ≡ complete_quest s q v req.quest_id w))
unfolding on_quest_complete
complete_cases s req w = elim (Bool-cases (is_near_quest_npc (player w s))) [
  | inr far ↦ inl (codes "Not near Quest NPC", rw far refl)
  | inl near ↦ elim (Option-cases (find_quest w.quests req.quest_id)) [
    | inl unknown ↦ inl (codes "Quest not found", rw (near, unknown, on_quest_complete) refl)
    | inr (q, known) ↦ elim (Option-cases (find_progress (w.quest_progress s) req.quest_id)) [
      | inl absent ↦ inl (codes "Quest not completable", ground arith)
      | inr (v, started) ↦ elim (Bool-cases (v.status == 2)) [
        | inl two ↦ inr (
          q,
          v,
          record { near = near; known = known; started = started; completable = ground arith },
          ground arith,
        )
        | inr other ↦ inl (codes "Quest not completable", ground arith)
      ]
    ]
  ]
]

put-Step :
    (b : QuestBook) (id : ℕ) (v : QuestProgress) (j : ℕ)
    → Step (progress_of b id) v
    → Step (progress_of b j) (progress_of (put_progress b id v) j)
put-Step b id v j st = elim (ℕ_discrete id j) [
  | yes here ↦
      subst (λ k. Step (progress_of b k) (progress_of (put_progress b id v) k)) here
        (rw (progress_of-put_self b id v) st)
  | no other ↦ stay (progress_of-put_ne b id v j other)
]

-- Accepting takes each of a player's quests along one step at most, whatever is asked for.
pub accept-Step :
    (s : ℕ) (req : QuestAccept) (w : World) (id : ℕ)
    → Step (quest_state s id w) (quest_state s id (on_quest_accept s req w))
accept-Step s req w id = elim (accept_cases s req w) [
  | inl same ↦ stay (ap (λ b. progress_of b id) same)
  | inr (n1, n2, n3, e) ↦
      rw e (put-Step (w.quest_progress s) req.quest_id _ id (accept n1 n2 n3 refl refl))
]

-- So does completing.
pub complete-Step :
    (s : ℕ) (req : QuestComplete) (w : World) (id : ℕ)
    → Step (quest_state s id w) (quest_state s id (on_quest_complete s req w))
complete-Step s req w id = elim (complete_cases s req w) [
  | inl (why, e) ↦ rw e (stay refl)
  | inr (q, v, can, e) ↦
      let here : quest_state s req.quest_id w ≡ v = ap or_available can.started in
      rw (e, complete_quest-book s q v req.quest_id w)
        (put-Step (w.quest_progress s) req.quest_id _ id (
          complete (rw here can.completable) refl
            (ap (λ (u : QuestProgress). u.progress) (sym here))))
]

advance-Step :
    (qs : List QuestData) (id : ℕ) (u : QuestProgress) → Step u (kept u (advance qs id u))
unfolding advance
advance-Step qs id u = elim (Bool-cases (u.status == 1)) [
  | inr off ↦ rw (off, advance) (stay refl)
  | inl on ↦ elim (Option-cases (find_quest qs id)) [
    | inl unknown ↦ rw (on, unknown, advance) (stay refl)
    | inr (q, known) ↦ elim (Bool-cases (leb q.target (u16 (u.progress + 1)))) [
      | inl enough ↦ fulfil ((==_iff _ _).0 on) (ground arith) (ground arith)
      | inr more ↦ kill ((==_iff _ _).0 on) (ground arith) (ground arith)
    ]
  ]
]

-- And so does a kill.
pub update-Step :
    (s : ℕ) (w : World) (id : ℕ)
    → Step (quest_state s id w) (quest_state s id (update_quest_progress s w))
unfolding update_quest_progress
update-Step s w id =
    rw (==_refl s, progress_of-advance_book w.quests (w.quest_progress s) id)
      (advance-Step w.quests id (quest_state s id w))

Step-completed : {u v : QuestProgress} → Step u v → u.status ≡ 3 → v ≡ u
Step-completed (stay e) h = e
Step-completed (accept n1 n2 n3 _ _) h = absurd (n3 h)
Step-completed (kill one _ _) h = absurd (omega arith)
Step-completed (fulfil one _ _) h = absurd (omega arith)
Step-completed (complete two _ _) h = absurd (omega arith)

-- What happens to a player's quests.
pub data QuestEvent : Type 0 where
  accepts : QuestAccept → QuestEvent
  completes : QuestComplete → QuestEvent
  kills : QuestEvent

pub quest_event : ℕ → QuestEvent → World → World
quest_event s (accepts req) w = on_quest_accept s req w
quest_event s (completes req) w = on_quest_complete s req w
quest_event s kills w = update_quest_progress s w

pub quest_events : ℕ → List QuestEvent → World → World
quest_events s [] w = w
quest_events s (e ∷ es) w = quest_events s es (quest_event s e w)

event-Step :
    (s : ℕ) (e : QuestEvent) (w : World) (id : ℕ)
    → Step (quest_state s id w) (quest_state s id (quest_event s e w))
unfolding quest_event
event-Step s (accepts req) w id = accept-Step s req w id
event-Step s (completes req) w id = complete-Step s req w id
event-Step s kills w id = update-Step s w id

-- A completed quest stays as it is through any requests and kills that follow.
pub completed_for_good :
    (s id : ℕ) (es : List QuestEvent) (w : World)
    → (quest_state s id w).status ≡ 3
    → quest_state s id (quest_events s es w) ≡ quest_state s id w
unfolding quest_events
completed_for_good s id [] w h = refl
completed_for_good s id (e ∷ es) w h =
    let same : quest_state s id (quest_event s e w) ≡ quest_state s id w =
      Step-completed (event-Step s e w id) h in
    completed_for_good s id es (quest_event s e w) (rw same h) ∙ same
