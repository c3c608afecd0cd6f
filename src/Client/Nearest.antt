-- ===== src/Client/Nearest.antt =====
-- FindNearestNpc of GameClient/main.cpp.
use mmorpg_simulator.Common.{
  ℕ, ◌+◌, ◌≤◌, ◌<◌, ◌≡◌, ◌≢◌, refl, sym, ap, subst, ◌⊎◌, inl, inr, ltb, if◌then◌else◌, List, [],
  ◌∷◌, ◌++◌, All, arith, Bool-cases,
}
use mmorpg_simulator.Common.Int.{abs, ◌-ℤ◌}
use mmorpg_simulator.Client.State.{ClientState, OwnPlayer, SeenNpc}

abbrev pub int_max : ℕ
int_max = 2147483647

-- abs(npc.posX - myPlayer.posX) + abs(npc.posY - myPlayer.posY)
abbrev pub distance : OwnPlayer → SeenNpc → ℕ
distance p n = abs (n.pos_x -ℤ p.pos_x) + abs (n.pos_y -ℤ p.pos_y)

-- The loop, with `nearest` and `minDist`.
unfoldable pub nearest_from : OwnPlayer → List (ℕ × SeenNpc) → ℕ → ℕ → ℕ
nearest_from p [] nearest min_dist = nearest
nearest_from p ((uid, n) ∷ npcs) nearest min_dist =
    if ltb (distance p n) min_dist
    then nearest_from p npcs uid (distance p n)
    else nearest_from p npcs nearest min_dist

unfoldable pub find_nearest_npc : ClientState → ℕ
find_nearest_npc c = nearest_from c.my_player c.npcs 0 int_max

-- The first of the monsters that are nearest.
pub record IsNearest (p : OwnPlayer) (npcs : List (ℕ × SeenNpc)) (uid : ℕ) : Type 0 where
  pub front : List (ℕ × SeenNpc)
  pub npc : SeenNpc
  pub back : List (ℕ × SeenNpc)
  pub whole : npcs ≡ front ++ (uid, npc) ∷ back
  pub before : All (λ e. distance p npc < distance p e.1) front
  pub after : All (λ e. distance p npc ≤ distance p e.1) back

module _ (p : OwnPlayer) where
  -- What the loop ends with: no monster was nearer than `m`, or the first of the nearest.
  abbrev Ends : List (ℕ × SeenNpc) → ℕ → ℕ → ℕ → Type 0
  Ends npcs b m r =
      ((r ≡ b) × All (λ e. m ≤ distance p e.1) npcs)
      ⊎ ((v : IsNearest p npcs r) × (distance p v.npc < m))

  found_nearer :
      (uid : ℕ) (n : SeenNpc) (npcs : List (ℕ × SeenNpc)) (b m r : ℕ)
      → distance p n < m
      → Ends npcs uid (distance p n) r
      → Ends ((uid, n) ∷ npcs) b m r
  found_nearer uid n npcs b m r lt (inl (e, h)) = inr (
    record {
      front = [];
      npc = n;
      back = npcs;
      whole = ap (λ k. (k, n) ∷ npcs) (sym e);
      before = tt;
      after = h;
    },
    lt,
  )
  found_nearer uid n npcs b m r lt (inr (v, lt')) = inr (
    record {
      front = (uid, n) ∷ v.front;
      npc = v.npc;
      back = v.back;
      whole = ap (◌∷◌ (uid, n)) v.whole;
      before = (lt', v.before);
      after = v.after;
    },
    omega (arith, lt, lt'),
  )

  passed_by :
      (uid : ℕ) (n : SeenNpc) (npcs : List (ℕ × SeenNpc)) (b m r : ℕ)
      → m ≤ distance p n
      → Ends npcs b m r
      → Ends ((uid, n) ∷ npcs) b m r
  passed_by uid n npcs b m r le (inl (e, h)) = inl (e, (le, h))
  passed_by uid n npcs b m r le (inr (v, lt)) = inr (
    record {
      front = (uid, n) ∷ v.front;
      npc = v.npc;
      back = v.back;
      whole = ap (◌∷◌ (uid, n)) v.whole;
      before = (omega (arith, le, lt), v.before);
      after = v.after;
    },
    lt,
  )

  nearest_from-cases :
      (npcs : List (ℕ × SeenNpc)) (b m : ℕ) → Ends npcs b m (nearest_from p npcs b m)
  unfolding nearest_from
  nearest_from-cases [] b m = inl (refl, tt)
  nearest_from-cases ((uid, n) ∷ npcs) b m = elim (Bool-cases (ltb (distance p n) m)) [
    | inl nearer ↦
        let e : nearest_from p ((uid, n) ∷ npcs) b m ≡ nearest_from p npcs uid (distance p n) =
          rw nearer refl in
        let lt : distance p n < m = ground (arith, nearer) in
        subst (Ends ((uid, n) ∷ npcs) b m) (sym e) (
          found_nearer uid n npcs b m (nearest_from p npcs uid (distance p n)) lt
            (nearest_from-cases npcs uid (distance p n)))
    | inr farther ↦
        let e : nearest_from p ((uid, n) ∷ npcs) b m ≡ nearest_from p npcs b m = rw farther refl in
        let le : m ≤ distance p n = ground (arith, farther) in
        subst (Ends ((uid, n) ∷ npcs) b m) (sym e)
          (passed_by uid n npcs b m (nearest_from p npcs b m) le (nearest_from-cases npcs b m))
  ]

none_far :
    (p : OwnPlayer) (npcs : List (ℕ × SeenNpc))
    → npcs ≢ []
    → All (λ e. distance p e.1 < int_max) npcs
    → All (λ e. int_max ≤ distance p e.1) npcs
    → ⊥
none_far p [] some_npc small far = some_npc refl
none_far p (e ∷ npcs) some_npc small far = omega (arith, small.0, far.0)

-- An attack names the first of the monsters that are nearest, in exact distances, if the client sees
-- any and none is farther than an int can say.
pub find-IsNearest :
    (c : ClientState)
    → c.npcs ≢ []
    → All (λ e. distance c.my_player e.1 < int_max) c.npcs
    → IsNearest c.my_player c.npcs (find_nearest_npc c)
unfolding find_nearest_npc
find-IsNearest c some_npc small = elim (nearest_from-cases c.my_player c.npcs 0 int_max) [
  | inl (e, far) ↦ absurd (none_far c.my_player c.npcs some_npc small far)
  | inr (v, lt) ↦ v
]
