-- ===== src/Framing/Reads.antt =====
-- Messages that arrive in any pieces, and the loop that handles them after each read.
use mmorpg_simulator.Common.{
  ℕ, suc, ◌+◌, ◌≤◌, ◌<◌, ◌≡◌, refl, sym, ap, ◌∙◌, subst, Option, none, some, List, [], ◌∷◌, ◌++◌,
  arith, length, length-append, All,
}
use mathlib.Core.List.{append_assoc, append-nil}
use mmorpg_simulator.Framing.{Incoming}
use mmorpg_simulator.Framing.RoundTrip.{
  IsSendable, IsPartial, frames, process-partial, process_buffer-frames,
}
use mmorpg_simulator.Framing.Chunks.{process_unique, stream}
use mmorpg_simulator.Framing.Delivery.{IsCut, front-IsCut}
use mmorpg_simulator.Framing.Loop.{loop, IsWritten, packets_for, act_each, loop-frames}

-- Each read is put behind what stayed, and the loop runs. `stale`: what lies in memory behind the
-- bytes in use, for each read and each pass of its loop.
unfoldable pub loop_reads :
    {S : Type 0}
    → (ℕ → ℕ → List ℕ)
    → (ℕ → List ℕ → S → S)
    → ℕ
    → List (List ℕ)
    → List ℕ
    → S
    → Option (List ℕ × S)
loop_reads stale handle fuel [] buffer st = some (buffer, st)
loop_reads stale handle fuel (c ∷ cs) buffer st =
    elim (loop (stale 0) handle fuel (buffer ++ c) st) [
      | none ↦ none
      | some (rest, st') ↦ loop_reads (λ read. stale (suc read)) handle fuel cs rest st'
    ]

pub All-split : {X : Type 0} (P : X → Type 0) (a b : List X) → All P (a ++ b) → All P a × All P b
All-split P [] b h = (tt, h)
All-split P (x ∷ a) b h = let (u, v) = All-split P a b h.1 in ((h.0, u), v)

module _ {S X : Type 0} (handle : ℕ → List ℕ → S → S) (packet_of : X → Incoming)
    (act : X → S → S) where
  All-IsSendable :
      (xs : List X)
      → All (IsWritten handle packet_of act) xs
      → All IsSendable (packets_for packet_of xs)
  All-IsSendable [] h = h
  All-IsSendable (x ∷ xs) h = (h.0.sendable, All-IsSendable xs h.1)

  for_nil : (xs : List X) → packets_for packet_of xs ≡ [] → xs ≡ []
  for_nil [] e = refl
  for_nil (x ∷ xs) e = cc

  -- A buffer that holds no whole packet holds no message.
  pub all_read :
      (b rest : List ℕ) (xs : List X)
      → All (IsWritten handle packet_of act) xs
      → IsPartial b
      → IsPartial rest
      → b ≡ frames (packets_for packet_of xs) ++ rest
      → (xs ≡ []) × (b ≡ rest)
  all_read b rest xs h part partial e =
      let ks : List Incoming = packets_for packet_of xs in
      let n : ℕ = suc (length (frames ks ++ rest)) in
      let same : ([], b) ≡ (ks, rest) =
        process_unique 1 n b ([], b) (ks, rest) (process-partial 0 b part)
          (rw e (process_buffer-frames n ks rest (All-IsSendable xs h) partial (omega arith))) in
      (for_nil xs (cc same), cc same)

  -- Messages whose packets are split in two are split themselves.
  for_split :
      (xs : List X) (ks js : List Incoming)
      → packets_for packet_of xs ≡ ks ++ js
      → (a : List X) × (b : List X) × (xs ≡ a ++ b)
        × (packets_for packet_of a ≡ ks)
        × (packets_for packet_of b ≡ js)
  for_split xs [] js e = ([], xs, refl, refl, e)
  for_split [] (k ∷ ks) js e = absurd cc
  for_split (x ∷ xs) (k ∷ ks) js e =
      let (a, b, whole, front, back) = for_split xs ks js cc in
      (x ∷ a, b, ap (◌∷◌ x) whole, cc, back)

  act_each-append :
      (a b : List X) (st : S) → act_each act (a ++ b) st ≡ act_each act b (act_each act a st)
  act_each-append [] b st = refl
  act_each-append (x ∷ a) b st = act_each-append a b (act x st)

module _ {S X : Type 0} (stale : ℕ → List ℕ) (handle : ℕ → List ℕ → S → S)
    (packet_of : X → Incoming) (act : X → S → S) where
  -- Where one read leaves its sender.
  pub record IsTaken (fuel : ℕ) (p later : List ℕ) (xs : List X) (rest : List ℕ) (st : S)
      : Type 0 where
    pub now : List X
    pub then_ : List X
    pub kept : List ℕ
    pub whole : xs ≡ now ++ then_
    pub ends : loop stale handle fuel p st ≡ some (kept, act_each act now st)
    pub behind : kept ++ later ≡ frames (packets_for packet_of then_) ++ rest
    pub partial : IsPartial kept
    pub shorter : length kept ≤ length p

  pub read-IsTaken :
      (fuel : ℕ) (p later : List ℕ) (xs : List X) (rest : List ℕ) (st : S)
      → All (IsWritten handle packet_of act) xs
      → IsPartial rest
      → p ++ later ≡ frames (packets_for packet_of xs) ++ rest
      → length p < fuel
      → IsTaken fuel p later xs rest st
  read-IsTaken fuel p later xs rest st h partial e lt =
      let c : IsCut fuel (packets_for packet_of xs) rest p later =
        front-IsCut fuel (packets_for packet_of xs) rest p later
          (All-IsSendable handle packet_of act xs h) partial e lt in
      let (a, b, whole, front, back) = for_split handle packet_of act xs c.taken c.left c.whole in
      let p_is : p ≡ frames (packets_for packet_of a) ++ c.kept =
        c.front ∙ ap (λ ks. frames ks ++ c.kept) (sym front) in
      let known : All (IsWritten handle packet_of act) (a ++ b) =
        subst (All (IsWritten handle packet_of act)) whole h in
      record {
        now = a;
        then_ = b;
        kept = c.kept;
        whole = whole;
        ends =
            ap (λ q. loop stale handle fuel q st) p_is
            ∙ loop-frames handle packet_of act stale fuel a c.kept st
                (All-split (IsWritten handle packet_of act) a b known).0 c.partial
                (omega (arith, lt, ap length p_is));
        behind = c.behind ∙ ap (λ ks. frames ks ++ rest) (sym back);
        partial = c.partial;
        shorter =
            omega (arith, ap length p_is, length-append (frames (packets_for packet_of a)) c.kept);
      }

module _ {S X : Type 0} (handle : ℕ → List ℕ → S → S) (packet_of : X → Incoming)
    (act : X → S → S) where
  -- Messages that were sent one after the other, with an unfinished one behind them, are handled
  -- each once and in their order, however the bytes are cut into reads.
  pub loop_reads-act_each :
      (stale : ℕ → ℕ → List ℕ) (fuel : ℕ) (cs : List (List ℕ)) (b : List ℕ) (xs : List X)
      (rest : List ℕ) (st : S)
      → All (IsWritten handle packet_of act) xs
      → IsPartial rest
      → IsPartial b
      → b ++ stream cs ≡ frames (packets_for packet_of xs) ++ rest
      → length (b ++ stream cs) < fuel
      → loop_reads stale handle fuel cs b st ≡ some (rest, act_each act xs st)
  unfolding loop_reads stream
  loop_reads-act_each stale fuel [] b xs rest st h partial part e lt =
      let (none_left, same) =
        all_read handle packet_of act b rest xs h part partial (sym (append-nil b) ∙ e) in
      ap (λ q. some (q, st)) same ∙ ap (λ ys. some (rest, act_each act ys st)) (sym none_left)
  loop_reads-act_each stale fuel (c ∷ cs) b xs rest st h partial part e lt =
      let split : (b ++ c) ++ stream cs ≡ b ++ (c ++ stream cs) = append_assoc b c (stream cs) in
      let long : length (b ++ c) + length (stream cs) < fuel =
        omega (arith, lt, ap length split, length-append (b ++ c) (stream cs)) in
      let t : IsTaken (stale 0) handle packet_of act fuel (b ++ c) (stream cs) xs rest st =
        read-IsTaken (stale 0) handle packet_of act fuel (b ++ c) (stream cs) xs rest st h partial
          (split ∙ e) (omega (arith, long)) in
      let later : loop_reads (λ read. stale (suc read)) handle fuel cs t.kept
            (act_each act t.now st)
          ≡ some (rest, act_each act t.then_ (act_each act t.now st)) =
        loop_reads-act_each (λ read. stale (suc read)) fuel cs t.kept t.then_ rest
          (act_each act t.now st)
          (All-split (IsWritten handle packet_of act) t.now t.then_
            (subst (All (IsWritten handle packet_of act)) t.whole h)).1
          partial t.partial t.behind
          (omega (arith, long, t.shorter, length-append t.kept (stream cs))) in
      rw (loop_reads, t.ends)
        (later
          ∙ ap (λ st'. some (rest, st'))
              (sym (act_each-append handle packet_of act t.now t.then_ st)
                ∙ ap (λ ys. act_each act ys st) (sym t.whole)))
