-- ===== src/Framing/Delivery.antt =====
-- Packets arrive whole, however the stream is cut into reads.
use mmorpg_simulator.Common.{
  ℕ, zero, suc, ◌+◌, ◌≤◌, ◌<◌, ◌≡◌, refl, sym, ap, ◌∙◌, subst, inl, inr, some, List, [], ◌∷◌, ◌++◌,
  arith, length, length-append, drop, All, ltb, Bool-cases,
}
use mathlib.Core.List.{append_assoc, append-nil}
use mmorpg_simulator.Framing.{
  Incoming, frame, process_buffer, packet_length, with_first, word, bytes16,
}
use mmorpg_simulator.Framing.RoundTrip.{
  IsSendable, IsPartial, frames, process-frame, process-partial, process_buffer-frames,
}
use mmorpg_simulator.Framing.Chunks.{receive, stream, process_unique}

-- One list that is written in two ways, split where the shorter first part ends.
split_append :
    (xs ys zs ws : List ℕ)
    → xs ++ ys ≡ zs ++ ws
    → length zs ≤ length xs
    → (zs ++ drop (length zs) xs ≡ xs) × (drop (length zs) xs ++ ys ≡ ws)
split_append xs ys [] ws e le = (refl, e)
split_append [] ys (z ∷ zs) ws e le = elim le [ ]
split_append (x ∷ xs) ys (z ∷ zs) ws e le =
    let same : x ≡ z = cc in
    let tails : xs ++ ys ≡ zs ++ ws = cc in
    let (a, b) = split_append xs ys zs ws tails (omega (arith, le)) in (cc, b)

pub word-append : (xs ys : List ℕ) → 2 ≤ length xs → word (xs ++ ys) ≡ word xs
word-append [] ys le = elim le [ ]
word-append (x ∷ []) ys le = absurd (omega (arith, le))
word-append (x ∷ x' ∷ xs) ys le = refl

-- The front part of bytes that are partial, or of a frame, is partial.
front-IsPartial : (p s : List ℕ) → IsPartial (p ++ s) → IsPartial p
front-IsPartial p s h = elim (Bool-cases (ltb (length p) 4)) [
  | inl short ↦ inl (ground (arith, short))
  | inr long ↦
      let enough : 4 ≤ length p = ground (arith, long) in
      ground (arith, h, word-append p s (omega (arith, enough)), length-append p s)
]

pub frame-length :
    (k : Incoming) (more : List ℕ)
    → IsSendable k
    → packet_length (frame k ++ more) ≡ length (frame k)
unfolding frame
frame-length k more h =
    let n : ℕ = length k.body in omega (arith, h.fits, length-append (bytes16 k.code) k.body)

pub frame-ge : (k : Incoming) → 4 ≤ length (frame k)
unfolding frame
frame-ge k = omega (arith, length-append (bytes16 k.code) k.body)

-- A frame of which bytes are missing is partial.
begun-IsPartial :
    (k : Incoming) (p s more : List ℕ)
    → IsSendable k
    → p ++ s ≡ frame k ++ more
    → length p < length (frame k)
    → IsPartial p
begun-IsPartial k p s more h e lt = elim (Bool-cases (ltb (length p) 4)) [
  | inl short ↦ inl (ground (arith, short))
  | inr long ↦
      let enough : 2 ≤ length p = ground (arith, long) in
      let same : packet_length p ≡ length (frame k) =
        sym (word-append p s enough) ∙ ap word e ∙ frame-length k more h in
      inr (omega (arith, lt, same))
]

-- Where the loop cuts a front part `p` of the stream, with `s` still to come.
pub record IsCut (fuel : ℕ) (ks : List Incoming) (rest p s : List ℕ) : Type 0 where
  pub taken : List Incoming
  pub left : List Incoming
  pub kept : List ℕ
  pub whole : ks ≡ taken ++ left
  pub ends : process_buffer fuel p ≡ some (taken, kept)
  pub front : p ≡ frames taken ++ kept
  pub behind : kept ++ s ≡ frames left ++ rest
  pub partial : IsPartial kept

pub front-IsCut :
    (fuel : ℕ) (ks : List Incoming) (rest p s : List ℕ)
    → All IsSendable ks
    → IsPartial rest
    → p ++ s ≡ frames ks ++ rest
    → length p < fuel
    → IsCut fuel ks rest p s
front-IsCut zero ks rest p s h partial e lt = elim lt [ ]
front-IsCut (suc fuel) [] rest p s h partial e lt =
    let part : IsPartial p = front-IsPartial p s (subst IsPartial (sym e) partial) in
    record {
      taken = [];
      left = [];
      kept = p;
      whole = refl;
      ends = process-partial fuel p part;
      front = refl;
      behind = e;
      partial = part;
    }
front-IsCut (suc fuel) (k ∷ ks) rest p s h partial e lt =
    let e' : p ++ s ≡ frame k ++ (frames ks ++ rest) =
      e ∙ append_assoc (frame k) (frames ks) rest in
    elim (Bool-cases (ltb (length p) (length (frame k)))) [
      | inl short ↦
          let part : IsPartial p =
            begun-IsPartial k p s (frames ks ++ rest) h.0 e' (ground (arith, short)) in
          record {
            taken = [];
            left = k ∷ ks;
            kept = p;
            whole = refl;
            ends = process-partial fuel p part;
            front = refl;
            behind = e;
            partial = part;
          }
      | inr long ↦
          let p' : List ℕ = drop (length (frame k)) p in
          let (a, b) = split_append p s (frame k) (frames ks ++ rest) e' (ground (arith, long)) in
          let size : length (frame k) + length p' ≡ length p =
            sym (length-append (frame k) p') ∙ ap length a in
          let later : IsCut fuel ks rest p' s =
            front-IsCut fuel ks rest p' s h.1 partial b (omega (arith, lt, size, frame-ge k)) in
          record {
            taken = k ∷ later.taken;
            left = later.left;
            kept = later.kept;
            whole = ap (◌∷◌ k) later.whole;
            ends =
                ap (process_buffer (suc fuel)) (sym a)
                ∙ process-frame fuel k p' h.0
                ∙ ap (with_first k) later.ends;
            front =
                sym a
                ∙ ap (◌++◌ (frame k)) later.front
                ∙ sym (append_assoc (frame k) (frames later.taken) later.kept);
            behind = later.behind;
            partial = later.partial;
          }
    ]

All-suffix : (ks js : List Incoming) → All IsSendable (ks ++ js) → All IsSendable js
All-suffix [] js h = h
All-suffix (k ∷ ks) js h = All-suffix ks js h.1

frames-suffix-le : (ks js : List Incoming) → length (frames js) ≤ length (frames (ks ++ js))
frames-suffix-le [] js = omega arith
frames-suffix-le (k ∷ ks) js =
    omega (arith, frames-suffix-le ks js, length-append (frame k) (frames (ks ++ js)))

receive_whole :
    (fuel : ℕ) (cs : List (List ℕ)) (b : List ℕ) (ks : List Incoming) (rest : List ℕ)
    → All IsSendable ks
    → IsPartial rest
    → IsPartial b
    → b ++ stream cs ≡ frames ks ++ rest
    → length (frames ks ++ rest) < fuel
    → receive fuel cs b ≡ some (ks, rest)
unfolding receive stream
receive_whole fuel [] b ks rest h partial part e lt =
    let e' : b ≡ frames ks ++ rest = sym (append-nil b) ∙ e in
    ap some (
      process_unique 1 fuel b ([], b) (ks, rest) (process-partial 0 b part)
        (ap (process_buffer fuel) e' ∙ process_buffer-frames fuel ks rest h partial lt))
receive_whole fuel (c ∷ cs) b ks rest h partial part e lt =
    let e' : (b ++ c) ++ stream cs ≡ frames ks ++ rest = append_assoc b c (stream cs) ∙ e in
    let front : length (b ++ c) < fuel =
      omega (arith, lt, ap length e', length-append (b ++ c) (stream cs)) in
    let cut : IsCut fuel ks rest (b ++ c) (stream cs) =
      front-IsCut fuel ks rest (b ++ c) (stream cs) h partial e' front in
    let h' : All IsSendable (cut.taken ++ cut.left) = subst (All IsSendable) cut.whole h in
    let lt' : length (frames cut.left ++ rest) < fuel = omega (
      arith,
      lt,
      length-append (frames cut.left) rest,
      length-append (frames ks) rest,
      frames-suffix-le cut.taken cut.left,
      ap (λ js. length (frames js)) cut.whole,
    ) in
    let later : receive fuel cs cut.kept ≡ some (cut.left, rest) =
      receive_whole fuel cs cut.kept cut.left rest (All-suffix cut.taken cut.left h') partial
        cut.partial cut.behind lt' in
    rw (cut.ends, receive, later) (ap (λ js. some (js, rest)) (sym cut.whole))

-- Any packets that were sent one after the other, with an unfinished one behind them, arrive as the
-- same packets in the same order, however the bytes are cut into reads, and what is unfinished stays
-- in the buffer, given more fuel than there are bytes.
pub receive-frames :
    (fuel : ℕ) (cs : List (List ℕ)) (ks : List Incoming) (rest : List ℕ)
    → All IsSendable ks
    → IsPartial rest
    → stream cs ≡ frames ks ++ rest
    → length (frames ks ++ rest) < fuel
    → receive fuel cs [] ≡ some (ks, rest)
receive-frames fuel cs ks rest h partial e lt =
    receive_whole fuel cs [] ks rest h partial (inl (omega arith)) e lt
