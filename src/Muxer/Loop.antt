-- ===== src/Muxer/Loop.antt =====
-- The invariant of a muxer at work, and the loop that takes events from its queue.
use mathlib.Core.Path.{subst}
use mathlib.Core.List.{cons≢nil}
use actf.Common.{
  ℕ, zero, suc, ◌≤◌, ◌<◌, ◌≡◌, refl, sym, ◌∙◌, inl, inr, Bool, true, false, Bool-cases, ◌==◌, List,
  [], ◌∷◌, ◌++◌, arith,
}
use actf.Common.Int.{ℤ, ◌≤ℤ◌}
use actf.Common.Lists.{All, drop}
use actf.Common.Writes.{write}
use actf.EventGenerator.{EventGenerator, InOrder}
use actf.PrioQueue.{PrioQueue, len}
use actf.Muxer.{Muxer, buffered, advance, round, mux_loop}
use actf.Muxer.Holds.{Holds, Holds-ext, push_next-Holds, Popped, pop-Popped, no_buffer_left}
use actf.Muxer.Merge.{Merges, Merges-from, IsLeast}

abbrev pub none_waits : ℕ → Bool
none_waits i = false

-- Only the pending generator.
abbrev pub pending : {Ev G : Type 0} → Muxer Ev G → ℕ → Bool
pending m i = m.pending_gen_i == i

module _ {Ev G : Type 0} (tstamp : Ev → ℤ) (gen : EventGenerator Ev G) (IsLive : ℕ → G → Type 0)
    (rest : ℕ → G → List Ev) (n : ℕ) where
  -- What is to come from a generator: the events in its buffer, and those behind.
  abbrev pub left : Muxer Ev G → ℕ → List Ev
  left m i = buffered m i ++ rest i (m.gens i)

  -- The generators that `waits` tells of have to fill their buffers; the queue holds the others.
  pub record IsRunning (waits : ℕ → Bool) (m : Muxer Ev G) : Type 0 where
    pub size : m.gens_len ≡ n
    pub room : 0 < m.evs_cap
    pub live : (i : ℕ) → i < n → IsLive i (m.gens i)
    pub holds : Holds tstamp n m.pq (buffered m)
    pub drained : (i : ℕ) → i < n → waits i ≡ false → buffered m i ≡ [] → rest i (m.gens i) ≡ []
    pub empty : (i : ℕ) → i < n → waits i ≡ true → buffered m i ≡ []
    pub in_order : (i : ℕ) → i < n → InOrder tstamp (left m i)

  -- The events of the loop, and the muxer after it.
  pub record Looped (k : ℕ) (m : Muxer Ev G) (p : List Ev × Muxer Ev G) : Type 0 where
    pub running : IsRunning (pending p.1) p.1
    pub merges : Merges tstamp n (left m) p.0 (left p.1)
    pub ends : p.0 ≡ [] → 0 < k → (i : ℕ) → i < n → left m i ≡ []
    pub same_state : p.1.state ≡ m.state

  drop_rest : (k : ℕ) (xs ys : List Ev) (x : Ev) → drop k xs ≡ x ∷ ys → drop (suc k) xs ≡ ys
  drop_rest zero [] ys x e = cc
  drop_rest zero (z ∷ xs) ys x e = cc
  drop_rest (suc k) [] ys x e = cc
  drop_rest (suc k) (z ∷ xs) ys x e = drop_rest k xs ys x e

  pub IsRunning-as :
      (v w : ℕ → Bool) (m : Muxer Ev G)
      → ((i : ℕ) → i < n → w i ≡ v i)
      → IsRunning v m
      → IsRunning w m
  IsRunning-as v w m s r = record {
    size = r.size;
    room = r.room;
    live = r.live;
    holds = r.holds;
    drained = λ i l e. r.drained i l (sym (s i l) ∙ e);
    empty = λ i l e. r.empty i l (sym (s i l) ∙ e);
    in_order = r.in_order;
  }

  pub idle_pending :
      (m : Muxer Ev G) → n ≤ m.pending_gen_i → IsRunning none_waits m → IsRunning (pending m) m
  idle_pending m h r = IsRunning-as none_waits (pending m) m (λ i l. ground (arith, h, l)) r

  All-after :
      (ev x : Ev)
      → tstamp ev ≤ℤ tstamp x
      → (xs : List Ev) → All (λ y. tstamp x ≤ℤ tstamp y) xs
      → All (λ y. tstamp ev ≤ℤ tstamp y) xs
  All-after ev x h [] a = tt
  All-after ev x h (y ∷ ys) (p, a) = (omega (arith, h, p), All-after ev x h ys a)

  -- An event that is not after the first one of each buffer is not after any.
  later_least :
      (ev : Ev) (buf behind : List Ev)
      → (buf ≡ [] → behind ≡ [])
      → ((x : Ev) (xs : List Ev) → buf ≡ x ∷ xs → tstamp ev ≤ℤ tstamp x)
      → InOrder tstamp (buf ++ behind)
      → All (λ x. tstamp ev ≤ℤ tstamp x) (buf ++ behind)
  unfolding InOrder
  later_least ev [] behind d f o = rw (d refl) tt
  later_least ev (x ∷ xs) behind d f o =
      let first : tstamp ev ≤ℤ tstamp x = f x xs refl in
      (first, All-after ev x first (xs ++ behind) o.1)

  module _ (m : Muxer Ev G) (i : ℕ) (pq : PrioQueue) (ev : Ev) (evs : List Ev) (q : ℕ)
      (r : IsRunning none_waits m) (e : buffered m i ≡ ev ∷ evs)
      (popped : Popped tstamp n (buffered m) i pq (ev ∷ evs)) where
    abbrev advanced : Muxer Ev G
    advanced = record (advance tstamp m i pq evs) { pending_gen_i = q }

    advanced_buffers : (j : ℕ) → buffered advanced j ≡ write (buffered m) i evs j
    advanced_buffers j = elim (Bool-cases (i == j)) [
      | inl d ↦
          let same : j ≡ i = ground arith in
          rw (d, same) (drop_rest (m.in_evs_cur_is i) (m.in_evs i) evs ev e)
      | inr d ↦ rw d refl
    ]

    advanced_left : (j : ℕ) → left advanced j ≡ write (left m) i (evs ++ rest i (m.gens i)) j
    advanced_left j = elim (Bool-cases (i == j)) [
      | inl d ↦ let same : j ≡ i = ground arith in rw (advanced_buffers j, d, same) refl
      | inr d ↦ rw (advanced_buffers j, d) refl
    ]

    left_here : left m i ≡ ev ∷ evs ++ rest i (m.gens i)
    left_here = rw e refl

    ev-IsLeast : IsLeast tstamp n ev (left m)
    ev-IsLeast j l =
        later_least ev (buffered m j) (rest j (m.gens j)) (r.drained j l refl)
          (λ x xs f. popped.2 j x xs l f) (r.in_order j l)

    advanced-IsRunning :
        (w : ℕ → Bool)
        → (w i ≡ false → ¬ (evs ≡ []))
        → ((j : ℕ) → w j ≡ true → (i ≡ j) × (evs ≡ []))
        → IsRunning w advanced
    advanced-IsRunning w f g = record {
      size = r.size;
      room = r.room;
      live = r.live;
      holds =
          Holds-ext tstamp n (write (buffered m) i evs) (buffered advanced)
            (λ j l. advanced_buffers j)
            (push_next-Holds tstamp n pq (buffered m) i evs popped.0 popped.1);
      drained = λ j l d z. elim (Bool-cases (i == j)) [
        | inl s ↦
            let same : j ≡ i = ground arith in
            absurd (f (rw same at d) (rw s at (sym (advanced_buffers j) ∙ z)))
        | inr s ↦ r.drained j l refl (rw s at (sym (advanced_buffers j) ∙ z))
      ];
      empty = λ j l d.
          let (same, z) = g j d in
          let s : (i == j) ≡ true = ground (arith, same) in advanced_buffers j ∙ rw s z;
      in_order = λ j l. elim (Bool-cases (i == j)) [
        | inl s ↦
            let here = subst (InOrder tstamp) left_here (r.in_order i popped.0) in
            let tail : InOrder tstamp (evs ++ rest i (m.gens i)) = (unfold InOrder in here.2) in
            rw (advanced_left j, s) tail
        | inr s ↦ rw (advanced_left j, s) (r.in_order j l)
      ];
    }

    advanced-Merges :
        (xs : List Ev) (after : ℕ → List Ev)
        → Merges tstamp n (left advanced) xs after
        → Merges tstamp n (left m) (ev ∷ xs) after
    advanced-Merges xs after k =
        Merges.next i ev (evs ++ rest i (m.gens i)) popped.0 left_here ev-IsLeast
          (Merges-from tstamp n (λ j l. sym (advanced_left j)) k)

  -- A round of the loop, whose other rounds are correct.
  round-Looped :
      (k : ℕ) (next : Muxer Ev G → List Ev × Muxer Ev G) (m : Muxer Ev G) (i : ℕ) (pq : PrioQueue)
      (evs : List Ev)
      → ((m : Muxer Ev G) → IsRunning none_waits m → n ≤ m.pending_gen_i → Looped k m (next m))
      → IsRunning none_waits m
      → n ≤ m.pending_gen_i
      → buffered m i ≡ evs
      → Popped tstamp n (buffered m) i pq evs
      → Looped (suc k) m (round tstamp gen next m i pq evs)
  round-Looped k next m i pq [] f r h e p = absurd p
  round-Looped k next m i pq (ev ∷ []) f r h e p =
      let running = advanced-IsRunning m i pq ev [] i r e p in
      record {
        running = running (λ j. i == j) (λ d. absurd (ground arith)) (λ j d. (ground arith, refl));
        merges = advanced-Merges m i pq ev [] i r e p [] _ (Merges.stop (λ j l. refl));
        ends = λ z. absurd (cons≢nil z);
        same_state = refl;
      }
  round-Looped k next m i pq (ev ∷ x ∷ xs) f r h e p =
      let running =
        advanced-IsRunning m i pq ev (x ∷ xs) m.pending_gen_i r e p none_waits (λ d z. cons≢nil z)
          (λ j d. cc) in
      let l = f (advance tstamp m i pq (x ∷ xs)) running h in
      record {
        running = l.running;
        merges = advanced-Merges m i pq ev (x ∷ xs) m.pending_gen_i r e p _ _ l.merges;
        ends = λ z. absurd (cons≢nil z);
        same_state = l.same_state;
      }

  pub mux_loop-Looped :
      (k : ℕ) (m : Muxer Ev G)
      → IsRunning none_waits m
      → n ≤ m.pending_gen_i
      → Looped k m (mux_loop tstamp gen k m)
  unfolding mux_loop
  mux_loop-Looped zero m r h = record {
    running = idle_pending m h r;
    merges = Merges.stop (λ j l. refl);
    ends = λ z l. absurd (omega arith);
    same_state = refl;
  }
  mux_loop-Looped (suc k) m r h = elim (Bool-cases (len m.pq == 0)) [
    | inl e ↦ rw e (record {
      running = idle_pending m h r;
      merges = Merges.stop (λ j l. refl);
      ends = λ z p j l.
          let none = no_buffer_left tstamp n m.pq (buffered m) r.holds (ground arith) j l in
          rw (none, r.drained j l refl none) refl;
      same_state = refl;
    })
    | inr e ↦ rw e (
        round-Looped k (λ m. mux_loop tstamp gen k m) m _ _ _ (mux_loop-Looped k) r h refl
          (pop-Popped tstamp n m.pq (buffered m) r.holds (ground arith)))
  ]
