-- ===== src/Muxer/Start.antt =====
-- Buffers that are filled: one generator's, all of them at the start, and the pending one's.
use mathlib.Core.List.{cons≢nil}
use actf.Common.{
  ℕ, zero, suc, ◌+◌, ◌≤◌, ◌<◌, ◌≡◌, refl, sym, ◌∙◌, inl, inr, Bool, true, false, Bool-cases, leb,
  ◌==◌, if◌then◌else◌, List, [], ◌∷◌, ◌++◌, arith,
}
use actf.Common.Int.{ℤ}
use actf.Common.Writes.{write}
use actf.Types.{Rc, Result, ok, err, then_ok}
use actf.EventGenerator.{EventGenerator, Piece, Generated, Gives}
use actf.Muxer.{
  Muxer, failed, buffered, fresh_evs, push_fresh_evs_to_pq, bootstrap, push_pending,
  set_no_pending_gen, has_pending_gen,
}
use actf.Muxer.Holds.{Holds, Holds-ext, push_next-Holds}
use actf.Muxer.Merge.{Same}
use actf.Muxer.Loop.{left, IsRunning, IsRunning-as, none_waits, pending}

module _ {Ev G : Type 0} (tstamp : Ev → ℤ) (gen : EventGenerator Ev G) (IsLive : ℕ → G → Type 0)
    (rest : ℕ → G → List Ev) (n : ℕ) where
  abbrev Running : (ℕ → Bool) → Muxer Ev G → Type 0
  Running w m = IsRunning tstamp gen IsLive rest n w m

  abbrev to_come : Muxer Ev G → ℕ → List Ev
  to_come m = left tstamp gen IsLive rest n m

  abbrev pub clear : (ℕ → Bool) → ℕ → ℕ → Bool
  clear w i j = if i == j then false else w j

  -- The muxer has failed with the code of a generator.
  abbrev pub Fails : Rc → Muxer Ev G → Type 0
  Fails rc m =
      (m.state ≡ failed)
      × ((i : ℕ) × (g : G) × (i < n) × IsLive i g × ((gen.generate g).0 ≡ err rc))

  -- Where the call succeeds, the muxer runs on with the same events to come.
  abbrev pub Started : (ℕ → Bool) → Muxer Ev G → Result (Unit {0}) × Muxer Ev G → Type 0
  Started w m (ok u, m') =
      Running w m'
      × Same tstamp n (to_come m') (to_come m)
      × (m'.pending_gen_i ≡ m.pending_gen_i)
      × (m'.state ≡ m.state)
  Started w m (err rc, m') = Fails rc m'

  Piece-split : (evs before after : List Ev) → Piece tstamp evs before after → before ≡ evs ++ after
  Piece-split [] before after (b, a) = b ∙ sym a
  Piece-split (ev ∷ evs) before after e = e

  Piece-end : (evs before after : List Ev) → Piece tstamp evs before after → evs ≡ [] → after ≡ []
  Piece-end [] before after (b, a) z = a
  Piece-end (ev ∷ evs) before after e z = absurd (cons≢nil z)

  fresh_evs-Started :
      (w : ℕ → Bool) (m : Muxer Ev G) (i : ℕ) (p : Result (List Ev) × G)
      → Running w m
      → i < n
      → w i ≡ true
      → (gen.generate (m.gens i)).0 ≡ p.0
      → Generated tstamp (IsLive i) (rest i) (rest i (m.gens i)) p
      → Started (clear w i) m (fresh_evs tstamp m i p)
  fresh_evs-Started w m i (err rc, g) r l e c h = (refl, (i, m.gens i, l, r.live i l, c))
  fresh_evs-Started w m i (ok evs, g) r l e c (live, piece) =
      let m' = (fresh_evs tstamp m i (ok evs, g)).1 in
      let buffers : (j : ℕ) → buffered m' j ≡ write (buffered m) i evs j =
        λ j. elim (Bool-cases (i == j)) [ inl d ↦ rw d refl | inr d ↦ rw d refl ] in
      let none = r.empty i l e in
      let split = Piece-split evs (rest i (m.gens i)) (rest i g) piece in
      let same : (j : ℕ) → to_come m' j ≡ to_come m j = λ j. elim (Bool-cases (i == j)) [
        | inl d ↦ let here : j ≡ i = ground arith in rw (d, here, none) (sym split)
        | inr d ↦ rw d refl
      ] in
      let before : Holds tstamp n m.pq (write (buffered m) i []) =
        Holds-ext tstamp n (buffered m) (write (buffered m) i [])
          (λ j k. elim (Bool-cases (i == j)) [
            | inl d ↦ let here : j ≡ i = ground arith in rw (d, here, none) refl
            | inr d ↦ rw d refl
          ])
          r.holds in
      (
        record {
          size = r.size;
          room = r.room;
          live = λ j k. elim (Bool-cases (i == j)) [
            | inl d ↦ let here : j ≡ i = ground arith in rw (d, here) live
            | inr d ↦ rw d (r.live j k)
          ];
          holds =
              Holds-ext tstamp n (write (buffered m) i evs) (buffered m') (λ j k. buffers j)
                (push_next-Holds tstamp n m.pq (buffered m) i evs l before);
          drained = λ j k c z. elim (Bool-cases (i == j)) [
            | inl d ↦
                let here : j ≡ i = ground arith in
                let empty : evs ≡ [] = rw d at (sym (buffers j) ∙ z) in
                rw (d, here) (Piece-end evs (rest i (m.gens i)) (rest i g) piece empty)
            | inr d ↦ rw d (r.drained j k (rw d at c) (rw d at z))
          ];
          empty = λ j k c. elim (Bool-cases (i == j)) [
            | inl d ↦ absurd (let c' = rw d at c in cc)
            | inr d ↦ rw d (r.empty j k (rw d at c))
          ];
          in_order = λ j k. rw (same j) (r.in_order j k);
        },
        λ j k. same j,
        refl,
        refl,
      )

  module _ (events : ℕ → List Ev)
      (gives : (i : ℕ) → Gives tstamp gen (events i) (IsLive i) (rest i)) where
    pub push_fresh-Started :
        (w : ℕ → Bool) (m : Muxer Ev G) (i : ℕ)
        → Running w m
        → i < n
        → w i ≡ true
        → Started (clear w i) m (push_fresh_evs_to_pq tstamp gen m i)
    unfolding push_fresh_evs_to_pq
    push_fresh-Started w m i r l e =
        fresh_evs-Started w m i (gen.generate (m.gens i)) r l e refl
          ((gives i).generates (m.gens i) (r.live i l))

    -- A call that succeeds, and what follows.
    Started-then :
        (v w : ℕ → Bool) (m : Muxer Ev G) (p : Result (Unit {0}) × Muxer Ev G)
        (f : Muxer Ev G → Result (Unit {0}) × Muxer Ev G)
        → Started v m p
        → ((m' : Muxer Ev G) → Running v m' → Started w m' (f m'))
        → Started w m (then_ok p f)
    Started-then v w m (err rc, m') f s g = s
    Started-then v w m (ok u, m') f (r, same, pend, st) g =
        Started-from m m' same pend st w (f m') (g m' r)
      where
        Started-from :
            (m m' : Muxer Ev G)
            → Same tstamp n (to_come m') (to_come m)
            → m'.pending_gen_i ≡ m.pending_gen_i
            → m'.state ≡ m.state
            → (w : ℕ → Bool) (p : Result (Unit {0}) × Muxer Ev G) → Started w m' p
            → Started w m p
        Started-from m m' same pend st w (err rc, q) s = s
        Started-from m m' same pend st w (ok u, q) (r, same', pend', st') =
            (r, λ j k. same' j k ∙ same j k, pend' ∙ pend, st' ∙ st)

    -- The start fills the buffers from `i` on.
    pub bootstrap-Started :
        (k i : ℕ) (m : Muxer Ev G)
        → i + k ≡ n
        → Running (λ j. leb i j) m
        → Started none_waits m (bootstrap tstamp gen k i m)
    unfolding bootstrap
    bootstrap-Started zero i m e r = (
      IsRunning-as tstamp gen IsLive rest n _ _ m (λ j l. ground (arith, e, l)) r,
      λ j l. refl,
      refl,
      refl,
    )
    bootstrap-Started (suc k) i m e r =
        Started-then (clear (λ j. leb i j) i) none_waits m _ _
          (push_fresh-Started _ m i r (omega arith) (ground arith))
          (λ m' r'.
            bootstrap-Started k (suc i) m' (omega arith)
              (IsRunning-as tstamp gen IsLive rest n _ _ m' (λ j l. ground arith) r'))

    -- No generator is pending.
    abbrev pub Ready : Muxer Ev G → Result (Unit {0}) × Muxer Ev G → Type 0
    Ready m (ok u, m') =
        Running none_waits m'
        × Same tstamp n (to_come m') (to_come m)
        × (n ≤ m'.pending_gen_i)
        × (m'.state ≡ m.state)
    Ready m (err rc, m') = Fails rc m'

    not_pending :
        (m : Muxer Ev G) (p : Result (Unit {0}) × Muxer Ev G)
        → Started (clear (pending m) m.pending_gen_i) m p
        → Ready m (then_ok p (λ m. (ok tt, set_no_pending_gen m)))
    not_pending m (err rc, m') s = s
    not_pending m (ok u, m') (r, same, pend, st) =
        let r' = IsRunning-as tstamp gen IsLive rest n _ none_waits m' (λ j l. ground arith) r in
        (
          record {
            size = r'.size;
            room = r'.room;
            live = r'.live;
            holds = r'.holds;
            drained = r'.drained;
            empty = r'.empty;
            in_order = r'.in_order;
          },
          same,
          omega (arith, r.size),
          st,
        )

    pub push_pending-Ready :
        (m : Muxer Ev G) → Running (pending m) m → Ready m (push_pending tstamp gen m)
    unfolding push_pending
    push_pending-Ready m r = elim (Bool-cases (has_pending_gen m)) [
      | inl e ↦ rw e (
          not_pending m _
            (push_fresh-Started _ m m.pending_gen_i r (ground (arith, e, r.size)) (ground arith)))
      | inr e ↦ rw e (
        IsRunning-as tstamp gen IsLive rest n _ none_waits m (λ j l. ground (arith, e, l, r.size))
            r,
        λ j l. refl,
        ground (arith, e, r.size),
        refl,
      )
    ]
