-- ===== src/Muxer/Whole.antt =====
-- A client that reads a muxer to its end.
use mathlib.Core.Path.{subst}
use mathlib.Core.List.{Perm, append-nil}
use actf.Common.{ℕ, zero, suc, ◌<◌, refl, ◌∙◌, List, [], ◌∷◌, arith}
use actf.Common.Int.{ℤ}
use actf.Common.Lists.{length, length-append}
use actf.Common.Arrays.{length-Perm}
use actf.Types.{Result, ok, err}
use actf.EventGenerator.{EventGenerator, InOrder, Gives}
use actf.EventGenerator.Collect.{IsOk, NeverFails, collected, collect}
use actf.Muxer.{Muxer, init, mux, to_generator}
use actf.Muxer.Merge.{Merges, Merges-append, Merges-InOrder, Merges-Perm, flat, flat_none}
use actf.Muxer.Refines.{muxer_rest, IsLiveMuxer, Muxed, mux-Muxed}
use actf.Muxer.Seek.{SoughtAll, seek-SoughtAll, init-IsLiveMuxer}

module _ {Ev G : Type 0} (tstamp : Ev → ℤ) (gen : EventGenerator Ev G) (IsLive : ℕ → G → Type 0)
    (rest : ℕ → G → List Ev) (n : ℕ) (events : ℕ → List Ev)
    (gives : (i : ℕ) → Gives tstamp gen (events i) (IsLive i) (rest i))
    (safe : (i : ℕ) → NeverFails gen (IsLive i)) where
  abbrev Live : Muxer Ev G → Type 0
  Live m = IsLiveMuxer tstamp gen IsLive rest n m

  abbrev to_come : Muxer Ev G → ℕ → List Ev
  to_come m = muxer_rest tstamp gen IsLive rest n m

  Muxed-IsOk :
      (m : Muxer Ev G) (p : Result (List Ev) × Muxer Ev G)
      → Muxed tstamp gen IsLive rest n m p
      → IsOk p.0
  Muxed-IsOk m (ok evs, m') h = tt
  Muxed-IsOk m (err rc, m') (st, (i, g, l, a, e)) = subst IsOk e ((safe i).generate_ok g a)

  SoughtAll-IsOk :
      (t : ℤ) (p : Result (Unit {0}) × Muxer Ev G)
      → SoughtAll tstamp gen IsLive rest n events gives t p
      → IsOk p.0
  SoughtAll-IsOk t (ok u, m') h = tt
  SoughtAll-IsOk t (err rc, m') (st, (i, g, l, a, e)) = subst IsOk e ((safe i).seek_ok g t a)

  -- A muxer over generators that never fail never fails.
  pub muxer_never_fails : NeverFails (to_generator tstamp gen) Live
  unfolding to_generator
  muxer_never_fails = record {
    generate_ok = λ m l.
        Muxed-IsOk m (mux tstamp gen m) (mux-Muxed tstamp gen IsLive rest n events gives m l);
    seek_ok =
        λ m t l. SoughtAll-IsOk t _ (seek-SoughtAll tstamp gen IsLive rest n events gives m t l);
  }

  abbrev none : ℕ → List Ev
  none i = []

  abbrev read : ℕ → Muxer Ev G → List Ev
  read k m = collect (to_generator tstamp gen) k m

  collected-Merges :
      (k : ℕ) (m : Muxer Ev G) (p : Result (List Ev) × Muxer Ev G)
      → ((m : Muxer Ev G)
          → Live m
          → length (flat (to_come m) n) < k
          → Merges tstamp n (to_come m) (read k m) none)
      → length (flat (to_come m) n) < suc k
      → Muxed tstamp gen IsLive rest n m p
      → IsOk p.0
      → Merges tstamp n (to_come m) (collected (λ m. read k m) p) none
  collected-Merges k m (err rc, m') f l h i = absurd i
  collected-Merges k m (ok [], m') f l (live, s, e) i = Merges.stop (λ j a. e refl j a)
  collected-Merges k m (ok (ev ∷ evs), m') f l (live, s, e) i =
      let size =
        length-Perm (Merges-Perm tstamp n s) ∙ length-append (ev ∷ evs) (flat (to_come m') n) in
      Merges-append tstamp n s (f m' live (omega (arith, size)))

  read-Merges :
      (k : ℕ) (m : Muxer Ev G)
      → Live m
      → length (flat (to_come m) n) < k
      → Merges tstamp n (to_come m) (read k m) none
  unfolding collect to_generator
  read-Merges zero m a l = absurd (omega arith)
  read-Merges (suc k) m a l =
      let h = mux-Muxed tstamp gen IsLive rest n events gives m a in
      collected-Merges k m (mux tstamp gen m) (read-Merges k) l h (Muxed-IsOk m _ h)

  -- With more calls than there are events, a client of a new muxer over generators that are live
  -- and never fail reads the events of all of them, merged by their time stamps: in order, and each
  -- one as often as the generators give it.
  pub read-merged :
      (gens : ℕ → G) (evs_cap k : ℕ)
      → ((i : ℕ) → i < n → IsLive i (gens i))
      → length (flat (λ i. rest i (gens i)) n) < k
      → Merges tstamp n (λ i. rest i (gens i)) (read k (init gens n evs_cap)) none
        × InOrder tstamp (read k (init gens n evs_cap))
        × Perm (flat (λ i. rest i (gens i)) n) (read k (init gens n evs_cap))
  unfolding init
  read-merged gens evs_cap k a l =
      let m = init {Ev = Ev} gens n evs_cap in
      let s =
        read-Merges k m (init-IsLiveMuxer tstamp gen IsLive rest n events gives gens evs_cap a) l in
      let perm = Merges-Perm tstamp n s in
      (
        s,
        Merges-InOrder tstamp n s (λ i b. (gives i).in_order (gens i) (a i b)),
        rw (flat_none n, append-nil (read k m)) at perm,
      )
