-- ===== src/Muxer/Queued.antt =====
-- The nodes that the queue of a muxer holds: one for each buffer that has events left.
use mathlib.Core.Path.{subst}
use mathlib.Core.Logic.{∥∥₁_elim}
use mathlib.Core.HLevel.{×_prop}
use mathlib.Core.List.{Mem, Memᴰ, Perm, mem-cons_self}
use mathlib.Core.List.Perm
use native.Mathlib.Bridge.{le_prop}
use actf.Common.{
  ℕ, zero, suc, ◌≤◌, ◌<◌, ◌≡◌, refl, sym, inl, inr, Bool-cases, ◌==◌, List, [], ◌∷◌, arith,
}
use actf.Common.Int.{ℤ, ◌≤ℤ◌}
use actf.Common.Lists.{length}
use actf.Common.Writes.{write}
use actf.PrioQueue.{Node}

module _ {Ev : Type 0} (tstamp : Ev → ℤ) where
  abbrev pub node_of : Ev → ℕ → Node
  node_of ev i = record { key = tstamp ev; value = i }

  abbrev pub with_head : ℕ → List Ev → List Node → List Node
  with_head i [] nodes = nodes
  with_head i (ev ∷ evs) nodes = node_of ev i ∷ nodes

  unfoldable pub queued : (ℕ → List Ev) → ℕ → List Node
  queued b zero = []
  queued b (suc n) = with_head n (b n) (queued b n)

  pub queued_ext :
      (b c : ℕ → List Ev) (n : ℕ) → ((i : ℕ) → i < n → b i ≡ c i) → queued b n ≡ queued c n
  unfolding queued
  queued_ext b c zero h = refl
  queued_ext b c (suc n) h =
      rw (h n (omega arith), queued_ext b c n (λ i l. h i (omega arith))) refl

  length-with_head :
      (i : ℕ) (evs : List Ev) (nodes : List Node)
      → length (with_head i evs nodes) ≤ suc (length nodes)
  length-with_head i [] nodes = omega arith
  length-with_head i (ev ∷ evs) nodes = omega arith

  pub length-queued : (b : ℕ → List Ev) (n : ℕ) → length (queued b n) ≤ n
  unfolding queued
  length-queued b zero = omega arith
  length-queued b (suc n) = omega (arith, length-with_head n (b n) (queued b n), length-queued b n)

  with_head-Perm :
      (i : ℕ) (evs : List Ev) (x : Node) (xs ys : List Node)
      → Perm xs (x ∷ ys)
      → Perm (with_head i evs xs) (x ∷ with_head i evs ys)
  with_head-Perm i [] x xs ys p = p
  with_head-Perm i (ev ∷ evs) x xs ys p =
      Perm.trans (Perm.cons (node_of ev i) p) (Perm.swap x (node_of ev i) ys)

  -- A buffer that has events left adds its node.
  pub queued-write :
      (b : ℕ → List Ev) (n v : ℕ) (ev : Ev) (evs : List Ev)
      → v < n
      → Perm (queued (write b v (ev ∷ evs)) n) (node_of ev v ∷ queued (write b v []) n)
  unfolding queued
  queued-write b zero v ev evs h = absurd (omega arith)
  queued-write b (suc n) v ev evs h = elim (Bool-cases (v == n)) [
    | inl e ↦
        let same : v ≡ n = ground arith in
        let others : queued (write b v (ev ∷ evs)) n ≡ queued (write b v []) n =
          queued_ext _ _ n (λ i l. ground arith) in
        let nodes = queued (write b v []) n in
        rw (e, others)
          (subst (λ k. Perm (node_of ev k ∷ nodes) (node_of ev v ∷ nodes)) same Perm.rfl)
    | inr e ↦ rw e (with_head-Perm n (b n) _ _ _ (queued-write b n v ev evs (ground arith)))
  ]

  -- A node of the queue is that of the first event in its buffer.
  abbrev pub IsHead : Node → List Ev → Type 0
  IsHead x [] = ⊥
  IsHead x (ev ∷ evs) = (x.key ≤ℤ tstamp ev) × (tstamp ev ≤ℤ x.key)

  IsHead-prop : (x : Node) (evs : List Ev) → IsProp (IsHead x evs)
  IsHead-prop x [] = λ a b. absurd a
  IsHead-prop x (ev ∷ evs) = ×_prop le_prop le_prop

  abbrev pub IsQueued : Node → (ℕ → List Ev) → ℕ → Type 0
  IsQueued x b n = (x.value < n) × IsHead x (b x.value)

  node-IsQueued :
      (b : ℕ → List Ev) (n : ℕ) (x : Node) (evs : List Ev) (nodes : List Node)
      → b n ≡ evs
      → (Memᴰ x nodes → IsQueued x b n)
      → Memᴰ x (with_head n evs nodes)
      → IsQueued x b (suc n)
  node-IsQueued b n x [] nodes e f m = let (l, h) = f m in (omega arith, h)
  node-IsQueued b n x (ev ∷ evs) nodes e f (Memᴰ.head d) =
      rw (d, e) (omega arith, (omega arith, omega arith))
  node-IsQueued b n x (ev ∷ evs) nodes e f (Memᴰ.tail m) = let (l, h) = f m in (omega arith, h)

  mem-IsQueued : (b : ℕ → List Ev) (n : ℕ) (x : Node) → Memᴰ x (queued b n) → IsQueued x b n
  unfolding queued
  mem-IsQueued b zero x m = elim m [ ]
  mem-IsQueued b (suc n) x m = node-IsQueued b n x (b n) _ refl (mem-IsQueued b n x) m

  pub Mem-IsQueued : (b : ℕ → List Ev) (n : ℕ) (x : Node) → Mem x (queued b n) → IsQueued x b n
  Mem-IsQueued b n x m =
      ∥∥₁_elim m (×_prop le_prop (IsHead-prop x (b x.value))) (mem-IsQueued b n x)

  -- The node of a buffer that has events left is in the queue.
  pub Mem-queued :
      (b : ℕ → List Ev) (n i : ℕ) (ev : Ev) (evs : List Ev)
      → i < n
      → b i ≡ ev ∷ evs
      → Mem (node_of ev i) (queued b n)
  Mem-queued b n i ev evs l e =
      let p = queued-write b n i ev evs l in
      let same : queued (write b i (ev ∷ evs)) n ≡ queued b n =
        queued_ext _ _ n (λ j k. ground (arith, e, sym e)) in
      (Perm.mem_iff (rw same at p)).1 mem-cons_self

  -- No buffer has events left.
  pub queued_none : (b : ℕ → List Ev) (n : ℕ) → ((i : ℕ) → i < n → b i ≡ []) → queued b n ≡ []
  unfolding queued
  queued_none b zero h = refl
  queued_none b (suc n) h = rw (h n (omega arith)) (queued_none b n (λ i l. h i (omega arith)))
