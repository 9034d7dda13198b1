-- ===== src/PrioQueue/Ends.antt =====
-- The loops that restore the heap end, from any array and at any index in it.
use mathlib.Core.List.{Perm}
use mathlib.Core.List.Perm
use actf.Common.{
  ℕ, zero, suc, ◌+◌, ◌<◌, ◌≡◌, refl, Bool-cases, inl, inr, ◌==◌, true, false, List, Option, some,
  arith,
}
use actf.Common.Int.{leb_ℤ}
use actf.Common.Lists.{length}
use actf.Common.Arrays.{exchange, length-exchange, exchange-Perm}
use actf.PrioQueue.{
  Node, no_node, key_at, parent, smallest, bottomup_loop, bottomup_fix_heap, topdown_loop,
  topdown_fix_heap, result,
}
use actf.PrioQueue.Pop.{smallest-IsSmallest}

-- The loops reach their end with the same nodes, whatever fuel above the bound they have.
abbrev Ends : List Node → Option (List Node) → Option (List Node) → Type 0
Ends before end more =
    (after : List Node) × (end ≡ some after) × (more ≡ some after) × Perm after before

bottomup_loop-Ends :
    (n m : ℕ) (nodes : List Node) (i : ℕ)
    → i < n
    → i < m
    → i < length nodes
    → Ends nodes (bottomup_loop n nodes i) (bottomup_loop m nodes i)
unfolding bottomup_loop
bottomup_loop-Ends zero m nodes i f g q = absurd (omega arith)
bottomup_loop-Ends (suc n) zero nodes i f g q = absurd (omega arith)
bottomup_loop-Ends (suc n) (suc m) nodes i f g q = elim (Bool-cases (i == 0)) [
  | inl e ↦ rw e (nodes, refl, refl, Perm.rfl)
  | inr e ↦ elim (Bool-cases (leb_ℤ (key_at nodes (parent i)) (key_at nodes i))) [
    | inl d ↦ rw (e, d) (nodes, refl, refl, Perm.rfl)
    | inr d ↦
        let above : parent i < length nodes = ground arith in
        let size = length-exchange no_node nodes i (parent i) in
        let (out, done, more, perm) =
          bottomup_loop-Ends n m (exchange no_node nodes i (parent i)) (parent i) (ground arith)
            (ground arith) (omega (arith, size, above)) in
        rw (e, d)
          (out, done, more, Perm.trans perm (exchange-Perm no_node nodes i (parent i) q above))
  ]
]

topdown_loop-Ends :
    (n m : ℕ) (nodes : List Node) (i : ℕ)
    → length nodes < n + i
    → 0 < n
    → length nodes < m + i
    → 0 < m
    → Ends nodes (topdown_loop n nodes i) (topdown_loop m nodes i)
unfolding topdown_loop
topdown_loop-Ends zero m nodes i f p g q = absurd (omega arith)
topdown_loop-Ends (suc n) zero nodes i f p g q = absurd (omega arith)
topdown_loop-Ends (suc n) (suc m) nodes i f p g q =
    let k = smallest nodes i in
    elim (smallest-IsSmallest nodes i).child [
      | inl e ↦
          let stop : (k == i) ≡ true = ground (arith, e) in rw stop (nodes, refl, refl, Perm.rfl)
      | inr (lt, inside, par) ↦
          let go : (k == i) ≡ false = ground (arith, lt) in
          let size = length-exchange no_node nodes i k in
          let (out, done, more, perm) =
            topdown_loop-Ends n m (exchange no_node nodes i k) k (omega (arith, size)) (omega arith)
              (omega (arith, size)) (omega arith) in
          rw go (
            out,
            done,
            more,
            Perm.trans perm (exchange-Perm no_node nodes i k (omega arith) inside),
          )
    ]

-- A loop that ends gives its result.
abbrev pub GivesNodes : List Node → Option (List Node) → List Node → Type 0
GivesNodes before end after = (end ≡ some after) × Perm after before

ended-GivesNodes :
    (nodes : List Node) (end more : Option (List Node))
    → Ends nodes end more
    → GivesNodes nodes more (result nodes end)
ended-GivesNodes nodes end more (after, e, m, perm) = rw (e, m) (refl, perm)

-- From any array, in heap order or not, and any index in it, both loops reach their break or the end of their condition: going up within as many rounds as the index plus one, going down within as many as there are nodes plus one. With these or more rounds they give the nodes that the routines leave, which are the same nodes in another order.
pub fix_heap-GivesNodes :
    (nodes : List Node) (i k : ℕ)
    → i < length nodes
    → GivesNodes nodes (bottomup_loop (i + 1 + k) nodes i) (bottomup_fix_heap nodes i)
      × GivesNodes nodes (topdown_loop (length nodes + 1 + k) nodes i) (topdown_fix_heap nodes i)
unfolding bottomup_fix_heap topdown_fix_heap
fix_heap-GivesNodes nodes i k q = (
  ended-GivesNodes nodes _ _
      (bottomup_loop-Ends (i + 1) (i + 1 + k) nodes i (omega arith) (omega arith) q),
  ended-GivesNodes nodes _ _ (
      topdown_loop-Ends (length nodes + 1) (length nodes + 1 + k) nodes i (omega arith)
        (omega arith) (omega arith) (omega arith)),
)
