-- ===== src/PrioQueue/Push.antt =====
-- prio_queue_push_unchecked keeps the heap.
use mathlib.Core.List.{Perm}
use mathlib.Core.List.Perm
use actf.Common.{
  ℕ, zero, suc, ◌+◌, ◌<◌, ◌≢◌, refl, Bool-cases, inl, inr, ◌==◌, List, [], ◌∷◌, ◌++◌, arith,
}
use actf.Common.Int.{◌≤ℤ◌, ◌<ℤ◌, leb_ℤ}
use actf.Common.Lists.{length, length-append}
use actf.Common.Arrays.{
  exchange, length-exchange, get_or-exchange, exchange-Perm, get_or-append_left, last-Perm,
  length-Perm,
}
use actf.PrioQueue.{
  Node, PrioQueue, len, no_node, key_at, parent, bottomup_loop, bottomup_fix_heap, push_unchecked,
}
use actf.PrioQueue.Order.{IsHeap, IsBridged, EndsFixed, result-Fixed, IsValid}

-- Only the edge above `i` may be out of order.
record IsRising (nodes : List Node) (i : ℕ) : Type 0 where
  inside : i < length nodes
  edges : (c : ℕ) → 0 < c → c < length nodes → c ≢ i → key_at nodes (parent c) ≤ℤ key_at nodes c
  bridged : IsBridged nodes i

exchange-IsRising :
    (nodes : List Node) (i : ℕ)
    → IsRising nodes i
    → 0 < i
    → key_at nodes i <ℤ key_at nodes (parent i)
    → IsRising (exchange no_node nodes i (parent i)) (parent i)
exchange-IsRising nodes i v p below =
    let above : parent i < length nodes = grind (arith, v.inside) in
    let size = length-exchange no_node nodes i (parent i) in
    let at = get_or-exchange no_node nodes i (parent i) v.inside above in
    record {
      inside = rw size above;
      edges = λ c q r t. ground (arith, size, at c, at (parent c), v.edges c, v.bridged c);
      bridged = λ c q r t u.
          ground (arith, size, at c, at (parent (parent i)), v.edges c, v.edges (parent i));
    }

bottomup_loop-Fixed :
    (n : ℕ) (nodes : List Node) (i : ℕ)
    → i < n
    → IsRising nodes i
    → EndsFixed nodes (bottomup_loop n nodes i)
unfolding bottomup_loop
bottomup_loop-Fixed zero nodes i f v = absurd (omega arith)
bottomup_loop-Fixed (suc n) nodes i f v = elim (Bool-cases (i == 0)) [
  | inl e ↦ rw e (nodes, refl, (λ c p q. v.edges c p q (ground arith), Perm.rfl))
  | inr e ↦ elim (Bool-cases (leb_ℤ (key_at nodes (parent i)) (key_at nodes i))) [
    | inl d ↦ rw (e, d) (nodes, refl, (λ c p q. ground (arith, v.edges c), Perm.rfl))
    | inr d ↦
        let above : parent i < length nodes = ground (arith, v.inside) in
        let (out, done, (h, perm)) =
          bottomup_loop-Fixed n (exchange no_node nodes i (parent i)) (parent i) (ground arith)
            (exchange-IsRising nodes i v (ground arith) (ground arith)) in
        rw (e, d)
          (
            out,
            done,
            (h, Perm.trans perm (exchange-Perm no_node nodes i (parent i) v.inside above)),
          )
  ]
]

appended-IsRising :
    (nodes : List Node) (n : Node) → IsHeap nodes → IsRising (nodes ++ n ∷ []) (length nodes)
appended-IsRising nodes n h =
    let size = length-append nodes (n ∷ []) in
    let old = get_or-append_left nodes (n ∷ []) in
    record {
      inside = omega (arith, size);
      edges = λ c p q r.
          let below : c < length nodes = omega (arith, size, q, r) in
          ground (arith, h c p below, old c no_node below, old (parent c) no_node (omega arith));
      bridged = λ c p q r t. absurd (omega (arith, size));
    }

-- A push below the capacity keeps the queue valid and adds the node to its contents.
pub push_unchecked-IsValid :
    (pq : PrioQueue) (n : Node)
    → IsValid pq
    → len pq < pq.cap
    → IsValid (push_unchecked pq n) × Perm (push_unchecked pq n).nodes (n ∷ pq.nodes)
unfolding push_unchecked bottomup_fix_heap
push_unchecked-IsValid pq n v room =
    let (h, perm) = result-Fixed _ _ (
      bottomup_loop-Fixed (len pq + 1) (pq.nodes ++ n ∷ []) (len pq) (omega arith)
        (appended-IsRising pq.nodes n v.heap)) in
    let whole = Perm.trans perm (last-Perm pq.nodes n) in
    (record { heap = h; fits = omega (arith, length-Perm whole) }, whole)
