-- ===== src/PrioQueue/Pop.antt =====
-- prio_queue_pop_unchecked gives a node with the least key and keeps the heap.
use mathlib.Core.List.{Mem, Perm}
use mathlib.Core.List.Perm
use actf.Common.{
  ℕ, zero, suc, ◌+◌, ◌-◌, ◌*◌, ◌<◌, ◌≡◌, ◌≢◌, refl, ◌∙◌, true, false, inl, inr, ◌⊎◌, ◌==◌, List, [],
  ◌∷◌, ◌++◌, arith,
}
use actf.Common.Int.{◌≤ℤ◌}
use actf.Common.Lists.{length}
use actf.Common.Arrays.{
  set, take, exchange, length-set, length-take, get_or-set, get_or-take, take-last, set-Perm,
  last-Perm, length-exchange, get_or-exchange, exchange-Perm, length-Perm,
}
use actf.PrioQueue.{
  Node, PrioQueue, len, no_node, node_at, key_at, parent, smallest, topdown_loop, topdown_fix_heap,
  pop_unchecked,
}
use actf.PrioQueue.Order.{IsHeap, IsBridged, EndsFixed, result-Fixed, IsValid, root_least}

-- Only the edges below `i` may be out of order.
record IsSinking (nodes : List Node) (i : ℕ) : Type 0 where
  edges :
      (c : ℕ) → 0 < c → c < length nodes → parent c ≢ i → key_at nodes (parent c) ≤ℤ key_at nodes c
  bridged : IsBridged nodes i

-- The least of a node and its children.
pub record IsSmallest (nodes : List Node) (i m : ℕ) : Type 0 where
  pub least : (c : ℕ) → 0 < c → c < length nodes → parent c ≡ i → key_at nodes m ≤ℤ key_at nodes c
  pub no_more : key_at nodes m ≤ℤ key_at nodes i
  pub child : (m ≡ i) ⊎ (i < m) × (m < length nodes) × (parent m ≡ i)

pub smallest-IsSmallest : (nodes : List Node) (i : ℕ) → IsSmallest nodes i (smallest nodes i)
smallest-IsSmallest nodes i = record {
  least = λ c p q r.
      let which : (c ≡ 2 * i + 1) ⊎ (c ≡ 2 * i + 2) = omega arith in
      elim which [ inl e ↦ rw e (ground arith) | inr e ↦ rw e (ground arith) ];
  no_more = ground arith;
  child = ground arith;
}

exchange-IsSinking :
    (nodes : List Node) (i m : ℕ)
    → IsSinking nodes i
    → IsSmallest nodes i m
    → i < m
    → m < length nodes
    → parent m ≡ i
    → IsSinking (exchange no_node nodes i m) m
exchange-IsSinking nodes i m v s lt inside par =
    let size = length-exchange no_node nodes i m in
    let at = get_or-exchange no_node nodes i m (omega arith) inside in
    record {
      edges = λ c p q r.
          ground (arith, size, at c, at (parent c), v.edges c, v.bridged m, s.least c, s.no_more);
      bridged = λ c p q r t. ground (arith, size, at c, at (parent m), v.edges c);
    }

topdown_loop-Fixed :
    (n : ℕ) (nodes : List Node) (i : ℕ)
    → length nodes < n + i
    → 0 < n
    → IsSinking nodes i
    → EndsFixed nodes (topdown_loop n nodes i)
unfolding topdown_loop
topdown_loop-Fixed zero nodes i f p v = absurd (omega arith)
topdown_loop-Fixed (suc n) nodes i f p v =
    let m = smallest nodes i in
    let s = smallest-IsSmallest nodes i in
    elim s.child [
      | inl e ↦
          let stop : (m == i) ≡ true = ground (arith, e) in
          let least = rw e at s.least in
          rw stop (nodes, refl, (λ c p q. ground (arith, v.edges c, s.least c, e), Perm.rfl))
      | inr (lt, inside, par) ↦
          let go : (m == i) ≡ false = ground (arith, lt) in
          let size = length-exchange no_node nodes i m in
          let (out, done, (h, perm)) =
            topdown_loop-Fixed n (exchange no_node nodes i m) m (omega (arith, size)) (omega arith)
              (exchange-IsSinking nodes i m v s lt inside par) in
          rw go
            (out, done, (h, Perm.trans perm (exchange-Perm no_node nodes i m (omega arith) inside)))
    ]

module _ (nodes : List Node) (n : ℕ) (size : length nodes ≡ suc n) where
  abbrev last : Node
  last = node_at nodes n

  abbrev moved : List Node
  moved = take n (set nodes 0 last)

  moved_size : length (set nodes 0 last) ≡ suc n
  moved_size = length-set nodes 0 last ∙ size

  moved-IsSinking : IsHeap nodes → IsSinking moved 0
  moved-IsSinking h =
      let short = length-take n (set nodes 0 last) (omega (arith, moved_size)) in
      let at : (c : ℕ) → 0 < c → c < n → node_at moved c ≡ node_at nodes c = λ c p q.
        get_or-take n (set nodes 0 last) c no_node q
        ∙ ground (arith, get_or-set nodes 0 c last no_node (omega (arith, size))) in
      record {
        edges = λ c p q r. ground (
          arith,
          short,
          size,
          at c p (omega (arith, short)),
          at (parent c) (omega arith) (omega (arith, short)),
          h c,
        );
        bridged = λ c p q r t. absurd (omega arith);
      }

  -- The first node and the moved ones are all nodes.
  moved-Perm : Perm (node_at nodes 0 ∷ moved) nodes
  moved-Perm =
      let s = set nodes 0 last in
      let end : node_at s n ≡ last =
        ground (arith, get_or-set nodes 0 n last no_node (omega (arith, size))) in
      let split : moved ++ last ∷ [] ≡ s = rw end at (take-last n s no_node moved_size) in
      let front : Perm (last ∷ moved) s = rw split at (Perm.symm (last-Perm moved last)) in
      Perm.cons_inv (
        Perm.trans (Perm.swap (node_at nodes 0) last moved) (
          Perm.trans (Perm.cons (node_at nodes 0) front)
            (set-Perm nodes 0 last no_node (omega (arith, size)))))

-- A pop from a queue that is not empty gives a node with the least key, and keeps the queue valid
-- with the other nodes.
pub pop_unchecked-IsValid :
    (pq : PrioQueue)
    → IsValid pq
    → 0 < len pq
    → IsValid (pop_unchecked pq).1
      × Perm pq.nodes ((pop_unchecked pq).0 ∷ (pop_unchecked pq).1.nodes)
      × ((x : Node) → Mem x pq.nodes → (pop_unchecked pq).0.key ≤ℤ x.key)
unfolding pop_unchecked topdown_fix_heap
pop_unchecked-IsValid pq v filled =
    let n = len pq - 1 in
    let size : len pq ≡ suc n = omega arith in
    let nodes = moved pq.nodes n size in
    let (h, perm) = result-Fixed _ _ (
      topdown_loop-Fixed (length nodes + 1) nodes 0 (omega arith) (omega arith)
        (moved-IsSinking pq.nodes n size v.heap)) in
    let whole =
      Perm.symm (Perm.trans (Perm.cons (node_at pq.nodes 0) perm) (moved-Perm pq.nodes n size)) in
    (
      record { heap = h; fits = omega (arith, length-Perm whole, v.fits) },
      whole,
      λ x m. root_least pq.nodes x v.heap m,
    )
