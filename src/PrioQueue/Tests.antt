-- ===== src/PrioQueue/Tests.antt =====
-- A queue at work, and the theorems on queues at concrete values.
use mathlib.Core.List.{Mem, Perm}
use actf.Common.{ℕ, ◌+◌, ◌≡◌, refl, ◌⊎◌, inl, inr, [], ◌∷◌, arith}
use actf.Common.Int.{ℤ, pos, negsuc, ◌≤ℤ◌}
use actf.PrioQueue.{
  Node, PrioQueue, push_unchecked, pop_unchecked, bottomup_fix_heap, bottomup_loop,
  topdown_fix_heap, topdown_loop,
}
use actf.PrioQueue.Order.{IsValid}
use actf.PrioQueue.Push.{push_unchecked-IsValid}
use actf.PrioQueue.Pop.{pop_unchecked-IsValid}
use actf.PrioQueue.Ends.{GivesNodes, fix_heap-GivesNodes}

abbrev node : ℤ → ℕ → Node
node k v = record { key = k; value = v }

abbrev three : PrioQueue
three = record { nodes = node (pos 1) 0 ∷ node (pos 4) 1 ∷ node (pos 2) 2 ∷ []; cap = 4 }

-- The new least key rises to the root.
pushed :
    (push_unchecked three (node (negsuc 0) 3)).nodes
    ≡ node (negsuc 0) 3 ∷ node (pos 1) 0 ∷ node (pos 2) 2 ∷ node (pos 4) 1 ∷ []
unfolding push_unchecked bottomup_fix_heap bottomup_loop
pushed = refl

popped :
    pop_unchecked three
    ≡ (node (pos 1) 0, record { nodes = node (pos 2) 2 ∷ node (pos 4) 1 ∷ []; cap = 4 })
unfolding pop_unchecked topdown_fix_heap topdown_loop
popped = refl

three-IsValid : IsValid three
three-IsValid = record {
  heap = λ c p q.
      let which : (c ≡ 1) ⊎ (c ≡ 2) = omega arith in
      elim which [ inl e ↦ rw e (omega arith) | inr e ↦ rw e (omega arith) ];
  fits = omega arith;
}

push_unchecked-IsValid_example :
    IsValid (push_unchecked three (node (negsuc 0) 3))
    × Perm (push_unchecked three (node (negsuc 0) 3)).nodes (node (negsuc 0) 3 ∷ three.nodes)
push_unchecked-IsValid_example =
    push_unchecked-IsValid three (node (negsuc 0) 3) three-IsValid (omega arith)

pop_unchecked-IsValid_example :
    IsValid (pop_unchecked three).1
    × Perm three.nodes ((pop_unchecked three).0 ∷ (pop_unchecked three).1.nodes)
    × ((x : Node) → Mem x three.nodes → (pop_unchecked three).0.key ≤ℤ x.key)
pop_unchecked-IsValid_example = pop_unchecked-IsValid three three-IsValid (omega arith)

-- The root is out of order.
abbrev unordered : PrioQueue
unordered = record {
  nodes = node (pos 9) 0 ∷ node (pos 4) 1 ∷ node (pos 2) 2 ∷ node (pos 5) 3 ∷ [];
  cap = 4;
}

fix_heap-GivesNodes_example :
    GivesNodes unordered.nodes
      (bottomup_loop (2 + 1 + 5) unordered.nodes 2)
      (bottomup_fix_heap unordered.nodes 2)
    × GivesNodes unordered.nodes
        (topdown_loop (4 + 1 + 5) unordered.nodes 2)
        (topdown_fix_heap unordered.nodes 2)
fix_heap-GivesNodes_example = fix_heap-GivesNodes unordered.nodes 2 5 (omega arith)
