-- ===== src/PrioQueue/Order.antt =====
-- The heap order: no parent's key is above its child's.
use mathlib.Core.Logic.{∥∥₁_elim}
use mathlib.Core.List.{Mem, Perm}
use mathlib.Core.List.{Memᴰ}
use native.Mathlib.Bridge.{le_prop}
use actf.Common.{ℕ, zero, suc, ◌≤◌, ◌<◌, ◌≡◌, ap, List, Option, some, arith}
use actf.Common.Int.{◌≤ℤ◌}
use actf.Common.Lists.{length}
use actf.PrioQueue.{PrioQueue, len, Node, node_at, key_at, parent, result}

abbrev pub IsHeap : List Node → Type 0
IsHeap nodes = (c : ℕ) → 0 < c → c < length nodes → key_at nodes (parent c) ≤ℤ key_at nodes c

-- The order across `i`, from its parent to its children.
abbrev pub IsBridged : List Node → ℕ → Type 0
IsBridged nodes i =
    (c : ℕ)
    → 0 < c
    → c < length nodes
    → parent c ≡ i
    → 0 < i
    → key_at nodes (parent i) ≤ℤ key_at nodes c

-- The result is a heap of the same nodes.
abbrev pub Fixed : List Node → List Node → Type 0
Fixed before after = IsHeap after × Perm after before

-- The loop has ended, with a heap of the same nodes.
abbrev pub EndsFixed : List Node → Option (List Node) → Type 0
EndsFixed before end = (after : List Node) × (end ≡ some after) × Fixed before after

pub result-Fixed :
    (before : List Node) (end : Option (List Node))
    → EndsFixed before end
    → Fixed before (result before end)
result-Fixed before end (after, e, f) = rw e f

root_below :
    (n : ℕ) (nodes : List Node) (i : ℕ)
    → IsHeap nodes
    → i < n
    → i < length nodes
    → key_at nodes 0 ≤ℤ key_at nodes i
root_below zero nodes i h f p = absurd (omega arith)
root_below (suc n) nodes i h f p = ground (arith, h i, root_below n nodes (parent i) h)

mem_index : {x : Node} {xs : List Node} → Memᴰ x xs → (i : ℕ) × (i < length xs) × (x ≡ node_at xs i)
mem_index (Memᴰ.head e) = (0, omega arith, e)
mem_index (Memᴰ.tail m) = let (i, h, e) = mem_index m in (suc i, omega arith, e)

-- A heap that fits its array.
pub record IsValid (pq : PrioQueue) : Type 0 where
  pub heap : IsHeap pq.nodes
  pub fits : len pq ≤ pq.cap

-- No key is below that of the root.
pub root_least :
    (nodes : List Node) (n : Node) → IsHeap nodes → Mem n nodes → key_at nodes 0 ≤ℤ n.key
root_least nodes n h m = ∥∥₁_elim m le_prop (λ d.
    let (i, p, e) = mem_index d in
    rw (ap (λ x. x.key) e) (root_below (suc i) nodes i h (omega arith) p))
