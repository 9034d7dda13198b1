-- ===== src/PrioQueue.antt =====
-- prio_queue.h: a priority queue in a binary heap, the least key first.
pub mod Order
pub mod Push
pub mod Pop
pub mod Ends
mod Tests
use actf.Common.{
  ℕ, zero, suc, ◌+◌, ◌-◌, ◌*◌, ◌/◌, Bool, ltb, ◌==◌, ◌&&◌, List, [], ◌∷◌, ◌++◌, if◌then◌else◌,
  Option, none, some,
}
use actf.Common.Int.{ℤ, pos, ltb_ℤ, leb_ℤ}
use actf.Common.Lists.{length, get_or}
use actf.Common.Arrays.{set, take, exchange}

pub record Node : Type 0 where
  pub key : ℤ
  pub value : ℕ

-- The first `len` nodes of the array; those behind are not read.
pub record PrioQueue : Type 0 where
  pub nodes : List Node
  pub cap : ℕ

abbrev pub len : PrioQueue → ℕ
len pq = length pq.nodes

abbrev pub no_node : Node
no_node = record { key = pos 0; value = 0 }

abbrev pub node_at : List Node → ℕ → Node
node_at nodes i = get_or nodes i no_node

abbrev pub key_at : List Node → ℕ → ℤ
key_at nodes i = (node_at nodes i).key

abbrev pub parent : ℕ → ℕ
parent c = (c - 1) / 2

abbrev pub prio_queue_init : ℕ → PrioQueue
prio_queue_init sz = record { nodes = []; cap = sz }

abbrev pub prio_queue_clear : PrioQueue → PrioQueue
prio_queue_clear pq = record pq { nodes = [] }

-- The loop goes up from the index, and is `none` if it has not ended after as many rounds as the fuel.
unfoldable pub bottomup_loop : ℕ → List Node → ℕ → Option (List Node)
bottomup_loop zero nodes cur_i = none
bottomup_loop (suc n) nodes cur_i =
    let par_i = parent cur_i in
    let up = bottomup_loop n (exchange no_node nodes cur_i par_i) par_i in
    if cur_i == 0
    then some nodes
    else if leb_ℤ (key_at nodes par_i) (key_at nodes cur_i)
    then some nodes
    else up

-- The result of a loop, which ends within its fuel.
abbrev pub result : List Node → Option (List Node) → List Node
result nodes none = nodes
result nodes (some out) = out

unfoldable pub bottomup_fix_heap : List Node → ℕ → List Node
unfolding bottomup_loop
bottomup_fix_heap nodes i = result nodes (bottomup_loop (i + 1) nodes i)

unfoldable pub push_unchecked : PrioQueue → Node → PrioQueue
unfolding bottomup_fix_heap
push_unchecked pq n = record pq { nodes = bottomup_fix_heap (pq.nodes ++ n ∷ []) (len pq) }

-- The child, if there is one and its key is below that of the other node.
abbrev pub smaller : List Node → ℕ → ℕ → ℕ
smaller nodes child smallest_i =
    if ltb child (length nodes) && ltb_ℤ (key_at nodes child) (key_at nodes smallest_i)
    then child
    else smallest_i

abbrev pub smallest : List Node → ℕ → ℕ
smallest nodes cur_i = smaller nodes (2 * cur_i + 2) (smaller nodes (2 * cur_i + 1) cur_i)

-- The loop goes down from the index, and is `none` if it has not ended after as many rounds as the
-- fuel.
unfoldable pub topdown_loop : ℕ → List Node → ℕ → Option (List Node)
topdown_loop zero nodes cur_i = none
topdown_loop (suc n) nodes cur_i =
    let smallest_i = smallest nodes cur_i in
    let down = topdown_loop n (exchange no_node nodes cur_i smallest_i) smallest_i in
    if smallest_i == cur_i then some nodes else down

unfoldable pub topdown_fix_heap : List Node → ℕ → List Node
unfolding topdown_loop
topdown_fix_heap nodes i = result nodes (topdown_loop (length nodes + 1) nodes i)

-- The last node takes the place of the first one.
unfoldable pub pop_unchecked : PrioQueue → Node × PrioQueue
unfolding topdown_fix_heap
pop_unchecked pq =
    let last_i = len pq - 1 in
    let moved = take last_i (set pq.nodes 0 (node_at pq.nodes last_i)) in
    (node_at pq.nodes 0, record pq { nodes = topdown_fix_heap moved 0 })

abbrev pub peek_unchecked : PrioQueue → Node
peek_unchecked pq = node_at pq.nodes 0
