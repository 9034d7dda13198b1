-- ===== src/Muxer/Holds.antt =====
-- The queue of a muxer through pushes and pops.
use mathlib.Core.Path.{subst}
use mathlib.Core.List.{Mem, Perm, mem-cons_self, not-mem-nil}
use mathlib.Core.List.Perm
use actf.Common.{ℕ, ◌<◌, ◌≡◌, refl, sym, ap, List, [], ◌∷◌, arith}
use actf.Common.Int.{ℤ, ◌≤ℤ◌, ℤ_ext}
use actf.Common.Lists.{length}
use actf.Common.Arrays.{length-Perm}
use actf.Common.Writes.{write}
use actf.PrioQueue.{Node, PrioQueue, len, push_unchecked, pop_unchecked}
use actf.PrioQueue.Order.{IsValid}
use actf.PrioQueue.Push.{push_unchecked-IsValid}
use actf.PrioQueue.Pop.{pop_unchecked-IsValid}
use actf.Muxer.{push_next}
use actf.Muxer.Queued.{
  node_of, queued, queued_ext, length-queued, queued-write, IsHead, Mem-IsQueued, Mem-queued,
}

module _ {Ev : Type 0} (tstamp : Ev → ℤ) (n : ℕ) where
  -- A queue for `n` buffers with a node for each one that has events left.
  pub record Holds (pq : PrioQueue) (b : ℕ → List Ev) : Type 0 where
    pub valid : IsValid pq
    pub cap : pq.cap ≡ n
    pub contents : Perm pq.nodes (queued tstamp b n)

  pub Holds-ext :
      {pq : PrioQueue} (b c : ℕ → List Ev) → ((i : ℕ) → i < n → c i ≡ b i) → Holds pq b → Holds pq c
  Holds-ext b c s h = record {
    valid = h.valid;
    cap = h.cap;
    contents = rw (queued_ext tstamp c b n s) h.contents;
  }

  -- The next event of a buffer without a node is pushed.
  pub push_next-Holds :
      (pq : PrioQueue) (b : ℕ → List Ev) (i : ℕ) (evs : List Ev)
      → i < n
      → Holds pq (write b i [])
      → Holds (push_next tstamp i evs pq) (write b i evs)
  push_next-Holds pq b i [] l h = h
  push_next-Holds pq b i (ev ∷ evs) l h =
      let add = queued-write tstamp b n i ev evs l in
      let room : len pq < pq.cap = omega (
        arith,
        h.cap,
        length-Perm h.contents,
        length-Perm add,
        length-queued tstamp (write b i (ev ∷ evs)) n,
      ) in
      let (valid, perm) = push_unchecked-IsValid pq (node_of tstamp ev i) h.valid room in
      record {
        valid = valid;
        cap = unfold push_unchecked in h.cap;
        contents =
            Perm.trans perm
              (Perm.trans (Perm.cons (node_of tstamp ev i) h.contents) (Perm.symm add));
      }

  -- What the node on top says of its buffer, which is then put aside.
  abbrev pub Popped : (ℕ → List Ev) → ℕ → PrioQueue → List Ev → Type 0
  Popped b i pq [] = ⊥
  Popped b i pq (ev ∷ evs) =
      (i < n)
      × Holds pq (write b i [])
      × ((j : ℕ) (x : Ev) (xs : List Ev) → j < n → b j ≡ x ∷ xs → tstamp ev ≤ℤ tstamp x)

  node_ext : (x : Node) (k : ℤ) → x.key ≤ℤ k → k ≤ℤ x.key → record { key = k; value = x.value } ≡ x
  node_ext x k p q = ap (λ t. record { key = t; value = x.value }) (ℤ_ext k x.key (omega arith))

  top-Popped :
      (pq q : PrioQueue) (b : ℕ → List Ev) (x : Node) (evs : List Ev)
      → Holds pq b
      → IsValid q
      → q.cap ≡ n
      → Perm pq.nodes (x ∷ q.nodes)
      → ((y : Node) → Mem y pq.nodes → x.key ≤ℤ y.key)
      → x.value < n
      → b x.value ≡ evs
      → IsHead tstamp x evs
      → Popped b x.value q evs
  top-Popped pq q b x [] h v c p least l e k = k
  top-Popped pq q b x (ev ∷ evs) h v c p least l e (lo, hi) =
      let same : (i : ℕ) → i < n → write b x.value (ev ∷ evs) i ≡ b i =
        λ i m. ground (arith, e, sym e) in
      let split : Perm (queued tstamp b n)
          (node_of tstamp ev x.value ∷ queued tstamp (write b x.value []) n) =
        rw (queued_ext tstamp _ _ n same) at (queued-write tstamp b n x.value ev evs l) in
      let top : node_of tstamp ev x.value ≡ x = node_ext x (tstamp ev) lo hi in
      let rest : Perm (x ∷ q.nodes) (x ∷ queued tstamp (write b x.value []) n) =
        Perm.trans (Perm.symm p) (
          Perm.trans h.contents (
            subst (λ t. Perm (queued tstamp b n) (t ∷ queued tstamp (write b x.value []) n)) top
              split)) in
      (
        l,
        record { valid = v; cap = c; contents = Perm.cons_inv rest },
        λ j y ys k f.
            let below : x.key ≤ℤ tstamp y =
              least (node_of tstamp y j)
                ((Perm.mem_iff h.contents).1 (Mem-queued tstamp b n j y ys k f)) in
            omega arith,
      )

  pub pop-Popped :
      (pq : PrioQueue) (b : ℕ → List Ev)
      → Holds pq b
      → 0 < len pq
      → Popped b (pop_unchecked pq).0.value (pop_unchecked pq).1 (b (pop_unchecked pq).0.value)
  pop-Popped pq b h l =
      let (v, perm, least) = pop_unchecked-IsValid pq h.valid l in
      let x = (pop_unchecked pq).0 in
      let in_queue = (Perm.mem_iff (Perm.trans (Perm.symm perm) h.contents)).0 mem-cons_self in
      let (inside, head) = Mem-IsQueued tstamp b n x in_queue in
      top-Popped pq (pop_unchecked pq).1 b x (b x.value) h v (unfold pop_unchecked in h.cap) perm
        least inside refl head

  -- An empty queue: no buffer has events left.
  empty_buffer :
      (nodes : List Node) (ev : Ev) (i : ℕ) → length nodes ≡ 0 → ¬ Mem (node_of tstamp ev i) nodes
  empty_buffer [] ev i e m = not-mem-nil m
  empty_buffer (x ∷ nodes) ev i e m = absurd (omega arith)

  buffer_is_empty :
      (pq : PrioQueue) (b : ℕ → List Ev) (i : ℕ) (evs : List Ev)
      → Holds pq b
      → len pq ≡ 0
      → i < n
      → b i ≡ evs
      → b i ≡ []
  buffer_is_empty pq b i [] h z l e = e
  buffer_is_empty pq b i (ev ∷ evs) h z l e = absurd (
      empty_buffer pq.nodes ev i z
        ((Perm.mem_iff h.contents).1 (Mem-queued tstamp b n i ev evs l e)))

  pub no_buffer_left :
      (pq : PrioQueue) (b : ℕ → List Ev) → Holds pq b → len pq ≡ 0 → (i : ℕ) → i < n → b i ≡ []
  no_buffer_left pq b h z i l = buffer_is_empty pq b i (b i) h z l refl
