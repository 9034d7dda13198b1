-- ===== src/Muxer.antt =====
-- muxer.c: a generator that merges the events of other ones in the order of their time stamps.
pub mod Queued
pub mod Holds
pub mod Merge
pub mod Loop
pub mod Start
pub mod Refines
pub mod Seek
pub mod Whole
pub mod Failed
mod Tests
use actf.Common.{ℕ, zero, suc, Bool, ltb, ◌==◌, ◌&&◌, List, [], ◌∷◌, if◌then◌else◌}
use actf.Common.Int.{ℤ}
use actf.Common.Lists.{length, drop}
use actf.Common.Writes.{write}
use actf.Types.{Result, ok, err, error, then_ok}
use actf.EventGenerator.{EventGenerator}
use actf.PrioQueue.{
  Node, PrioQueue, len, prio_queue_init, prio_queue_clear, push_unchecked, pop_unchecked,
}

pub data MuxerState : Type 0 where
  fresh ongoing done failed : MuxerState

-- The arrays of the generators' states, of their buffers with their lengths, and of the current
-- indices in the buffers have `gens_len` entries. The functions of the generators stand apart.
pub record Muxer (Ev G : Type 0) : Type 0 where
  pub gens : ℕ → G
  pub gens_len : ℕ
  pub in_evs : ℕ → List Ev
  pub in_evs_cur_is : ℕ → ℕ
  pub evs_cap : ℕ
  pub pq : PrioQueue
  pub state : MuxerState
  pub pending_gen_i : ℕ

-- ACTF_DEFAULT_EVS_CAP
abbrev pub default_evs_cap : ℕ
default_evs_cap = 64

unfoldable pub init : {Ev G : Type 0} → (ℕ → G) → ℕ → ℕ → Muxer Ev G
init gens gens_len evs_cap = record {
  gens = gens;
  gens_len = gens_len;
  in_evs = λ i. [];
  in_evs_cur_is = λ i. 0;
  evs_cap = if evs_cap == 0 then default_evs_cap else evs_cap;
  pq = prio_queue_init gens_len;
  state = fresh;
  pending_gen_i = gens_len;
}

module _ {Ev G : Type 0} where
  abbrev pub has_pending_gen : Muxer Ev G → Bool
  has_pending_gen m = ltb m.pending_gen_i m.gens_len

  abbrev pub set_no_pending_gen : Muxer Ev G → Muxer Ev G
  set_no_pending_gen m = record m { pending_gen_i = m.gens_len }

  abbrev pub set_pending_gen : Muxer Ev G → ℕ → Muxer Ev G
  set_pending_gen m gen_i = record m { pending_gen_i = gen_i }

  -- The events of a buffer from the current index on.
  abbrev pub buffered : Muxer Ev G → ℕ → List Ev
  buffered m i = drop (m.in_evs_cur_is i) (m.in_evs i)

  -- MUXER_STATE_DONE where no event came out.
  abbrev pub done_if_empty : List Ev → Muxer Ev G → Muxer Ev G
  done_if_empty [] m = if ltb 0 m.evs_cap then record m { state = done } else m
  done_if_empty (ev ∷ evs) m = m

  unfoldable pub muxer_reset : Muxer Ev G → Muxer Ev G
  muxer_reset m = record (set_no_pending_gen m) {
    pq = prio_queue_clear m.pq;
    state = fresh;
    in_evs = λ i. [];
    in_evs_cur_is = λ i. 0;
  }

module _ {Ev : Type 0} (tstamp : Ev → ℤ) where
  -- The key of the next event of a buffer, if there is one.
  abbrev pub push_next : ℕ → List Ev → PrioQueue → PrioQueue
  push_next gen_i [] pq = pq
  push_next gen_i (ev ∷ evs) pq = push_unchecked pq (record { key = tstamp ev; value = gen_i })

module _ {Ev G : Type 0} (tstamp : Ev → ℤ) where
  -- What the new buffer of a generator means for the muxer.
  abbrev pub fresh_evs : Muxer Ev G → ℕ → Result (List Ev) × G → Result (Unit {0}) × Muxer Ev G
  fresh_evs m gen_i (ok evs, g) = (
    ok tt,
    record m {
      gens = write m.gens gen_i g;
      in_evs = write m.in_evs gen_i evs;
      in_evs_cur_is = write m.in_evs_cur_is gen_i 0;
      pq = push_next tstamp gen_i evs m.pq;
    },
  )
  fresh_evs m gen_i (err rc, g) = (
    err rc,
    record m {
      gens = write m.gens gen_i g;
      in_evs_cur_is = write m.in_evs_cur_is gen_i 0;
      state = failed;
    },
  )

  -- An event of the generator on top of the queue, whose buffer then goes on with `rest`.
  abbrev pub advance : Muxer Ev G → ℕ → PrioQueue → List Ev → Muxer Ev G
  advance m gen_i pq rest = record m {
    in_evs_cur_is = write m.in_evs_cur_is gen_i (suc (m.in_evs_cur_is gen_i));
    pq = push_next tstamp gen_i rest pq;
  }

module _ {Ev G : Type 0} (tstamp : Ev → ℤ) (gen : EventGenerator Ev G) where
  unfoldable pub push_fresh_evs_to_pq : Muxer Ev G → ℕ → Result (Unit {0}) × Muxer Ev G
  push_fresh_evs_to_pq m gen_i = fresh_evs tstamp m gen_i (gen.generate (m.gens gen_i))

  -- The loop that starts the queue with all generators: `n` of them from `i` on.
  unfoldable pub bootstrap : ℕ → ℕ → Muxer Ev G → Result (Unit {0}) × Muxer Ev G
  bootstrap zero i m = (ok tt, m)
  bootstrap (suc n) i m = then_ok (push_fresh_evs_to_pq m i) (λ m. bootstrap n (suc i) m)

  unfoldable pub push_pending : Muxer Ev G → Result (Unit {0}) × Muxer Ev G
  push_pending m =
      if has_pending_gen m
      then then_ok (push_fresh_evs_to_pq m m.pending_gen_i) (λ m. (ok tt, set_no_pending_gen m))
      else (ok tt, m)

  -- A round of the loop for the generator on top of the queue, whose buffer goes on with the given
  -- events; the first one is copied. There is one, so that the first clause is not reached.
  abbrev pub round :
      (Muxer Ev G → List Ev × Muxer Ev G)
      → Muxer Ev G
      → ℕ
      → PrioQueue
      → List Ev
      → List Ev × Muxer Ev G
  round next m gen_i pq [] = ([], m)
  round next m gen_i pq (ev ∷ []) = (ev ∷ [], set_pending_gen (advance tstamp m gen_i pq []) gen_i)
  round next m gen_i pq (ev ∷ ev' ∷ rest) =
      let r = next (advance tstamp m gen_i pq (ev' ∷ rest)) in (ev ∷ r.0, r.1)

  -- Up to `n` events from the queue.
  unfoldable pub mux_loop : ℕ → Muxer Ev G → List Ev × Muxer Ev G
  mux_loop zero m = ([], m)
  mux_loop (suc n) m =
      let popped = pop_unchecked m.pq in
      let gen_i = popped.0.value in
      let step = round (λ m. mux_loop n m) m gen_i popped.1 (buffered m gen_i) in
      if len m.pq == 0 then ([], m) else step

  abbrev pub delivered : List Ev × Muxer Ev G → Result (List Ev) × Muxer Ev G
  delivered (evs, m) = (ok evs, done_if_empty evs m)

  -- MUXER_STATE_ONGOING
  unfoldable pub mux_ongoing : Muxer Ev G → Result (List Ev) × Muxer Ev G
  unfolding push_pending mux_loop
  mux_ongoing m = then_ok (push_pending m) (λ m. delivered (mux_loop m.evs_cap m))

  -- MUXER_STATE_FRESH, which falls through to MUXER_STATE_ONGOING.
  unfoldable pub mux_fresh : Muxer Ev G → Result (List Ev) × Muxer Ev G
  unfolding bootstrap mux_ongoing
  mux_fresh m = then_ok (bootstrap m.gens_len 0 m) (λ m. mux_ongoing (record m { state = ongoing }))

  unfoldable pub mux_switch : MuxerState → Muxer Ev G → Result (List Ev) × Muxer Ev G
  unfolding mux_fresh mux_ongoing
  mux_switch fresh m = mux_fresh m
  mux_switch ongoing m = mux_ongoing m
  mux_switch done m = (ok [], m)
  mux_switch failed m = (err error, m)

  unfoldable pub mux : Muxer Ev G → Result (List Ev) × Muxer Ev G
  unfolding mux_switch
  mux m = mux_switch m.state m

  -- What a seek of a generator means for the muxer.
  abbrev pub sought : Muxer Ev G → ℕ → Result (Unit {0}) × G → Result (Unit {0}) × Muxer Ev G
  sought m i (ok u, g) = (ok tt, record m { gens = write m.gens i g })
  sought m i (err rc, g) = (err rc, record m { gens = write m.gens i g; state = failed })

  unfoldable pub seek_loop : ℕ → ℕ → ℤ → Muxer Ev G → Result (Unit {0}) × Muxer Ev G
  seek_loop zero i t m = (ok tt, m)
  seek_loop (suc n) i t m =
      then_ok (sought m i (gen.seek_ns_from_origin (m.gens i) t)) (λ m. seek_loop n (suc i) t m)

  unfoldable pub seek_ns_from_origin : Muxer Ev G → ℤ → Result (Unit {0}) × Muxer Ev G
  unfolding seek_loop muxer_reset
  seek_ns_from_origin m t = then_ok (seek_loop m.gens_len 0 t m) (λ m. (ok tt, muxer_reset m))

  unfoldable pub to_generator : EventGenerator Ev (Muxer Ev G)
  unfolding mux seek_ns_from_origin
  to_generator = record { generate = mux; seek_ns_from_origin = seek_ns_from_origin }
