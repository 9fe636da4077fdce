-- ===== src/Fair/Queue.antt =====
-- kernel/core/sched/sched_fair.c: an entity comes to wait, and stops.
use Prim.Native.Nat.{bit_and}
use kernal.Prelude.{
  ℕ, ◌+◌, ◌-◌, ◌/◌, ◌%◌, ◌^◌, Bool, true, false, not, ◌&&◌, ◌||◌, Option, some, ◌==◌, if◌then◌else◌,
}
use kernal.Task.Fields.{Pointer, LoadWeight}
use kernal.Fair.Load.{ScaleOps, ◌>>=◌}
use kernal.Fair.Timeline.{RbOps, CfsRq, points_to, __enqueue_entity, __dequeue_entity}
use kernal.Fair.Runtime.{VruntimeOps, set_entity, update_curr, update_min_vruntime}

-- The accounts of the load and the constants, which no file defines.
pub record QueueOps : Type 0 where
  pub enqueue_wakeup : ℕ
  pub enqueue_waking : ℕ
  pub dequeue_sleep : ℕ
  pub sysctl_sched_latency : ℕ
  pub start_debit : Bool
  pub gentle_fair_sleepers : Bool
  pub sched_vslice : CfsRq → ℕ → ℕ
  pub account_entity_enqueue : ℕ → LoadWeight → LoadWeight
  pub account_entity_dequeue : ℕ → LoadWeight → LoadWeight

-- Whether a flag is set.
abbrev pub has : ℕ → ℕ → Bool
has flags f = not (bit_and flags f == 0)

module _ (Q : QueueOps) (R : RbOps) (V : VruntimeOps) where
  open Q use {
    enqueue_wakeup, enqueue_waking, dequeue_sleep, sysctl_sched_latency, start_debit,
    gentle_fair_sleepers, sched_vslice, account_entity_enqueue, account_entity_dequeue,
  }

  abbrev pub set_vruntime : ℕ → ℕ → CfsRq → CfsRq
  set_vruntime se v c = set_entity se (record (c.entity se) { vruntime = v }) c

  abbrev pub set_on_rq : ℕ → Bool → CfsRq → CfsRq
  set_on_rq se b c = set_entity se (record (c.entity se) { on_rq = b }) c

  -- `initial` is the last argument of the source.
  unfoldable pub place_entity : ℕ → Bool → CfsRq → CfsRq
  place_entity se initial c =
      let thresh =
        if gentle_fair_sleepers
        then sysctl_sched_latency % 2 ^ 32 / 2
        else sysctl_sched_latency % 2 ^ 32 in
      let v1 =
        if initial && start_debit
        then (c.min_vruntime + sched_vslice c se) % 2 ^ 64
        else c.min_vruntime in
      let v2 = if initial then v1 else (v1 + 2 ^ 64 - thresh) % 2 ^ 64 in
      set_vruntime se (V.max_vruntime (c.entity se).vruntime v2) c

  -- `account_entity_enqueue` also counts the entity in `nr_running`.
  abbrev pub account_in : ℕ → CfsRq → CfsRq
  account_in se c = record c {
    load = account_entity_enqueue (c.entity se).load.weight c.load;
    nr_running = (c.nr_running + 1) % 2 ^ 32;
  }

  abbrev pub account_out : ℕ → CfsRq → CfsRq
  account_out se c = record c {
    load = account_entity_dequeue (c.entity se).load.weight c.load;
    nr_running = (c.nr_running + 2 ^ 32 - 1) % 2 ^ 32;
  }

  -- The vruntime of an entity that does not wake up is relative to `min_vruntime` while it is away.
  unfoldable pub renormed : ℕ → ℕ → CfsRq → CfsRq
  renormed se flags c =
      if not (has flags enqueue_wakeup) || has flags enqueue_waking
      then set_vruntime se (((c.entity se).vruntime + c.min_vruntime) % 2 ^ 64) c
      else c

  -- The part of `enqueue_entity` behind `update_curr`.
  unfoldable pub enqueue_rest : ℕ → ℕ → CfsRq → CfsRq
  unfolding place_entity
  enqueue_rest se flags c =
      let c1 = account_in se c in
      let c2 = if has flags enqueue_wakeup then place_entity se false c1 else c1 in
      let c3 = if not (points_to c2.curr se) then __enqueue_entity R se c2 else c2 in
      set_on_rq se true c3

  -- The part of `dequeue_entity` behind `update_curr` and `clear_buddies`.
  unfoldable pub dequeue_rest : ℕ → ℕ → CfsRq → CfsRq
  dequeue_rest se flags c =
      let c1 = if not (points_to c.curr se) then __dequeue_entity R se c else c in
      let c2 = account_out se (set_on_rq se false c1) in
      let c3 =
        if not (has flags dequeue_sleep)
        then set_vruntime se (((c2.entity se).vruntime + 2 ^ 64 - c2.min_vruntime) % 2 ^ 64) c2
        else c2 in
      update_min_vruntime V c3

  module _ (S : ScaleOps) (clear_buddies : Pointer → CfsRq → CfsRq) where
    unfoldable pub enqueue_entity : ℕ → ℕ → ℕ → CfsRq → Option CfsRq
    enqueue_entity now se flags c =
        update_curr V S now (renormed se flags c) >>= λ c1. some (enqueue_rest se flags c1)

    unfoldable pub dequeue_entity : ℕ → ℕ → ℕ → CfsRq → Option CfsRq
    dequeue_entity now se flags c =
        update_curr V S now c >>= λ c1. some (dequeue_rest se flags (clear_buddies (some se) c1))
