-- ===== src/Fair/Pick.antt =====
-- kernel/core/sched/sched_fair.c: the choice of the next entity, and how it starts and stops to run.
use kernal.Prelude.{ℕ, Bool, true, false, not, ◌&&◌, Option, none, some, ◌==◌, if◌then◌else◌}
use kernal.Prelude.Int.{ℤ, pos, ltb_ℤ}
use kernal.Buddy.{write}
use kernal.Task.Fields.{Pointer}
use kernal.Fair.Load.{ScaleOps, ◌>>=◌}
use kernal.Fair.Timeline.{
  RbOps, CfsRq, entity_key, __enqueue_entity, __dequeue_entity, __pick_first_entity,
  __pick_next_entity,
}
use kernal.Fair.Runtime.{VruntimeOps, update_curr}

-- The functions that no file defines.
pub record PickOps : Type 0 where
  pub entity_before : CfsRq → ℕ → ℕ → Bool
  pub wakeup_preempt_entity : CfsRq → ℕ → Pointer → ℤ
  pub clear_buddies : Pointer → CfsRq → CfsRq

-- Equality of pointers.
abbrev pub same : Pointer → Pointer → Bool
same none none = true
same none (some x) = false
same (some x) none = false
same (some x) (some y) = x == y

module _ (P : PickOps) (R : RbOps) where
  open P use {entity_before, wakeup_preempt_entity, clear_buddies}

  -- if (!p || (curr && entity_before(curr, p))) p = curr;
  unfoldable pub or_curr : CfsRq → Pointer → Pointer → Pointer
  or_curr c none curr = curr
  or_curr c (some p) none = some p
  or_curr c (some p) (some q) = if entity_before c q p then some q else some p

  -- Whether a candidate may run in place of `left`.
  unfoldable pub unless_behind : CfsRq → Pointer → Pointer → Pointer → Pointer
  unless_behind c none left se = se
  unless_behind c (some p) left se =
      if ltb_ℤ (wakeup_preempt_entity c p left) (pos 1) then some p else se

  abbrev pub second_of : CfsRq → Pointer → Pointer → Pointer
  second_of c none curr = none
  second_of c (some se) curr = or_curr c (__pick_next_entity R se c) curr

  unfoldable pub pick_next_entity : CfsRq → Pointer → Pointer × CfsRq
  unfolding or_curr unless_behind
  pick_next_entity c curr =
      let left = or_curr c (__pick_first_entity R c) curr in
      let second = if same left curr then __pick_first_entity R c else second_of c left curr in
      let se1 = if same c.skip left then unless_behind c second left left else left in
      let se2 = unless_behind c c.last left se1 in
      let se3 = unless_behind c c.next left se2 in (se3, clear_buddies se3 c)

  -- `now` is what `sched_clock_cpu` answers; the statistics are left out.
  unfoldable pub set_next_entity : ℕ → ℕ → CfsRq → CfsRq
  set_next_entity now se c =
      let c1 = if (c.entity se).on_rq then __dequeue_entity R se c else c in
      record c1 {
        curr = some se;
        entity = write c1.entity se (record (c1.entity se) {
          prev_sum_exec_runtime = (c1.entity se).sum_exec_runtime;
          exec_start = now;
        });
      }

  module _ (V : VruntimeOps) (S : ScaleOps) where
    unfoldable pub put_prev_entity : ℕ → ℕ → CfsRq → Option CfsRq
    put_prev_entity now prev c = do
      c1 ← if (c.entity prev).on_rq then update_curr V S now c else some c
      let c2 = if (c1.entity prev).on_rq then __enqueue_entity R prev c1 else c1
      some (record c2 { curr = none })

    -- The end of `pick_next_task_fair`: the entity that is set to run.
    unfoldable pub pick_and_set : ℕ → CfsRq → Pointer × CfsRq
    unfolding pick_next_entity set_next_entity
    pick_and_set now c =
        let (se, c1) = pick_next_entity c none in
        elim se [ none ↦ (none, c1) | some x ↦ (some x, set_next_entity now x c1) ]

    -- Whether the previous entity goes on: it waits for no one with a lower key.
    unfoldable pub goes_on : CfsRq → ℕ → Bool
    goes_on c pse = elim (__pick_first_entity R c) [
      | none ↦ false
      | some se ↦ (c.entity pse).on_rq && not (ltb_ℤ (entity_key c se) (entity_key c pse))
    ]

    -- The entity of the task that `pick_next_task_fair` answers; `prev` is the entity of a task of
    -- the fair class, or none.
    unfoldable pub pick_next_task_fair : ℕ → CfsRq → Pointer → Option (Pointer × CfsRq)
    unfolding goes_on pick_and_set put_prev_entity
    pick_next_task_fair now c none =
        if c.nr_running == 0 then some (none, c) else some (pick_and_set now c)
    pick_next_task_fair now c (some pse) =
        let switch = update_curr V S now c >>= λ c1.
        if goes_on c1 pse
        then some (some pse, c1)
        else put_prev_entity now pse c1 >>= λ c2. some (pick_and_set now c2) in
        if c.nr_running == 0 then some (none, c) else switch
