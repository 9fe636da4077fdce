-- ===== src/Sched/Scheduled.antt =====
-- kernel/core/sched/sched.c: what a call of `schedule` leaves.
use kernal.Prelude.{
  ℕ, ◌+◌, ◌%◌, ◌^◌, ◌≡◌, ◌⊎◌, inl, inr, refl, sym, subst, ap, ◌∙◌, true, false, none, some, ◌==◌,
  ==_refl, arith,
}
use native.Mathlib.Decide.{ℕ_discrete}
use kernal.Task.Fields.{Pointer}
use kernal.Task.Life.{Kernel, set_task}
use kernal.Task.Fork.{Outcome, done, panic, fault}
use kernal.Sched.Rq.{Rq, sched_init}
use kernal.Sched.Clock.{Reading, update_rq_clock}
use kernal.Sched.Switch.{
  System, SchedOps, set_rq, pick_next_task, context_switch, clear_resched, start_switch,
  switch_or_stay, schedule_from, schedule,
}
use kernal.Sched.Lazy.{lent, borrowed, Balanced, context_switch-Balanced}
use kernal.Sched.Choice.{pick_keeps}

module _ {S : Type 0} (O : SchedOps S) where
  -- The run queue has the task that was chosen, `get_current` still answers the task that it did, and
  -- the counts of references hold what the chosen one borrows.
  abbrev pub Scheduled : System S → ℕ → ℕ → Outcome (System S) → Type 0
  Scheduled s prev next (done s') =
      (s'.rq.curr ≡ some next)
      × (s'.kernel.current ≡ s.kernel.current)
      × (s'.rq.prev_mm ≡ none)
      × ((m : ℕ)
          → (s'.kernel.mm_count m + borrowed (s.kernel.task prev) m) % 2 ^ 32
            ≡ (s.kernel.mm_count m + borrowed (s'.kernel.task next) m) % 2 ^ 32)
  Scheduled s prev next panic = ⊥
  Scheduled s prev next fault = (s.kernel.task prev).space.active_mm ≡ none

  module _ (s : System S) (prev : ℕ) (curr : s.rq.curr ≡ some prev)
      (free : s.rq.prev_mm ≡ none) where
    abbrev cleared : Kernel
    cleared = set_task prev (O.clear_tsk_need_resched (s.kernel.task prev)) s.kernel

    cleared_space : (cleared.task prev).space ≡ (s.kernel.task prev).space
    cleared_space = rw (==_refl prev) (O.clear-space (s.kernel.task prev))

    cleared_borrowed : (m : ℕ) → borrowed (cleared.task prev) m ≡ borrowed (s.kernel.task prev) m
    cleared_borrowed m = ap (λ q. lent q.mm q.active_mm m) cleared_space

    switched-Scheduled :
        (s2 : System S) (next : ℕ) (r : Outcome (System S))
        → s2.kernel ≡ cleared
        → s2.rq.curr ≡ some next
        → Balanced O s2 prev next r
        → Scheduled s prev next r
    switched-Scheduled s2 next (done s') ek ec (cur, stays, free', counts) = (
      stays ∙ ec,
      cur ∙ ap (λ k. k.current) ek,
      free',
      λ m.
          ap (λ b. (s'.kernel.mm_count m + b) % 2 ^ 32)
            (sym (ap (λ k. borrowed (k.task prev) m) ek ∙ cleared_borrowed m))
          ∙ counts m
          ∙ ap (λ k. (k.mm_count m + borrowed (s'.kernel.task next) m) % 2 ^ 32) ek,
    )
    switched-Scheduled s2 next panic ek ec b = b
    switched-Scheduled s2 next fault ek ec (_, e) =
        sym (ap (λ k. (k.task prev).space.active_mm) ek ∙ ap (λ q. q.active_mm) cleared_space) ∙ e

    stay-Scheduled :
        (t : System S)
        → t.kernel ≡ cleared
        → t.rq.curr ≡ some prev
        → t.rq.prev_mm ≡ none
        → Scheduled s prev prev (done t)
    stay-Scheduled t ek ec ef = (
      ec,
      ap (λ k. k.current) ek,
      ef,
      λ m.
          ap (λ k. (k.mm_count m + borrowed (s.kernel.task prev) m) % 2 ^ 32) ek
          ∙ ap (λ b. (s.kernel.mm_count m + b) % 2 ^ 32)
              (sym (ap (λ k. borrowed (k.task prev) m) ek ∙ cleared_borrowed m)),
    )

    module _ (s1 : System S) (ek : s1.kernel ≡ s.kernel) (ec : s1.rq.curr ≡ s.rq.curr)
        (ef : s1.rq.prev_mm ≡ s.rq.prev_mm) where
      cleared_same :
          set_task prev (O.clear_tsk_need_resched (s1.kernel.task prev)) s1.kernel ≡ cleared
      cleared_same = ap (λ k. set_task prev (O.clear_tsk_need_resched (k.task prev)) k) ek

      next-Scheduled : (next : ℕ) → Scheduled s prev next (switch_or_stay O prev (some next) s1)
      next-Scheduled next = elim (ℕ_discrete prev next) [
        | yes e ↦
            let test : (prev == next) ≡ true = ground arith in
            rw test (
              subst (λ n. Scheduled s prev n (done (clear_resched O prev s1))) e
                (stay-Scheduled (clear_resched O prev s1) cleared_same (ec ∙ curr) (ef ∙ free)))
        | no ne ↦
            let test : (prev == next) ≡ false = ground arith in
            rw test (
              switched-Scheduled (start_switch O next (clear_resched O prev s1)) next
                (context_switch O prev next (start_switch O next (clear_resched O prev s1)))
                cleared_same refl
                (context_switch-Balanced O (start_switch O next (clear_resched O prev s1)) prev next
                  ne (ef ∙ free)))
      ]

    from_pick :
        (r : Pointer × System S)
        → r.1.kernel ≡ s.kernel
        → r.1.rq.curr ≡ s.rq.curr
        → r.1.rq.prev_mm ≡ s.rq.prev_mm
        → ((next : ℕ) × (r.0 ≡ some next) × Scheduled s prev next (schedule_from O (some prev) r))
          ⊎ ((r.0 ≡ none) × (schedule_from O (some prev) r ≡ fault))
    from_pick (none, s1) ek ec ef = inr (refl, refl)
    from_pick (some next, s1) ek ec ef = inl (next, refl, next-Scheduled s1 ek ec ef next)

    -- Where the run queue has a task and no descriptor waits to be dropped, schedule ends in one
    -- of these ways. The run queue has the task that pick_next_task answers, but get_current still
    -- answers the task that it answered before, no descriptor waits, and each mm_count has changed
    -- by what the new task borrows against what the last one borrowed, modulo 2^32. Or it faults
    -- with no active_mm of the last task to lend. Or pick_next_task answers no task and it faults.
    pub schedule-Scheduled :
        (r : Reading)
        → ((next : ℕ) × ((pick_next_task O s.rq.curr (set_rq (update_rq_clock r) s)).0 ≡ some next)
            × Scheduled s prev next (schedule O r s))
          ⊎ (((pick_next_task O s.rq.curr (set_rq (update_rq_clock r) s)).0 ≡ none)
              × (schedule O r s ≡ fault))
    unfolding schedule update_rq_clock
    schedule-Scheduled r =
        let s1 = set_rq (update_rq_clock r) s in
        let keeps = pick_keeps O s.rq.curr s1 in
        let split =
          from_pick (pick_next_task O s.rq.curr s1) keeps.0 (ap (λ q. q.curr) keeps.1)
            (ap (λ q. q.prev_mm) keeps.1) in
        subst
          (λ c.
            ((next : ℕ) × ((pick_next_task O s.rq.curr s1).0 ≡ some next)
              × Scheduled s prev next (schedule_from O c (pick_next_task O s.rq.curr s1)))
            ⊎ (((pick_next_task O s.rq.curr s1).0 ≡ none)
                × (schedule_from O c (pick_next_task O s.rq.curr s1) ≡ fault)))
          (sym curr) split

  -- The first schedule on the run queue that sched_init leaves reads through the NULL of its
  -- current task, whatever the clocks and the classes answer.
  pub sched_init-schedule :
      (r : Reading) (q : Rq) (k : Kernel) (classes : S)
      → schedule O r
          (record { kernel = (sched_init (k, q)).0; rq = (sched_init (k, q)).1; classes = classes })
        ≡ fault
  unfolding schedule sched_init
  sched_init-schedule r q k classes = refl
