-- ===== src/Fair/Asked.antt =====
-- kernel/core/sched/sched_fair.c: when `check_preempt_wakeup` asks the current task to give up the CPU.
use kernal.Prelude.{
  ℕ, ◌≡◌, ◌≢◌, refl, subst, ◌∙◌, Bool, true, false, not, ◌&&◌, ◌||◌, Option, some, ◌==◌,
  if◌then◌else◌, arith,
}
use kernal.Fair.Load.{ScaleOps}
use kernal.Fair.Runtime.{VruntimeOps}
use kernal.Fair.Pick.{PickOps}
use kernal.Fair.Tasks.{GroupOps}
use kernal.Fair.Wake.{
  Runner, Waking, WakeOps, mark_next, set_last, crowded, next_marked, preempt, by_policy,
  check_preempt_wakeup,
}

-- The run returns, and `b` is then whether the current task is asked.
abbrev pub Asks : Bool → Option Waking → Type 0
Asks b o = (s : Waking) × (o ≡ some s) × (s.need_resched ≡ b)

if-Asks :
    (b t : Bool) (x y : Option Waking)
    → (t ≡ true → Asks b x)
    → (t ≡ false → Asks b y)
    → Asks b (if t then x else y)
if-Asks b true x y p q = p refl
if-Asks b false x y p q = q refl

module _ (G : GroupOps) (W : WakeOps) where
  open G use {cfs_rq_of, throttled_hierarchy}
  open W use {
    sched_normal, sched_idle, last_buddy_feature, entity_is_task, resched_curr, resched-asks,
  }

  mark-need_resched :
      (m : Bool) (se : ℕ) (s : Waking)
      → (if m then mark_next G W se s else s).need_resched ≡ s.need_resched
  mark-need_resched true se s = refl
  mark-need_resched false se s = refl

  last-need_resched :
      (m : Bool) (se : ℕ) (s : Waking)
      → (if m then set_last G W se s else s).need_resched ≡ s.need_resched
  last-need_resched true se s = refl
  last-need_resched false se s = refl

  same-need_resched :
      (t : Bool) (x y : Waking)
      → x.need_resched ≡ true
      → y.need_resched ≡ true
      → (if t then x else y).need_resched ≡ true
  same-need_resched true x y p q = p
  same-need_resched false x y p q = q

  preempt-need_resched :
      (scale is_idle : Bool) (se : ℕ) (s : Waking)
      → (preempt G W scale is_idle se s).need_resched ≡ true
  unfolding preempt
  preempt-need_resched scale is_idle se s =
      let asked = resched-asks s in
      same-need_resched _ _ _ asked (last-need_resched _ se (resched_curr s) ∙ asked)

  module _ (P : PickOps) (V : VruntimeOps) (S : ScaleOps) (now : ℕ) where
    -- The run behind the marking of the next buddy.
    abbrev behind : Runner → Runner → ℕ → ℕ → Waking → Option Waking
    behind curr p idle flags s =
        by_policy G W P V S now curr p (next_marked G W curr flags s) (crowded G W curr s)
          (curr.task == idle) (if next_marked G W curr flags s then mark_next G W p.se s else s)

    by_policy-Asks :
        (curr p : Runner) (marked scale is_idle : Bool) (s : Waking)
        → p.policy ≢ sched_normal
        → Asks
            (s.need_resched || (curr.policy == sched_idle && not (p.policy == sched_idle)))
            (by_policy G W P V S now curr p marked scale is_idle s)
    unfolding by_policy
    by_policy-Asks curr p marked scale is_idle s n =
        let b : (p.policy == sched_normal) ≡ false = ground arith in
        let x = s.need_resched in
        let y = curr.policy == sched_idle && not (p.policy == sched_idle) in
        if-Asks (x || y) x _ _ (λ f. (s, refl, ground arith))
          (λ f.
            if-Asks (x || y) y _ _
              (λ g. (_, refl, preempt-need_resched scale is_idle curr.se s ∙ ground arith))
              (λ g. rw b (s, refl, ground arith)))

    -- For a task that is not of SCHED_NORMAL, check_preempt_wakeup returns. Then the current task
    -- is asked to give up the CPU exactly where it was before, or where it is of SCHED_IDLE and
    -- the other is not, their entities differ, and the queue of the other is not throttled.
    pub check_preempt_wakeup-Asks :
        (curr p : Runner) (idle flags : ℕ) (s : Waking)
        → p.policy ≢ sched_normal
        → Asks
            (s.need_resched
              || (not (curr.se == p.se)
                  && not (throttled_hierarchy (cfs_rq_of p.se))
                  && (curr.policy == sched_idle && not (p.policy == sched_idle))))
            (check_preempt_wakeup G W P V S now curr p idle flags s)
    unfolding check_preempt_wakeup
    check_preempt_wakeup-Asks curr p idle flags s n =
        let m = next_marked G W curr flags s in
        let s1 = if m then mark_next G W p.se s else s in
        let kept : s1.need_resched ≡ s.need_resched = mark-need_resched m p.se s in
        let same = curr.se == p.se in
        let out = throttled_hierarchy (cfs_rq_of p.se) in
        let y = curr.policy == sched_idle && not (p.policy == sched_idle) in
        let b = s.need_resched || (not same && not out && y) in
        if-Asks b same _ _ (λ f. (s, refl, ground arith))
          (λ f.
            if-Asks b out _ _ (λ g. (s, refl, ground arith))
              (λ g.
                let e : (s1.need_resched || y) ≡ b = ground arith in
                subst (λ w. Asks w (behind curr p idle flags s)) e
                  (by_policy-Asks curr p m (crowded G W curr s) (curr.task == idle) s1 n)))
