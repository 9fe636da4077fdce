-- ===== src/Fair/Walks.antt =====
-- kernel/core/sched/sched_fair.c: a task that comes or goes, counted by the groups above it.
use Prim.Native.Nat.{bit_or}
use kernal.Prelude.{
  ℕ, ◌≡◌, refl, sym, ap, subst, inl, inr, Bool, false, Bool-cases, Option, none, some, Option-cases,
  List, [], ◌∷◌, ◌==◌, if◌then◌else◌, arith,
}
use kernal.Task.Fields.{Pointer}
use kernal.Fair.Load.{ScaleOps, ◌>>=◌}
use kernal.Fair.Timeline.{RbOps, CfsRq}
use kernal.Fair.Runtime.{VruntimeOps}
use kernal.Fair.Queue.{QueueOps, enqueue_entity, dequeue_entity}
use kernal.Fair.Tasks.{
  Groups, GroupOps, more, less, set_cfs, count_by, groups_loop, count_task, enqueue_loop,
  dequeue_loop, next_buddy,
}
use kernal.Fair.Kept.{
  Keeps, Faults, enqueue_entity-Keeps, dequeue_entity-Keeps, enqueue_entity-Faults,
  dequeue_entity-Faults,
}
use kernal.Fair.Numbers.{number, Counted, Same, Same-Counted, Counted-step, groups_loop-Counted}

module _ (G : GroupOps) where
  open G use {cfs_rq_of, cfs_rq_throttled}

  module _ (Q : QueueOps) (R : RbOps) (V : VruntimeOps) (S : ScaleOps)
      (clear_buddies : Pointer → CfsRq → CfsRq) (now : ℕ)
      (clear-number : (p : Pointer) (c : CfsRq)
        → (clear_buddies p c).h_nr_running ≡ c.h_nr_running) where
    -- How a walk over the groups ends.
    abbrev pub Ends : (ℕ → ℕ) → (ℕ → ℕ) → List ℕ → Groups → Option Groups → Type 0
    Ends f t path g none = Faults Q R V S clear_buddies now clear-number
    Ends f t path g (some g') = Counted G f t path g g'

    abbrev pub finish : (ℕ → ℕ) → (ℕ → ℕ) → Option (List ℕ × Groups) → Option Groups
    finish f t r = r >>= λ x. some (count_task t (groups_loop G f x.0 x.1))

    Ends-step :
        (f t : ℕ → ℕ) (se : ℕ) (up : List ℕ) (g g1 : Groups) (r : Option Groups)
        → cfs_rq_throttled (cfs_rq_of se) ≡ false
        → ((q : ℕ) → number g1 q ≡ (if q == cfs_rq_of se then f (number g q) else number g q))
        → g1.nr_running ≡ g.nr_running
        → Ends f t up g1 r
        → Ends f t (se ∷ up) g r
    Ends-step f t se up g g1 none run s n c = c
    Ends-step f t se up g g1 (some g') run s n c = rw run (Counted-step G f t se up g g1 g' s n c)

    -- The step of a queue keeps its number.
    stepped :
        (q : ℕ) (c : CfsRq) (g : Groups) → c.h_nr_running ≡ number g q → Same G g (set_cfs q c g)
    stepped q c g k = (λ x. ground (arith, k), refl)

    counts :
        (f : ℕ → ℕ) (q : ℕ) (c : CfsRq) (g : Groups)
        → c.h_nr_running ≡ number g q
        → (x : ℕ)
        → number (count_by f q (set_cfs q c g)) x ≡ (if x == q then f (number g x) else number g x)
    counts f q c g k x = ground (arith, k)

    pub enqueue-Ends :
        (t : ℕ → ℕ) (flags : ℕ) (path : List ℕ) (g : Groups)
        → Ends more t path g (finish more t (enqueue_loop G Q R V S clear_buddies now flags path g))
    unfolding enqueue_loop
    enqueue-Ends t flags [] g = groups_loop-Counted G more t [] g
    enqueue-Ends t flags (se ∷ up) g =
        let q = cfs_rq_of se in
        let goal = Ends more t (se ∷ up) g in
        let loop = enqueue_loop G Q R V S clear_buddies now flags (se ∷ up) g in
        elim (Bool-cases ((g.cfs q).entity se).on_rq) [
          | inl on ↦
              let is : loop ≡ some (se ∷ up, g) = rw on refl in
              subst goal (sym (ap (finish more t) is)) (groups_loop-Counted G more t (se ∷ up) g)
          | inr off ↦
              elim (Option-cases (enqueue_entity Q R V S clear_buddies now se flags (g.cfs q))) [
                | inl e ↦
                    let is : loop ≡ none = rw (off, e) refl in
                    subst goal (sym (ap (finish more t) is))
                      (enqueue_entity-Faults Q R V S clear_buddies now clear-number se flags _ e)
                | inr (c, e) ↦
                    let k : c.h_nr_running ≡ number g q = subst (Keeps (g.cfs q)) e (
                      enqueue_entity-Keeps Q R V S clear_buddies now clear-number se flags
                        (g.cfs q)) in
                    let g1 = set_cfs q c g in
                    elim (Bool-cases (cfs_rq_throttled q)) [
                      | inl stop ↦
                          let is : loop ≡ some (se ∷ up, g1) = rw (off, e, stop) refl in
                          subst goal (sym (ap (finish more t) is)) (
                            Same-Counted G more t (se ∷ up) g g1
                              (count_task t (groups_loop G more (se ∷ up) g1)) (stepped q c g k)
                              (groups_loop-Counted G more t (se ∷ up) g1))
                      | inr run ↦
                          let g2 = count_by more q g1 in
                          let rest =
                            enqueue_loop G Q R V S clear_buddies now Q.enqueue_wakeup up g2 in
                          let is : loop ≡ rest = rw (off, e, run) refl in
                          subst goal (sym (ap (finish more t) is)) (
                            Ends-step more t se up g g2 (finish more t rest) run
                              (counts more q c g k) refl (enqueue-Ends t Q.enqueue_wakeup up g2))
                    ]
              ]
        ]

    next_buddy-Same :
        (task_sleep : Bool) (q : ℕ) (up : List ℕ) (g : Groups)
        → Same G g (next_buddy G task_sleep q up g)
    next_buddy-Same task_sleep q [] g = (λ x. refl, refl)
    next_buddy-Same task_sleep q (se ∷ up) g =
        (λ x. ground (arith, G.buddy-number se g.cfs x), ground arith)

    pub dequeue-Ends :
        (t : ℕ → ℕ) (sleep : Bool) (flags : ℕ) (path : List ℕ) (g : Groups)
        → Ends less t path g
            (finish less t (dequeue_loop G Q R V S clear_buddies now sleep flags path g))
    unfolding dequeue_loop
    dequeue-Ends t sleep flags [] g = groups_loop-Counted G less t [] g
    dequeue-Ends t sleep flags (se ∷ up) g =
        let q = cfs_rq_of se in
        let goal = Ends less t (se ∷ up) g in
        let loop = dequeue_loop G Q R V S clear_buddies now sleep flags (se ∷ up) g in
        elim (Option-cases (dequeue_entity Q R V S clear_buddies now se flags (g.cfs q))) [
          | inl e ↦
              let is : loop ≡ none = rw e refl in
              subst goal (sym (ap (finish less t) is))
                (dequeue_entity-Faults Q R V S clear_buddies now clear-number se flags _ e)
          | inr (c, e) ↦
              let k : c.h_nr_running ≡ number g q =
                subst (Keeps (g.cfs q)) e (
                  dequeue_entity-Keeps Q R V S clear_buddies now clear-number se flags (g.cfs q)) in
              let g1 = set_cfs q c g in
              let g2 = count_by less q g1 in
              elim (Bool-cases (cfs_rq_throttled q)) [
                | inl stop ↦
                    let is : loop ≡ some (se ∷ up, g1) = rw (e, stop) refl in
                    subst goal (sym (ap (finish less t) is)) (
                      Same-Counted G less t (se ∷ up) g g1
                        (count_task t (groups_loop G less (se ∷ up) g1)) (stepped q c g k)
                        (groups_loop-Counted G less t (se ∷ up) g1))
                | inr run ↦ elim (Bool-cases ((g2.cfs q).load.weight == 0)) [
                  | inr left ↦
                      let g3 = next_buddy G sleep q up g2 in
                      let is : loop ≡ some (up, g3) = rw (e, run, left) refl in
                      let g4 = count_task t (groups_loop G less up g3) in
                      subst goal (sym (ap (finish less t) is)) (
                        Ends-step less t se up g g2 (some g4) run (counts less q c g k) refl (
                          Same-Counted G less t up g2 g3 g4 (next_buddy-Same sleep q up g2)
                            (groups_loop-Counted G less t up g3)))
                  | inl empty ↦
                      let rest =
                        dequeue_loop G Q R V S clear_buddies now sleep
                          (bit_or flags Q.dequeue_sleep) up g2 in
                      let is : loop ≡ rest = rw (e, run, empty) refl in
                      subst goal (sym (ap (finish less t) is)) (
                        Ends-step less t se up g g2 (finish less t rest) run (counts less q c g k)
                          refl (dequeue-Ends t sleep (bit_or flags Q.dequeue_sleep) up g2))
                ]
              ]
        ]
