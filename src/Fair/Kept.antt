-- ===== src/Fair/Kept.antt =====
-- kernel/core/sched/sched_fair.c: an entity that comes or goes leaves the number of tasks of its queue.
use kernal.Prelude.{
  ℕ, ◌+◌, ◌-◌, ◌%◌, ◌^◌, ◌≡◌, refl, ◌∙◌, inl, inr, Bool-cases, Option, none, some, Option-cases,
  arith,
}
use kernal.Task.Fields.{Pointer}
use kernal.Fair.Load.{ScaleOps, calc_delta_fair, ◌>>=◌}
use kernal.Fair.Timeline.{RbOps, CfsRq, __enqueue_entity, __dequeue_entity}
use kernal.Fair.Runtime.{
  VruntimeOps, not_positive, update_curr, update_with, account, charge, update_min_vruntime,
}
use kernal.Fair.Queue.{
  QueueOps, enqueue_entity, dequeue_entity, enqueue_rest, dequeue_rest, place_entity, renormed,
}

-- The number of tasks after a step that may fault.
abbrev pub Keeps : CfsRq → Option CfsRq → Type 0
Keeps c none = Unit
Keeps c (some c') = c'.h_nr_running ≡ c.h_nr_running

module _ (Q : QueueOps) (R : RbOps) (V : VruntimeOps) (S : ScaleOps)
    (clear_buddies : Pointer → CfsRq → CfsRq) (now : ℕ)
    (clear-number : (p : Pointer) (c : CfsRq)
      → (clear_buddies p c).h_nr_running ≡ c.h_nr_running) where
  -- A time that `update_curr` cannot account on some queue.
  abbrev pub Faults : Type 0
  Faults = (c : CfsRq) × (update_curr V S now c ≡ none)

  account-Keeps : (delta se : ℕ) (c : CfsRq) → Keeps c (account V S now delta se c)
  unfolding account charge update_min_vruntime
  account-Keeps delta se c = elim (Option-cases (calc_delta_fair S delta (c.entity se).load)) [
    | inl e ↦ rw e tt
    | inr (r, e) ↦ rw e refl
  ]

  update_with-Keeps : (p : Pointer) (c : CfsRq) → Keeps c (update_with V S now p c)
  unfolding update_with
  update_with-Keeps none c = refl
  update_with-Keeps (some se) c =
      elim (Bool-cases (not_positive V ((now + 2 ^ 64 - (c.entity se).exec_start) % 2 ^ 64))) [
        | inl e ↦ rw e refl
        | inr e ↦ rw e (account-Keeps _ se c)
      ]

  -- A queue after `update_curr` and what a function does with it.
  after_update :
      (f : CfsRq → CfsRq) (c0 c : CfsRq)
      → c.h_nr_running ≡ c0.h_nr_running
      → ((c1 : CfsRq) → (f c1).h_nr_running ≡ c1.h_nr_running)
      → (r : Option CfsRq) → Keeps c r
      → Keeps c0 (r >>= λ c1. some (f c1))
  after_update f c0 c same keep none k = tt
  after_update f c0 c same keep (some c1) k = keep c1 ∙ k ∙ same

  enqueue_rest-number :
      (se flags : ℕ) (c : CfsRq) → (enqueue_rest Q R V se flags c).h_nr_running ≡ c.h_nr_running
  unfolding enqueue_rest place_entity __enqueue_entity
  enqueue_rest-number se flags c = ground arith

  renormed-number :
      (se flags : ℕ) (c : CfsRq) → (renormed Q R V se flags c).h_nr_running ≡ c.h_nr_running
  unfolding renormed
  renormed-number se flags c = ground arith

  dequeue_rest-number :
      (se flags : ℕ) (c : CfsRq) → (dequeue_rest Q R V se flags c).h_nr_running ≡ c.h_nr_running
  unfolding dequeue_rest __dequeue_entity update_min_vruntime
  dequeue_rest-number se flags c = ground arith

  pub enqueue_entity-Keeps :
      (se flags : ℕ) (c : CfsRq) → Keeps c (enqueue_entity Q R V S clear_buddies now se flags c)
  unfolding enqueue_entity update_curr
  enqueue_entity-Keeps se flags c =
      let c1 = renormed Q R V se flags c in
      after_update (enqueue_rest Q R V se flags) c c1 (renormed-number se flags c)
        (enqueue_rest-number se flags) _ (update_with-Keeps c1.curr c1)

  pub dequeue_entity-Keeps :
      (se flags : ℕ) (c : CfsRq) → Keeps c (dequeue_entity Q R V S clear_buddies now se flags c)
  unfolding dequeue_entity update_curr
  dequeue_entity-Keeps se flags c =
      after_update (λ c1. dequeue_rest Q R V se flags (clear_buddies (some se) c1)) c c refl
        (λ c1. dequeue_rest-number se flags _ ∙ clear-number (some se) c1) _
        (update_with-Keeps c.curr c)

  fault_of : (f : CfsRq → CfsRq) (r : Option CfsRq) → (r >>= λ c. some (f c)) ≡ none → r ≡ none
  fault_of f none e = refl
  fault_of f (some c) e = absurd (cc)

  pub enqueue_entity-Faults :
      (se flags : ℕ) (c : CfsRq)
      → enqueue_entity Q R V S clear_buddies now se flags c ≡ none
      → Faults
  unfolding enqueue_entity
  enqueue_entity-Faults se flags c e =
      (renormed Q R V se flags c, fault_of (enqueue_rest Q R V se flags) _ e)

  pub dequeue_entity-Faults :
      (se flags : ℕ) (c : CfsRq)
      → dequeue_entity Q R V S clear_buddies now se flags c ≡ none
      → Faults
  unfolding dequeue_entity
  dequeue_entity-Faults se flags c e =
      (c, fault_of (λ c1. dequeue_rest Q R V se flags (clear_buddies (some se) c1)) _ e)
