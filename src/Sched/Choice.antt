-- ===== src/Sched/Choice.antt =====
-- kernel/core/sched/sched.c: the two ways of `pick_next_task`.
use kernal.Prelude.{
  ℕ, ◌≡◌, ◌≢◌, ◌⊎◌, ==_iff, refl, sym, ◌∙◌, inl, inr, Bool-cases, Option-cases, none, some, List,
  [], ◌∷◌, ◌++◌, ◌==◌,
}
use kernal.Task.Fields.{Pointer}
use kernal.Sched.Switch.{System, SchedClass, SchedOps, class_loop, pick_next_task}

module _ {S : Type 0} (O : SchedOps S) where
  pub walk_keeps :
      (cs : List (SchedClass S)) (prev : Pointer) (s : System S)
      → ((class_loop cs prev s).1.kernel ≡ s.kernel) × ((class_loop cs prev s).1.rq ≡ s.rq)
  unfolding class_loop
  walk_keeps [] prev s = (refl, refl)
  walk_keeps (c ∷ cs) prev s =
      let r = c.pick_next_task prev s in
      elim (Option-cases r.0) [
        | inl e ↦ rw (e, class_loop) (walk_keeps cs prev (record s { classes = r.1 }))
        | inr (p, e) ↦ rw (e, class_loop) (refl, refl)
      ]

  pub pick_keeps :
      (prev : Pointer) (s : System S)
      → ((pick_next_task O prev s).1.kernel ≡ s.kernel) × ((pick_next_task O prev s).1.rq ≡ s.rq)
  unfolding pick_next_task
  pick_keeps prev s = elim (Bool-cases (O.nr_running s.classes == O.h_nr_running s.classes)) [
    | inl same ↦
        let r = O.fair.pick_next_task prev s in
        rw same (elim (Option-cases r.0) [
          | inl e ↦ rw e (walk_keeps O.sched_class_list prev (record s { classes = r.1 }))
          | inr (p, e) ↦ rw e (refl, refl)
        ])
    | inr other ↦ rw other (walk_keeps O.sched_class_list prev s)
  ]

  -- Classes that have no task in this state, and so leave it.
  abbrev pub AllIdle : List (SchedClass S) → Pointer → System S → Type 0
  AllIdle [] prev s = Unit
  AllIdle (c ∷ cs) prev s =
      ((c.pick_next_task prev s).0 ≡ none)
      × ((c.pick_next_task prev s).1 ≡ s.classes)
      × AllIdle cs prev s

  walk_past :
      (above cs : List (SchedClass S)) (prev : Pointer) (s : System S)
      → AllIdle above prev s
      → class_loop (above ++ cs) prev s ≡ class_loop cs prev s
  unfolding class_loop
  walk_past [] cs prev s idle = refl
  walk_past (c ∷ above) cs prev s (e, k, idle) =
      rw (e, class_loop) (rw k (walk_past above cs prev s idle))

  -- The classes in front of the fair class have no task and leave the state, and the fair class
  -- leaves it where it has none.
  abbrev pub OnlyFair : List (SchedClass S) → Pointer → System S → Type 0
  OnlyFair above prev s =
      AllIdle above prev s
      × (((O.fair.pick_next_task prev s).1 ≡ s.classes) ⊎ ((O.fair.pick_next_task prev s).0 ≢ none))

  -- Where equal counts of tasks, nr_running and h_nr_running, mean that the classes in front of
  -- the fair class have no task and leave the state, and that the fair class leaves it where it
  -- has none: pick_next_task is the walk over all classes, whatever the counts are. Its test of
  -- the two counts saves work and changes nothing.
  pub pick_next_task-class_loop :
      (above below : List (SchedClass S)) (prev : Pointer) (s : System S)
      → O.sched_class_list ≡ above ++ O.fair ∷ below
      → (O.nr_running s.classes ≡ O.h_nr_running s.classes → OnlyFair above prev s)
      → pick_next_task O prev s ≡ class_loop O.sched_class_list prev s
  unfolding pick_next_task
  pick_next_task-class_loop above below prev s order only =
      elim (Bool-cases (O.nr_running s.classes == O.h_nr_running s.classes)) [
        | inl same ↦
            let (idle, left) = only ((==_iff _ _).0 same) in
            elim (Option-cases (O.fair.pick_next_task prev s).0) [
              | inl e ↦
                  let empty : (O.fair.pick_next_task prev s).1 ≡ s.classes = elim left [
                    | inl q ↦ q
                    | inr n ↦ absurd (n e)
                  ] in
                  rw (same, e) (rw empty)
              | inr (p, e) ↦ rw (same, e) (sym (found idle p e))
            ]
        | inr other ↦ rw other
      ]
    where
      found :
          AllIdle above prev s
          → (p : ℕ) → (O.fair.pick_next_task prev s).0 ≡ some p
          → class_loop O.sched_class_list prev s
            ≡ (some p, record s { classes = (O.fair.pick_next_task prev s).1 })
      found idle p e = rw order (walk_past above (O.fair ∷ below) prev s idle ∙ first p e)
        where
          first :
              (p : ℕ)
              → (O.fair.pick_next_task prev s).0 ≡ some p
              → class_loop (O.fair ∷ below) prev s
                ≡ (some p, record s { classes = (O.fair.pick_next_task prev s).1 })
          first p e = unfold class_loop in rw e
