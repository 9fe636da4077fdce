-- ===== src/Sched/Lazy.antt =====
-- kernel/core/sched/sched.c: the references to memory descriptors that a switch takes and gives back.
use kernal.Prelude.{
  ℕ, ◌+◌, ◌-◌, ◌%◌, ◌^◌, ◌≡◌, ◌≢◌, inl, inr, refl, sym, ap, ◌∙◌, Bool-cases, false, none, some,
  ◌==◌, if◌then◌else◌, arith, ==_refl,
}
use kernal.Buddy.{write}
use kernal.Task.Fields.{Pointer, Task}
use kernal.Task.Life.{Kernel, kfree, free_stack, set_usage, free_task_struct, put_task_struct}
use kernal.Task.Fork.{Outcome, done, panic, fault}
use kernal.Sched.Switch.{
  System, SchedOps, set_kernel, drop_mm, borrow_mm, leave_mm, finish_task_switch, switched,
  context_switch, set_active_mm,
}

-- What a task that leaves no word on the memory of others keeps.
record Kept (p : ℕ) (k k' : Kernel) : Type 0 where
  count : k'.mm_count ≡ k.mm_count
  current : k'.current ≡ k.current
  others : (q : ℕ) → q ≢ p → k'.task q ≡ k.task q

kfree-Kept : (p q : ℕ) (k : Kernel) → Kept p k (kfree q k)
unfolding kfree
kfree-Kept p q k = record { count = refl; current = refl; others = λ x ne. refl }

Kept-trans : (p : ℕ) (k k' k'' : Kernel) → Kept p k k' → Kept p k' k'' → Kept p k k''
Kept-trans p k k' k'' a b = record {
  count = b.count ∙ a.count;
  current = b.current ∙ a.current;
  others = λ q ne. b.others q ne ∙ a.others q ne;
}

stack-Kept : (p : ℕ) (s : Pointer) (k : Kernel) → Kept p k (free_stack s k)
unfolding free_stack
stack-Kept p none k = record { count = refl; current = refl; others = λ x ne. refl }
stack-Kept p (some s) k = kfree-Kept p s k

put-Kept : (p : ℕ) (k : Kernel) → Kept p k (put_task_struct p k)
unfolding put_task_struct free_task_struct
put-Kept p k =
    let k1 = set_usage p ((k.task p).usage + 2 ^ 32 - 1) k in
    let first : Kept p k k1 = record {
      count = refl;
      current = refl;
      others = λ q ne. let other : (q == p) ≡ false = ground arith in rw other;
    } in
    elim (Bool-cases ((k1.task p).usage == 0)) [
      | inl e ↦ rw e (
          Kept-trans p k k1 _ first (
            Kept-trans p k1 (free_stack (k1.task p).stack k1) _ (stack-Kept p (k1.task p).stack k1)
              (kfree-Kept p p (free_stack (k1.task p).stack k1))))
      | inr e ↦ rw e first
    ]

-- A task with no memory of its own borrows one.
abbrev pub lent : Pointer → Pointer → ℕ → ℕ
lent none (some a) m = if a == m then 1 else 0
lent none none m = 0
lent (some mm) active m = 0

abbrev pub borrowed : Task → ℕ → ℕ
borrowed t = lent t.space.mm t.space.active_mm

module _ {S : Type 0} (O : SchedOps S) where
  abbrev pub Balanced : System S → ℕ → ℕ → Outcome (System S) → Type 0
  Balanced s prev next (done s') =
      (s'.kernel.current ≡ s.kernel.current)
      × (s'.rq.curr ≡ s.rq.curr)
      × (s'.rq.prev_mm ≡ none)
      × ((m : ℕ)
          → (s'.kernel.mm_count m + borrowed (s.kernel.task prev) m) % 2 ^ 32
            ≡ (s.kernel.mm_count m + borrowed (s'.kernel.task next) m) % 2 ^ 32)
  Balanced s prev next panic = ⊥
  Balanced s prev next fault =
      ((s.kernel.task next).space.mm ≡ none) × ((s.kernel.task prev).space.active_mm ≡ none)

  finish-Kept :
      (prev : ℕ) (s : System S)
      → Kept prev (drop_mm O s.rq.prev_mm s.kernel) (finish_task_switch O prev s).kernel
  unfolding finish_task_switch
  finish-Kept prev s = elim (Bool-cases ((s.kernel.task prev).state == O.task_dead)) [
    | inl e ↦ rw e (put-Kept prev _)
    | inr e ↦ rw e (record { count = refl; current = refl; others = λ x ne. refl })
  ]

  drop-count :
      (om : Pointer) (k : Kernel) (m : ℕ)
      → ((drop_mm O om k).mm_count m + lent none om m) % 2 ^ 32 ≡ k.mm_count m % 2 ^ 32
  drop-count none k m = omega arith
  drop-count (some o) k m = rw (O.mmdrop-count o k.mm_count) (ground arith)

  -- The state behind `borrow_mm`.
  record IsBorrowed (s : System S) (k : Kernel) (prev next : ℕ) : Type 0 where
    same : k.task prev ≡ s.kernel.task prev
    current : k.current ≡ s.kernel.current
    count :
        (m : ℕ) → k.mm_count m % 2 ^ 32 ≡ (s.kernel.mm_count m + borrowed (k.task next) m) % 2 ^ 32

  drop_task : (om : Pointer) (k : Kernel) (q : ℕ) → (drop_mm O om k).task q ≡ k.task q
  drop_task none k q = refl
  drop_task (some o) k q = refl

  drop_current : (om : Pointer) (k : Kernel) → (drop_mm O om k).current ≡ k.current
  drop_current none k = refl
  drop_current (some o) k = refl

  finish_prev_mm : (prev : ℕ) (t : System S) → (finish_task_switch O prev t).rq.prev_mm ≡ none
  unfolding finish_task_switch
  finish_prev_mm prev t = refl

  finish_curr : (prev : ℕ) (t : System S) → (finish_task_switch O prev t).rq.curr ≡ t.rq.curr
  unfolding finish_task_switch
  finish_curr prev t = refl

  finished-Balanced :
      (s t : System S) (prev next : ℕ)
      → prev ≢ next
      → t.kernel.current ≡ s.kernel.current
      → t.rq.curr ≡ s.rq.curr
      → ((m : ℕ)
          → ((drop_mm O t.rq.prev_mm t.kernel).mm_count m + borrowed (s.kernel.task prev) m)
              % 2 ^ 32
            ≡ (s.kernel.mm_count m + borrowed (t.kernel.task next) m) % 2 ^ 32)
      → Balanced s prev next (done (finish_task_switch O prev t))
  finished-Balanced s t prev next ne cur stays counts =
      let f = finish-Kept prev t in
      let same = f.others next (λ e. ne (sym e)) ∙ drop_task t.rq.prev_mm t.kernel next in
      (
        f.current ∙ drop_current t.rq.prev_mm t.kernel ∙ cur,
        finish_curr prev t ∙ stays,
        finish_prev_mm prev t,
        λ m.
            ap (λ c. (c m + borrowed (s.kernel.task prev) m) % 2 ^ 32) f.count
            ∙ counts m
            ∙ ap (λ q. (s.kernel.mm_count m + borrowed q m) % 2 ^ 32) (sym same),
      )

  -- The state before `finish_task_switch`, for the memory `pm` of the previous task.
  abbrev left : ℕ → ℕ → Pointer → Pointer → System S → Kernel → System S
  left prev next pm om s k = leave_mm prev pm om (set_kernel k s)

  left-Balanced :
      (s : System S) (k : Kernel) (prev next : ℕ) (om pm : Pointer)
      → prev ≢ next
      → s.rq.prev_mm ≡ none
      → (s.kernel.task prev).space.active_mm ≡ om
      → (s.kernel.task prev).space.mm ≡ pm
      → IsBorrowed s k prev next
      → Balanced s prev next (done (finish_task_switch O prev (left prev next pm om s k)))
  unfolding leave_mm
  left-Balanced s k prev next om none ne free eo ep b =
      let apart : (next == prev) ≡ false = ground arith in
      finished-Balanced s _ prev next ne b.current refl
        (λ m. rw (eo, ep, apart) (drop-count om (left prev next none om s k).kernel m ∙ b.count m))
  left-Balanced s k prev next om (some mm) ne free eo ep b =
      finished-Balanced s _ prev next ne b.current refl
        (λ m. rw (free, ep) (omega (arith, b.count m)))

  switched-Balanced :
      (s : System S) (k : Kernel) (prev next : ℕ)
      → prev ≢ next
      → s.rq.prev_mm ≡ none
      → IsBorrowed s k prev next
      → Balanced s prev next (switched O prev next (s.kernel.task prev).space.active_mm s (done k))
  switched-Balanced s k prev next ne free b = rw b.same (
      left-Balanced s k prev next (s.kernel.task prev).space.active_mm (s.kernel.task prev).space.mm
        ne free refl refl b)

  own-IsBorrowed :
      (s : System S) (prev next mm : ℕ)
      → (s.kernel.task next).space.mm ≡ some mm
      → IsBorrowed s s.kernel prev next
  own-IsBorrowed s prev next mm e = record {
    same = refl;
    current = refl;
    count = λ m. rw e (omega arith);
  }

  -- The kernel where `next` has borrowed the memory `o`.
  abbrev lending : ℕ → ℕ → Kernel → Kernel
  lending next o k = record (set_active_mm next (some o) k) {
    mm_count = write k.mm_count o ((k.mm_count o + 1) % 2 ^ 32);
  }

  lending-IsBorrowed :
      (s : System S) (prev next o : ℕ)
      → prev ≢ next
      → (s.kernel.task next).space.mm ≡ none
      → IsBorrowed s (lending next o s.kernel) prev next
  lending-IsBorrowed s prev next o ne e =
      let apart : (prev == next) ≡ false = ground arith in
      record { same = rw apart; current = refl; count = λ m. rw (==_refl next, e) (ground arith) }

  -- A switch between two tasks, on a kernel whose run queue has no descriptor to drop.
  pub context_switch-Balanced :
      (s : System S) (prev next : ℕ)
      → prev ≢ next
      → s.rq.prev_mm ≡ none
      → Balanced s prev next (context_switch O prev next s)
  unfolding context_switch borrow_mm
  context_switch-Balanced s prev next ne free =
      from (s.kernel.task next).space.mm (s.kernel.task prev).space.active_mm refl refl
    where
      from :
          (nm om : Pointer)
          → (s.kernel.task next).space.mm ≡ nm
          → (s.kernel.task prev).space.active_mm ≡ om
          → Balanced s prev next (
              switched O prev next
                (s.kernel.task prev).space.active_mm
                s
                (borrow_mm next nm om s.kernel))
      from (some mm) om en eo =
          switched-Balanced s s.kernel prev next ne free (own-IsBorrowed s prev next mm en)
      from none none en eo = (en, eo)
      from none (some o) en eo =
          switched-Balanced s (lending next o s.kernel) prev next ne free
            (lending-IsBorrowed s prev next o ne en)
