-- ===== src/Fair/Counts.antt =====
-- kernel/core/sched/sched_fair.c: what enqueue_task_fair and dequeue_task_fair count.
use kernal.Prelude.{
  ℕ, ◌+◌, ◌%◌, ◌^◌, ◌<◌, ◌≡◌, refl, ap, subst, ◌∙◌, inl, inr, Bool-cases, Option, none, some, List,
  [], ◌∷◌, ◌==◌, if◌then◌else◌, arith,
}
use kernal.Task.Fields.{Pointer}
use kernal.Fair.Load.{ScaleOps}
use kernal.Fair.Timeline.{RbOps, CfsRq}
use kernal.Fair.Runtime.{VruntimeOps}
use kernal.Fair.Queue.{QueueOps, has}
use kernal.Fair.Tasks.{Groups, GroupOps, more, less, enqueue_task_fair, dequeue_task_fair}
use kernal.Fair.Numbers.{number, counted, times, reached, runs, Same}
use kernal.Fair.Kept.{Faults}
use kernal.Fair.Walks.{Ends, enqueue-Ends, dequeue-Ends}

counted-more :
    (q : ℕ) (xs : List ℕ) (n : ℕ) → n < 2 ^ 32 → counted more q xs n ≡ (n + times q xs) % 2 ^ 32
counted-more q [] n l = omega (arith, l)
counted-more q (x ∷ xs) n l = elim (Bool-cases (q == x)) [
  | inl e ↦ rw e (counted-more q xs (more n) (omega arith) ∙ omega arith)
  | inr e ↦ rw e (counted-more q xs n l ∙ omega arith)
]

-- The -- of one queue takes back its ++, whatever was counted between.
less-counted :
    (q : ℕ) (xs : List ℕ) (n : ℕ)
    → n < 2 ^ 32
    → less (counted more q xs (more n)) ≡ counted more q xs n
less-counted q xs n l =
    omega (arith, counted-more q xs (more n) (omega arith), counted-more q xs n l, l)

counted_back :
    (q : ℕ) (xs : List ℕ) (n : ℕ) → n < 2 ^ 32 → counted less q xs (counted more q xs n) ≡ n
counted_back q [] n l = refl
counted_back q (x ∷ xs) n l = elim (Bool-cases (q == x)) [
  | inl e ↦ rw e (ap (counted less q xs) (less-counted q xs n l) ∙ counted_back q xs n l)
  | inr e ↦ rw e (counted_back q xs n l)
]

module _ (G : GroupOps) (Q : QueueOps) (R : RbOps) (V : VruntimeOps) (S : ScaleOps)
    (clear_buddies : Pointer → CfsRq → CfsRq)
    (clear-number : (p : Pointer) (c : CfsRq) → (clear_buddies p c).h_nr_running ≡ c.h_nr_running)
    (now : ℕ) where
  -- How `enqueue_task_fair` ends.
  abbrev pub Enqueued : List ℕ → Groups → Option Groups → Type 0
  Enqueued path g none = Faults Q R V S clear_buddies now clear-number
  Enqueued path g (some g') =
      ((q : ℕ) → number g' q ≡ (number g q + times q (reached G path)) % 2 ^ 32)
      × (g'.nr_running ≡ (if runs G path then G.add_nr_running g.nr_running else g.nr_running))

  Ends-Enqueued :
      (path : List ℕ) (g : Groups) (r : Option Groups)
      → ((q : ℕ) → number g q < 2 ^ 32)
      → Ends G Q R V S clear_buddies now clear-number more G.add_nr_running path g r
      → Enqueued path g r
  Ends-Enqueued path g none small e = e
  Ends-Enqueued path g (some g') small e =
      (λ q. e.0 q ∙ counted-more q (reached G path) (number g q) (small q), e.1)

  -- For queues whose numbers of tasks are below 2^32: enqueue_task_fair raises h_nr_running of
  -- each queue, modulo 2^32, by one for every entity of it from the task's up to the first whose
  -- queue is throttled, that one included, wherever it finds an entity that is queued already, and
  -- counts the task in the run queue only where none of these queues is throttled. It returns, but
  -- where update_curr faults on a queue.
  pub enqueue_task_fair-Enqueued :
      (path : List ℕ) (flags : ℕ) (g : Groups)
      → ((q : ℕ) → number g q < 2 ^ 32)
      → Enqueued path g (enqueue_task_fair G Q R V S clear_buddies now path flags g)
  unfolding enqueue_task_fair
  enqueue_task_fair-Enqueued path flags g small =
      Ends-Enqueued path g _ small
        (enqueue-Ends G Q R V S clear_buddies now clear-number G.add_nr_running flags path g)

  -- All numbers of tasks are those before.
  abbrev pub Restored : Groups → Option Groups → Type 0
  Restored g none = Faults Q R V S clear_buddies now clear-number
  Restored g (some g') = Same G g g'

  Ends-Restored :
      (path : List ℕ) (g g1 : Groups) (r : Option Groups)
      → ((q : ℕ) → number g q < 2 ^ 32)
      → Ends G Q R V S clear_buddies now clear-number more G.add_nr_running path g (some g1)
      → Ends G Q R V S clear_buddies now clear-number less G.sub_nr_running path g1 r
      → Restored g r
  Ends-Restored path g g1 none small a b = b
  Ends-Restored path g g1 (some g') small a b = (
    λ q.
        b.0 q
        ∙ ap (counted less q (reached G path)) (a.0 q)
        ∙ counted_back q (reached G path) (number g q) (small q),
    elim (Bool-cases (runs G path)) [
      | inl e ↦
          let up : g1.nr_running ≡ G.add_nr_running g.nr_running =
            a.1 ∙ ap (λ b. if b then G.add_nr_running g.nr_running else g.nr_running) e in
          b.1
          ∙ ap (λ b. if b then G.sub_nr_running g1.nr_running else g1.nr_running) e
          ∙ ap G.sub_nr_running up
          ∙ G.sub-add g.nr_running
      | inr e ↦
          b.1
          ∙ ap (λ b. if b then G.sub_nr_running g1.nr_running else g1.nr_running) e
          ∙ a.1
          ∙ ap (λ b. if b then G.add_nr_running g.nr_running else g.nr_running) e
    ],
  )

  -- For queues whose numbers of tasks are below 2^32: dequeue_task_fair behind enqueue_task_fair
  -- of the same task, with any flags, restores h_nr_running of every queue and the number of tasks
  -- of the run queue, wherever the two stop on the way up. It returns, but where update_curr
  -- faults on a queue.
  pub dequeue-enqueue_task_fair :
      (path : List ℕ) (flags flags' : ℕ) (g g1 : Groups)
      → ((q : ℕ) → number g q < 2 ^ 32)
      → enqueue_task_fair G Q R V S clear_buddies now path flags g ≡ some g1
      → Restored g (dequeue_task_fair G Q R V S clear_buddies now path flags' g1)
  unfolding enqueue_task_fair dequeue_task_fair
  dequeue-enqueue_task_fair path flags flags' g g1 small e =
      Ends-Restored path g g1 _ small
        (subst (Ends G Q R V S clear_buddies now clear-number more G.add_nr_running path g) e
          (enqueue-Ends G Q R V S clear_buddies now clear-number G.add_nr_running flags path g))
        (dequeue-Ends G Q R V S clear_buddies now clear-number G.sub_nr_running
          (has flags' Q.dequeue_sleep) flags' path g1)
