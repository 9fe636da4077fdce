-- ===== src/Fair/Tasks.antt =====
-- kernel/core/sched/sched_fair.c: a task comes and goes, with the groups above it.
use Prim.Native.Nat.{bit_or}
use kernal.Prelude.{
  ℕ, ◌+◌, ◌-◌, ◌%◌, ◌^◌, ◌≡◌, Bool, not, ◌&&◌, Option, some, List, [], ◌∷◌, ◌==◌, if◌then◌else◌,
}
use kernal.Buddy.{write}
use kernal.Task.Fields.{Pointer}
use kernal.Fair.Load.{ScaleOps, ◌>>=◌}
use kernal.Fair.Timeline.{RbOps, CfsRq}
use kernal.Fair.Runtime.{VruntimeOps}
use kernal.Fair.Queue.{QueueOps, has, enqueue_entity, dequeue_entity}

-- The queues of the groups by address, and `nr_running` of the run queue.
pub record Groups : Type 0 where
  pub cfs : ℕ → CfsRq
  pub nr_running : ℕ

-- What no file defines. `cfs_rq_of` is the queue of an entity; `cfs_rq_throttled` reads a field that
-- nothing here writes. The accounts of load and the choice of a buddy leave the number of tasks, and
-- `sub_nr_running` takes back `add_nr_running`.
pub record GroupOps : Type 0 where
  pub cfs_rq_of : ℕ → ℕ
  pub cfs_rq_throttled : ℕ → Bool
  pub throttled_hierarchy : ℕ → Bool
  pub update_load_avg : ℕ → CfsRq → CfsRq
  pub update_cfs_shares : CfsRq → CfsRq
  pub set_next_buddy : ℕ → (ℕ → CfsRq) → ℕ → CfsRq
  pub add_nr_running : ℕ → ℕ
  pub sub_nr_running : ℕ → ℕ
  pub load-number : (se : ℕ) (c : CfsRq) → (update_load_avg se c).h_nr_running ≡ c.h_nr_running
  pub shares-number : (c : CfsRq) → (update_cfs_shares c).h_nr_running ≡ c.h_nr_running
  pub buddy-number :
      (se : ℕ) (f : ℕ → CfsRq) (q : ℕ) → (set_next_buddy se f q).h_nr_running ≡ (f q).h_nr_running
  pub sub-add : (n : ℕ) → sub_nr_running (add_nr_running n) ≡ n

-- cfs_rq->h_nr_running++ and cfs_rq->h_nr_running--
abbrev pub more : ℕ → ℕ
more n = (n + 1) % 2 ^ 32

abbrev pub less : ℕ → ℕ
less n = (n + 2 ^ 32 - 1) % 2 ^ 32

abbrev pub set_cfs : ℕ → CfsRq → Groups → Groups
set_cfs q c g = record g { cfs = write g.cfs q c }

abbrev pub count_by : (ℕ → ℕ) → ℕ → Groups → Groups
count_by f q g = set_cfs q (record (g.cfs q) { h_nr_running = f (g.cfs q).h_nr_running }) g

-- if (!se)
abbrev pub count_task : (ℕ → ℕ) → List ℕ × Groups → Groups
count_task f ([], g) = record g { nr_running = f g.nr_running }
count_task f (se ∷ up, g) = g

module _ (G : GroupOps) where
  open G use {
    cfs_rq_of, cfs_rq_throttled, throttled_hierarchy, update_load_avg, update_cfs_shares,
    set_next_buddy, add_nr_running, sub_nr_running,
  }

  -- The second loop of both functions over the entities that are left, and where it ends; `f` is
  -- the ++ or the --.
  unfoldable pub groups_loop : (ℕ → ℕ) → List ℕ → Groups → List ℕ × Groups
  groups_loop f [] g = ([], g)
  groups_loop f (se ∷ up) g =
      let q = cfs_rq_of se in
      let g1 = count_by f q g in
      let g2 = set_cfs q (update_cfs_shares (update_load_avg se (g1.cfs q))) g1 in
      let rest = groups_loop f up g2 in if cfs_rq_throttled q then (se ∷ up, g1) else rest

  abbrev pub next_buddy : Bool → ℕ → List ℕ → Groups → Groups
  next_buddy task_sleep q [] g = g
  next_buddy task_sleep q (se ∷ up) g =
      if task_sleep && not (throttled_hierarchy q)
      then record g { cfs = set_next_buddy se g.cfs }
      else g

  module _ (Q : QueueOps) (R : RbOps) (V : VruntimeOps) (S : ScaleOps)
      (clear_buddies : Pointer → CfsRq → CfsRq) (now : ℕ) where
    open Q use {enqueue_wakeup, dequeue_sleep}

    -- The first loop of `enqueue_task_fair`, and the entities from the one that it ends at.
    unfoldable pub enqueue_loop : ℕ → List ℕ → Groups → Option (List ℕ × Groups)
    unfolding enqueue_entity
    enqueue_loop flags [] g = some ([], g)
    enqueue_loop flags (se ∷ up) g =
        let q = cfs_rq_of se in
        let step = enqueue_entity Q R V S clear_buddies now se flags (g.cfs q) >>= λ c.
        let g1 = set_cfs q c g in
        let rest = enqueue_loop enqueue_wakeup up (count_by more q g1) in
        if cfs_rq_throttled q then some (se ∷ up, g1) else rest in
        if ((g.cfs q).entity se).on_rq then some (se ∷ up, g) else step

    -- `path` is the entity of the task and those above it, as `for_each_sched_entity` goes through
    -- them. The tick of `hrtick_update` is left out.
    unfoldable pub enqueue_task_fair : List ℕ → ℕ → Groups → Option Groups
    unfolding enqueue_loop groups_loop
    enqueue_task_fair path flags g = enqueue_loop flags path g >>= λ r.
        some (count_task add_nr_running (groups_loop more r.0 r.1))

    unfoldable pub dequeue_loop : Bool → ℕ → List ℕ → Groups → Option (List ℕ × Groups)
    unfolding dequeue_entity
    dequeue_loop task_sleep flags [] g = some ([], g)
    dequeue_loop task_sleep flags (se ∷ up) g =
        let q = cfs_rq_of se in
        dequeue_entity Q R V S clear_buddies now se flags (g.cfs q) >>= λ c.
        let g1 = set_cfs q c g in
        let g2 = count_by less q g1 in
        let rest = dequeue_loop task_sleep (bit_or flags dequeue_sleep) up g2 in
        if cfs_rq_throttled q
        then some (se ∷ up, g1)
        else if not ((g2.cfs q).load.weight == 0)
        then some (up, next_buddy task_sleep q up g2)
        else rest

    unfoldable pub dequeue_task_fair : List ℕ → ℕ → Groups → Option Groups
    unfolding dequeue_loop groups_loop
    dequeue_task_fair path flags g = dequeue_loop (has flags dequeue_sleep) flags path g >>= λ r.
        some (count_task sub_nr_running (groups_loop less r.0 r.1))
