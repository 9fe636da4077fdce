-- ===== src/Fair/GroupTests.antt =====
-- kernel/core/sched/sched_fair.c: a task in a group, with the entities 4 and 5 on the queues 1 and 0.
use kernal.Prelude.{
  ℕ, ◌+◌, ◌-◌, ◌≡◌, refl, false, Option, none, some, [], ◌∷◌, ◌==◌, if◌then◌else◌, arith,
}
use kernal.Fair.Timeline.{CfsRq, descend, entity_key, __enqueue_entity}
use kernal.Fair.Runtime.{update_curr, update_with}
use kernal.Fair.Queue.{enqueue_entity, renormed, enqueue_rest, place_entity}
use kernal.Fair.Tasks.{
  Groups, GroupOps, groups_loop, enqueue_loop, enqueue_task_fair, dequeue_task_fair,
}
use kernal.Fair.Counts.{Enqueued, enqueue_task_fair-Enqueued, Restored, dequeue-enqueue_task_fair}
use kernal.Fair.Samples.{scale, plain, vruntimes, accounts, queue}

plus_minus : (n : ℕ) → n + 1 - 1 ≡ n
plus_minus n = omega arith

abbrev groups : GroupOps
groups = record {
  cfs_rq_of = λ se. if se == 4 then 1 else 0;
  cfs_rq_throttled = λ q. false;
  throttled_hierarchy = λ q. false;
  update_load_avg = λ se c. c;
  update_cfs_shares = λ c. c;
  set_next_buddy = λ se f. f;
  add_nr_running = λ n. n + 1;
  sub_nr_running = λ n. n - 1;
  load-number = λ se c. refl;
  shares-number = λ c. refl;
  buddy-number = λ se f q. refl;
  sub-add = plus_minus;
}

-- No entity is on a queue.
abbrev waiting : CfsRq
waiting = record queue { curr = none; entity = λ q. record (queue.entity q) { on_rq = false } }

abbrev two_groups : Groups
two_groups = record { cfs = λ q. waiting; nr_running = 3 }

enqueue_task_fair-Enqueued_example :
    Enqueued groups accounts plain vruntimes scale
      (λ p c. c)
      (λ p c. refl)
      6000
      (4 ∷ 5 ∷ [])
      two_groups
      (enqueue_task_fair groups accounts plain vruntimes scale
        (λ p c. c)
        6000
        (4 ∷ 5 ∷ [])
        1
        two_groups)
enqueue_task_fair-Enqueued_example =
    enqueue_task_fair-Enqueued groups accounts plain vruntimes scale (λ p c. c) (λ p c. refl) 6000
      (4 ∷ 5 ∷ []) 1 two_groups (λ q. omega arith)

abbrev counts_of : Option Groups → Option (ℕ × ℕ × ℕ)
counts_of none = none
counts_of (some g) = some ((g.cfs 1).h_nr_running, (g.cfs 0).h_nr_running, g.nr_running)

abbrev enqueued : Option Groups
enqueued =
    enqueue_task_fair groups accounts plain vruntimes scale (λ p c. c) 6000 (4 ∷ 5 ∷ []) 1
      two_groups

counted_in : counts_of enqueued ≡ some (4, 4, 4)
unfolding enqueue_task_fair enqueue_loop enqueue_entity update_curr update_with renormed
    enqueue_rest place_entity __enqueue_entity descend entity_key groups_loop
counted_in = refl

abbrev or_else : Groups → Option Groups → Groups
or_else g none = g
or_else g (some g') = g'

returned : enqueued ≡ some (or_else two_groups enqueued)
unfolding enqueue_task_fair enqueue_loop enqueue_entity update_curr update_with renormed
    enqueue_rest place_entity __enqueue_entity descend entity_key groups_loop
returned = refl

dequeue-enqueue_task_fair_example :
    Restored groups accounts plain vruntimes scale
      (λ p c. c)
      (λ p c. refl)
      6000
      two_groups
      (dequeue_task_fair groups accounts plain vruntimes scale
        (λ p c. c)
        6000
        (4 ∷ 5 ∷ [])
        0
        (or_else two_groups enqueued))
dequeue-enqueue_task_fair_example =
    dequeue-enqueue_task_fair groups accounts plain vruntimes scale (λ p c. c) (λ p c. refl) 6000
      (4 ∷ 5 ∷ []) 1 0 two_groups (or_else two_groups enqueued) (λ q. omega arith) returned
