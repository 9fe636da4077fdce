-- ===== src/Fair/Tests.antt =====
-- kernel/core/sched/sched_fair.c: a queue with two waiting entities and one that runs.
use kernal.Prelude.{◌≡◌, refl, ◌⊎◌, inl, true, false, none, some, [], ◌∷◌, arith}
use kernal.Buddy.{remove}
use kernal.Fair.Timeline.{inorder, CfsRq, entity_key, __enqueue_entity, __dequeue_entity}
use kernal.Fair.Order.{insert_before}
use kernal.Fair.Sorted.{
  IsTimeline, goes_before, __enqueue_entity-IsTimeline, __dequeue_entity-IsTimeline,
}
use kernal.Fair.Runtime.{not_positive, update_curr}
use kernal.Fair.Clock.{since, IsCharged, IsRunning, update_curr-Charged}
use kernal.Fair.Pick.{pick_next_entity}
use kernal.Fair.Least.{Least, pick_next_entity-Least}
use kernal.Fair.Samples.{scale, plain, vruntimes, choice, queue}

queue-IsTimeline : IsTimeline queue
unfolding entity_key
queue-IsTimeline = record { sorted = omega arith; leftmost = refl }

__enqueue_entity-IsTimeline_example :
    IsTimeline (__enqueue_entity plain 4 queue)
    × (inorder (__enqueue_entity plain 4 queue).tasks_timeline
        ≡ insert_before (goes_before queue 4) 4 (1 ∷ 2 ∷ []))
__enqueue_entity-IsTimeline_example = __enqueue_entity-IsTimeline plain queue 4 queue-IsTimeline

__dequeue_entity-IsTimeline_example :
    IsTimeline (__dequeue_entity plain 1 queue)
    × (inorder (__dequeue_entity plain 1 queue).tasks_timeline ≡ remove 1 (1 ∷ 2 ∷ []))
__dequeue_entity-IsTimeline_example = __dequeue_entity-IsTimeline plain queue 1 queue-IsTimeline

queue-IsRunning : IsRunning 6000 queue 3
queue-IsRunning = record {
  recent = record { min = omega arith; all = λ se. omega arith };
  low = omega arith;
  high = omega arith;
  inverse = inl refl;
  room = omega arith;
}

update_curr-Charged_example :
    (c' : CfsRq) × (update_curr vruntimes scale 6000 queue ≡ some c')
    × (((not_positive vruntimes (since 6000 queue 3) ≡ true) × (c' ≡ queue))
        ⊎ ((not_positive vruntimes (since 6000 queue 3) ≡ false) × IsCharged 6000 queue c' 3))
update_curr-Charged_example = update_curr-Charged vruntimes scale 6000 queue 3 refl queue-IsRunning

pick_next_entity-Least_example : Least queue (pick_next_entity choice plain queue none).0
pick_next_entity-Least_example =
    pick_next_entity-Least choice plain queue queue-IsTimeline
      (record { next = refl; last = refl; skip = refl })
