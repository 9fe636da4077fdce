-- ===== src/Fair/Samples.antt =====
-- kernel/core/sched/sched_fair.c: a queue with two waiting entities and one that runs, and functions
-- outside the sources for it.
use kernal.Prelude.{
  ℕ, ◌+◌, ◌-◌, ◌*◌, ◌/◌, ◌%◌, ◌^◌, ◌≡◌, refl, ap, true, some, none, List, [], ◌∷◌, leb, ltb,
  if◌then◌else◌,
}
use kernal.Prelude.Int.{pos}
use kernal.Buddy.{remove}
use kernal.Task.Fields.{LoadWeight}
use kernal.Fair.Load.{ScaleOps}
use kernal.Fair.Timeline.{Tree, leaf, node, inorder, successor, RbOps, CfsRq}
use kernal.Fair.Runtime.{VruntimeOps}
use kernal.Fair.Pick.{PickOps}
use kernal.Fair.Queue.{QueueOps}

abbrev pub scale : ScaleOps
scale = record {
  scale_load_down = λ w. w;
  wmult_const = 2 ^ 32 - 1;
  wmult_shift = 32;
  mul_u64_u32_shr = λ a m s. a * m / 2 ^ s % 2 ^ 64;
  scale-same = λ w. refl;
  const-max = refl;
  shift-width = refl;
  mul-shr = λ a m s. refl;
}

abbrev pub spine : List ℕ → Tree
spine [] = leaf
spine (x ∷ xs) = node leaf x (spine xs)

pub spine-order : (xs : List ℕ) → inorder (spine xs) ≡ xs
spine-order [] = refl
spine-order (x ∷ xs) = ap (λ ys. x ∷ ys) (spine-order xs)

-- A tree that is not balanced.
abbrev pub plain : RbOps
plain = record {
  rb_insert_color = λ t. t;
  rb_erase = λ x t. spine (remove x (inorder t));
  rb_next = λ x t. successor x (inorder t);
  insert-order = λ t. refl;
  erase-order = λ x t. spine-order (remove x (inorder t));
  next-order = λ x t. refl;
}

abbrev pub vruntimes : VruntimeOps
vruntimes = record {
  max_vruntime = λ a b. if leb a b then b else a;
  min_vruntime = λ a b. if leb a b then a else b;
  max-later = λ a b l m. refl;
  min-earlier = λ a b l m. refl;
}

abbrev pub choice : PickOps
choice = record {
  entity_before = λ c a b. ltb (c.entity a).vruntime (c.entity b).vruntime;
  wakeup_preempt_entity = λ c a b. pos 0;
  clear_buddies = λ p c. c;
}

abbrev pub accounts : QueueOps
accounts = record {
  enqueue_wakeup = 1;
  enqueue_waking = 4;
  dequeue_sleep = 1;
  sysctl_sched_latency = 6000000;
  start_debit = true;
  gentle_fair_sleepers = true;
  sched_vslice = λ c se. 3000000;
  account_entity_enqueue = λ w l. record l { weight = l.weight + w };
  account_entity_dequeue = λ w l. record l { weight = l.weight - w };
}

abbrev pub nice_5 : LoadWeight
nice_5 = record { weight = 335; inv_weight = 0 }

-- Entity 1 waits with 100, entity 2 with 200, and entity 3 runs with 300.
abbrev pub queue : CfsRq
queue = record {
  load = record { weight = 670; inv_weight = 0 };
  nr_running = 3;
  h_nr_running = 3;
  exec_clock = 0;
  min_vruntime = 90;
  tasks_timeline = node leaf 1 (node leaf 2 leaf);
  rb_leftmost = some 1;
  curr = some 3;
  next = none;
  last = none;
  skip = none;
  entity = λ q. record {
    load = nice_5;
    exec_start = 1000;
    sum_exec_runtime = 0;
    vruntime = q % 8 * 100;
    prev_sum_exec_runtime = 0;
    nr_migrations = 0;
    on_rq = true;
  };
}
