-- ===== src/Fair/Clock.antt =====
-- kernel/core/sched/sched_fair.c: `update_curr` charges the running entity, and `min_vruntime` does
-- not go back.
use kernal.Prelude.{
  ℕ, ◌+◌, ◌-◌, ◌*◌, ◌%◌, ◌^◌, ◌≤◌, ◌<◌, ◌≡◌, ◌≢◌, refl, sym, subst, ◌⊎◌, inl, inr, Bool-cases, true,
  false, Option, none, some, arith,
}
use kernal.Task.Fields.{Pointer, LoadWeight}
use kernal.Fair.Load.{ScaleOps}
use kernal.Fair.Share.{IsInverse, calc_delta_fair-share}
use kernal.Fair.Timeline.{CfsRq}
use kernal.Fair.Runtime.{
  VruntimeOps, running, vruntime_at, next_vruntime, update_min_vruntime, not_positive, charge,
  account, update_with, update_curr,
}

abbrev Below : Option ℕ → Type 0
Below none = Unit
Below (some v) = v < 2 ^ 63

next-Below :
    (V : VruntimeOps) (now : ℕ) (a b : Option ℕ)
    → now < 2 ^ 63
    → Below a
    → Below b
    → next_vruntime V now a b < 2 ^ 63
unfolding next_vruntime
next-Below V now none none n l r = n
next-Below V now (some v) none n l r = l
next-Below V now none (some w) n l r = r
next-Below V now (some v) (some w) n l r = ground (arith, V.min-earlier v w)

-- All times of the queue are in the lower half of the range.
pub record IsRecent (c : CfsRq) : Type 0 where
  pub min : c.min_vruntime < 2 ^ 63
  pub all : (se : ℕ) → (c.entity se).vruntime < 2 ^ 63

running-Below : (c : CfsRq) (p : Pointer) → IsRecent c → Below (running c p)
running-Below c none v = tt
running-Below c (some se) v = elim (Bool-cases (c.entity se).on_rq) [
  | inl q ↦ rw q (v.all se)
  | inr q ↦ rw q tt
]

at-Below : (V : VruntimeOps) (c : CfsRq) (p : Pointer) → IsRecent c → Below (vruntime_at V c p)
at-Below V c none v = tt
at-Below V c (some se) v = v.all se

pub update_min_vruntime-le :
    (V : VruntimeOps) (c : CfsRq)
    → IsRecent c
    → c.min_vruntime ≤ (update_min_vruntime V c).min_vruntime
unfolding update_min_vruntime
update_min_vruntime-le V c v = ground (
  arith,
  V.max-later c.min_vruntime
      (next_vruntime V c.min_vruntime (running c c.curr) (vruntime_at V c c.rb_leftmost)),
  next-Below V c.min_vruntime (running c c.curr) (vruntime_at V c c.rb_leftmost) v.min
      (running-Below c c.curr v) (at-Below V c c.rb_leftmost v),
)

-- The time since the entity was charged last.
abbrev pub since : ℕ → CfsRq → ℕ → ℕ
since now c se = (now + 2 ^ 64 - (c.entity se).exec_start) % 2 ^ 64

-- What an entity with a weight is charged.
pub record IsCharged (now : ℕ) (c c' : CfsRq) (se : ℕ) : Type 0 where
  pub started : (c'.entity se).exec_start ≡ now
  pub runtime :
      (c'.entity se).sum_exec_runtime ≡ ((c.entity se).sum_exec_runtime + since now c se) % 2 ^ 64
  pub share :
      (fair : ℕ) × ((c'.entity se).vruntime ≡ (c.entity se).vruntime + fair)
      × ((c.entity se).load.weight * fair ≤ 1024 * since now c se)
  pub others : (q : ℕ) → q ≢ se → c'.entity q ≡ c.entity q
  pub forward : c.min_vruntime ≤ c'.min_vruntime
  pub tree : (c'.tasks_timeline ≡ c.tasks_timeline) × (c'.rb_leftmost ≡ c.rb_leftmost)

-- The running entity: a weight with its inverse, and room for the time to be charged.
pub record IsRunning (now : ℕ) (c : CfsRq) (se : ℕ) : Type 0 where
  pub recent : IsRecent c
  pub low : 0 < (c.entity se).load.weight
  pub high : (c.entity se).load.weight < 2 ^ 32 - 1
  pub inverse : IsInverse (c.entity se).load
  pub room : (c.entity se).vruntime + 1024 * since now c se < 2 ^ 63

charge_room :
    (w fair d v : ℕ) → 0 < w → w * fair ≤ 1024 * d → v + 1024 * d < 2 ^ 63 → v + fair < 2 ^ 63
charge_room w fair d v l b r = grind (arith, le-mul w fair)
  where
    le-mul : (x y : ℕ) → 0 < x → y ≤ x * y
    le-mul x y h = grind arith

charge-IsRecent :
    (now : ℕ) (c : CfsRq) (se fair : ℕ) (lw : LoadWeight)
    → IsRunning now c se
    → (c.entity se).vruntime + fair < 2 ^ 63
    → IsRecent (charge now (since now c se) se fair lw c)
unfolding charge
charge-IsRecent now c se fair lw v r = record {
  min = v.recent.min;
  all = λ q. ground (arith, v.recent.all q);
}

charge-IsCharged :
    (V : VruntimeOps) (now : ℕ) (c : CfsRq) (se fair : ℕ) (lw : LoadWeight)
    → IsRunning now c se
    → (c.entity se).load.weight * fair ≤ 1024 * since now c se
    → IsCharged now c (update_min_vruntime V (charge now (since now c se) se fair lw c)) se
unfolding charge update_min_vruntime
charge-IsCharged V now c se fair lw v b =
    let r =
      charge_room (c.entity se).load.weight fair (since now c se) (c.entity se).vruntime v.low b
        v.room in
    record {
      started = ground arith;
      runtime = ground arith;
      share = (fair, ground (arith, r), b);
      others = λ q n. ground arith;
      forward =
          update_min_vruntime-le V (charge now (since now c se) se fair lw c)
            (charge-IsRecent now c se fair lw v r);
      tree = (refl, refl);
    }

account-IsCharged :
    (V : VruntimeOps) (S : ScaleOps) (now : ℕ) (c : CfsRq) (se : ℕ)
    → IsRunning now c se
    → (c' : CfsRq) × (account V S now (since now c se) se c ≡ some c') × IsCharged now c c' se
unfolding account
account-IsCharged V S now c se v =
    let (fair, lw, e, b, _, _) =
      calc_delta_fair-share S (since now c se) (c.entity se).load v.low v.high v.inverse in
    (
      update_min_vruntime V (charge now (since now c se) se fair lw c),
      rw e refl,
      charge-IsCharged V now c se fair lw v b,
    )

update_with-Charged :
    (V : VruntimeOps) (S : ScaleOps) (now : ℕ) (c : CfsRq) (se : ℕ)
    → IsRunning now c se
    → (c' : CfsRq) × (update_with V S now (some se) c ≡ some c')
      × (((not_positive V (since now c se) ≡ true) × (c' ≡ c))
          ⊎ ((not_positive V (since now c se) ≡ false) × IsCharged now c c' se))
unfolding update_with
update_with-Charged V S now c se v = elim (Bool-cases (not_positive V (since now c se))) [
  | inl p ↦ (c, rw p refl, inl (p, refl))
  | inr p ↦ let (c', e, h) = account-IsCharged V S now c se v in (c', rw p e, inr (p, h))
]

-- For a running entity with a weight above 0 and below 2^32 - 1, its inverse not yet computed or
-- right, and times that do not reach 2^63: update_curr ends, and changes nothing where the low 32
-- bits of the time since the last charge are 0 or have their highest bit set; otherwise it starts
-- the time anew, adds it to sum_exec_runtime, adds to vruntime at most 1024 times that time
-- divided by the weight, changes no other entity and no part of the tree, and does not set
-- min_vruntime back.
pub update_curr-Charged :
    (V : VruntimeOps) (S : ScaleOps) (now : ℕ) (c : CfsRq) (se : ℕ)
    → c.curr ≡ some se
    → IsRunning now c se
    → (c' : CfsRq) × (update_curr V S now c ≡ some c')
      × (((not_positive V (since now c se) ≡ true) × (c' ≡ c))
          ⊎ ((not_positive V (since now c se) ≡ false) × IsCharged now c c' se))
unfolding update_curr
update_curr-Charged V S now c se e v =
    subst
      (λ p.
        (c' : CfsRq) × (update_with V S now p c ≡ some c')
        × (((not_positive V (since now c se) ≡ true) × (c' ≡ c))
            ⊎ ((not_positive V (since now c se) ≡ false) × IsCharged now c c' se)))
      (sym e) (update_with-Charged V S now c se v)
