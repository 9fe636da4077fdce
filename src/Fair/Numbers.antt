-- ===== src/Fair/Numbers.antt =====
-- kernel/core/sched/sched_fair.c: the numbers of tasks that the groups count.
use kernal.Prelude.{
  ℕ, ◌+◌, ◌≡◌, refl, ap, ◌∙◌, inl, inr, Bool, true, false, Bool-cases, List, [], ◌∷◌, ◌==◌,
  if◌then◌else◌, arith,
}
use kernal.Fair.Tasks.{Groups, GroupOps, set_cfs, count_by, groups_loop, count_task}

abbrev pub number : Groups → ℕ → ℕ
number g q = (g.cfs q).h_nr_running

-- `f` on the number of a queue, once for each time that it is in the list.
abbrev pub counted : (ℕ → ℕ) → ℕ → List ℕ → ℕ → ℕ
counted f q [] n = n
counted f q (x ∷ xs) n = counted f q xs (if q == x then f n else n)

-- How often a queue is in the list.
abbrev pub times : ℕ → List ℕ → ℕ
times q [] = 0
times q (x ∷ xs) = (if q == x then 1 else 0) + times q xs

module _ (G : GroupOps) where
  open G use {cfs_rq_of, cfs_rq_throttled}

  -- The queues from the task's up to the first that is throttled, or up to the root.
  abbrev pub reached : List ℕ → List ℕ
  reached [] = []
  reached (se ∷ up) = cfs_rq_of se ∷ (if cfs_rq_throttled (cfs_rq_of se) then [] else reached up)

  -- Whether none of the queues is throttled.
  abbrev pub runs : List ℕ → Bool
  runs [] = true
  runs (se ∷ up) = if cfs_rq_throttled (cfs_rq_of se) then false else runs up

  -- The tasks counted by `f` at every queue that is reached, and by `t` at the run queue where all
  -- run.
  abbrev pub Counted : (ℕ → ℕ) → (ℕ → ℕ) → List ℕ → Groups → Groups → Type 0
  Counted f t path g g' =
      ((q : ℕ) → number g' q ≡ counted f q (reached path) (number g q))
      × (g'.nr_running ≡ (if runs path then t g.nr_running else g.nr_running))

  abbrev pub Same : Groups → Groups → Type 0
  Same g g' = ((q : ℕ) → number g' q ≡ number g q) × (g'.nr_running ≡ g.nr_running)

  pub Same-Counted :
      (f t : ℕ → ℕ) (path : List ℕ) (g g1 g' : Groups)
      → Same g g1
      → Counted f t path g1 g'
      → Counted f t path g g'
  Same-Counted f t path g g1 g' s c = (
    λ q. c.0 q ∙ ap (counted f q (reached path)) (s.0 q),
    c.1 ∙ ap (λ n. if runs path then t n else n) s.1,
  )

  -- One queue more, that is not throttled; so `Counted` reads on it.
  pub Counted-step :
      (f t : ℕ → ℕ) (se : ℕ) (up : List ℕ) (g g1 g' : Groups)
      → ((q : ℕ) → number g1 q ≡ (if q == cfs_rq_of se then f (number g q) else number g q))
      → g1.nr_running ≡ g.nr_running
      → Counted f t up g1 g'
      → ((q : ℕ)
          → number g' q
            ≡ counted f q (reached up) (if q == cfs_rq_of se then f (number g q) else number g q))
        × (g'.nr_running ≡ (if runs up then t g.nr_running else g.nr_running))
  Counted-step f t se up g g1 g' s n c = (
    λ q. c.0 q ∙ ap (counted f q (reached up)) (s q),
    c.1 ∙ ap (λ n. if runs up then t n else n) n,
  )

  pub groups_loop-Counted :
      (f t : ℕ → ℕ) (path : List ℕ) (g : Groups)
      → Counted f t path g (count_task t (groups_loop G f path g))
  unfolding groups_loop
  groups_loop-Counted f t [] g = (λ q. refl, refl)
  groups_loop-Counted f t (se ∷ up) g =
      let q = cfs_rq_of se in
      let g1 = count_by f q g in
      let g2 = set_cfs q (G.update_cfs_shares (G.update_load_avg se (g1.cfs q))) g1 in
      elim (Bool-cases (cfs_rq_throttled q)) [
        | inl e ↦ rw e (λ x. ground arith, refl)
        | inr e ↦ rw e (
            Counted-step f t se up g g2 (count_task t (groups_loop G f up g2))
              (λ x. ground (
                arith,
                G.shares-number (G.update_load_avg se (g1.cfs q)),
                G.load-number se (g1.cfs q),
              ))
              refl (groups_loop-Counted f t up g2))
      ]
