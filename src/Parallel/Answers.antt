-- ===== src/Parallel/Answers.antt =====
-- What a round returns (pool.go): the answers for its jobs in order, or an error.
use go_block_walk.Prelude.{
  ℕ, suc, ◌+◌, ◌≤◌, ◌<◌, ◌≡◌, refl, inl, inr, true, Bool-cases, Option, Option-cases, none, some,
  List, [], ◌∷◌, ◌++◌, In, arith, length, subst, sym, ap, ◌==◌, ◌∙◌,
}
use go_block_walk.Errors.{GoError, Result, ok, err}
use go_block_walk.Dispatcher.{Log}
use go_block_walk.Pool.{Pool, ParallelLogJob}
use go_block_walk.Parallel.{
  Results, Shared, Round, Reach, outcome, after_wait, without_error, unfinished, gather,
}
use go_block_walk.Parallel.Totals.{live, stopping, filled, filled_all, has}
use go_block_walk.Parallel.Places.{Answered}
use go_block_walk.Parallel.Inv.{Inv, Indexed, In-Indexed, size, start, Inv-start, Reach-Inv}
use go_block_walk.Parallel.Progress.{Finished, total_gone}

-- The logs are made of one answer for each job, in order.
pub data Served (Answer : ℕ → ℕ → List Log → Type 0) : List ParallelLogJob → List Log → Type 0 where
  nil : Served Answer [] []
  cons :
      {job : ParallelLogJob} {jobs : List ParallelLogJob} {logs rest : List Log}
      → Answer job.from job.to logs
      → Served Answer jobs rest
      → Served Answer (job ∷ jobs) (logs ++ rest)

-- Jobs of one index are one job.
In-same :
    (i : ℕ) (jobs : List ParallelLogJob) (j k : ParallelLogJob)
    → Indexed i jobs
    → In j jobs
    → In k jobs
    → j.index ≡ k.index
    → j ≡ k
In-same i [] j k x m n e = elim m [ ]
In-same i (job ∷ jobs) j k x (In.here p) (In.here q) e = p ∙ sym q
In-same i (job ∷ jobs) j k x (In.here p) (In.there n) e =
    let r = In-Indexed (suc i) jobs k x.2 n in
    let q : j.index ≡ job.index = ap (λ y. y.index) p in absurd (omega arith)
In-same i (job ∷ jobs) j k x (In.there m) (In.here q) e =
    let r = In-Indexed (suc i) jobs j x.2 m in
    let p : k.index ≡ job.index = ap (λ y. y.index) q in absurd (omega arith)
In-same i (job ∷ jobs) j k x (In.there m) (In.there n) e = In-same (suc i) jobs j k x.2 m n e

has-some : (o : Option (List Log)) → has o ≡ 1 → (logs : List Log) × (o ≡ some logs)
has-some none h = absurd (omega arith)
has-some (some logs) h = (logs, refl)

module _ (pool : Pool) (limit : ℕ) (Answer : ℕ → ℕ → List Log → Type 0)
    (jobs : List ParallelLogJob) where
  abbrev N : ℕ
  N = size pool limit Answer jobs

  -- Each result, of those from `i` on, is an answer for the job there.
  gather-Served :
      (i : ℕ) (js : List ParallelLogJob) (results : Results)
      → Indexed 0 jobs
      → Indexed i js
      → ((job : ParallelLogJob) → In job js → In job jobs)
      → ((k : ℕ) (logs : List Log)
          → results k ≡ some logs
          → Answered pool limit N Answer jobs k logs)
      → ((k : ℕ) → k < i + length js → has (results k) ≡ 1)
      → Served Answer js (gather (length js) i results)
  unfolding gather
  gather-Served i [] results all x inside answered there = nil
  gather-Served i (job ∷ js) results all x inside answered there =
      let (logs, e) = has-some (results i) (there i (omega arith)) in
      let a = answered i logs e in
      let same : a.job ≡ job =
        In-same 0 jobs a.job job all a.listed (inside job (In.here refl)) (a.at ∙ sym x.0) in
      rw e (
        cons (subst (λ j. Answer j.from j.to logs) same a.answer) (
          gather-Served (suc i) js results all x.2 (λ j m. inside j (In.there m)) answered
            (λ k l. there k (omega arith))))

  -- A round that has ended: all its results, or the first error, or the caller's.
  pub data Returned (s : Shared) : Result (List Log) → Type 0 where
    complete : {logs : List Log} → Served Answer jobs logs → Returned s (ok logs)
    first_failure : (e : GoError) → s.first_err ≡ some e → Returned s (err e)
    parent_ended : (e : GoError) → s.parent_err ≡ some e → Returned s (err e)

  Finished-over :
      (r : Round) → Inv pool limit Answer jobs r → Finished r → r.shared.cancelled ≡ true
  Finished-over r inv f = elim (Bool-cases r.shared.cancelled) [
    | inl c ↦ c
    | inr c ↦
        let k = inv.counts.kept c (total_gone stopping r.workers refl f) in
        absurd (omega (arith, k, total_gone live r.workers refl f))
  ]

  -- By what the round left of `firstErr` and of the caller's error.
  returned :
      (from to : ℕ) (r : Round) (first parent : Option GoError)
      → Indexed 0 jobs
      → Inv pool limit Answer jobs r
      → Finished r
      → r.shared.first_err ≡ first
      → r.shared.parent_err ≡ parent
      → Returned r.shared (outcome N from to r.shared)
  unfolding outcome after_wait without_error unfinished
  returned from to r (some e) parent x inv f p q = simp p (first_failure e p)
  returned from to r none parent x inv f p q = elim (Bool-cases (r.shared.remaining == 0)) [
    | inl done ↦
        let all : N ≤ filled N r.shared.results = ground (arith, inv.counts.counted) in
        simp (p, done)
          (complete (
            gather-Served 0 jobs r.shared.results x x (λ j m. m) inv.places.results
              (λ k l. filled_all N k r.shared.results all (omega arith))))
    | inr short ↦ elim (inv.counts.over (Finished-over r inv f)) [
      | inl (inl zero_left) ↦ absurd (ground (arith, short))
      | inl (inr failed) ↦ absurd (failed p)
      | inr stopped ↦ elim (Option-cases parent) [
        | inl nothing ↦ absurd (stopped (q ∙ nothing))
        | inr (e, given) ↦ simp (p, short, q, given) (parent_ended e (q ∙ given))
      ]
    ]
  ]

  pub round_outcome :
      (providers from to : ℕ) (r : Round)
      → 1 ≤ providers
      → 1 ≤ N
      → 1 ≤ limit
      → Indexed 0 jobs
      → Reach pool limit N Answer (start pool limit Answer jobs providers) r
      → Finished r
      → Returned r.shared (outcome N from to r.shared)
  round_outcome providers from to r p n l x reach f =
      returned from to r r.shared.first_err r.shared.parent_err x
        (Reach-Inv pool limit Answer jobs x reach
          (Inv-start pool limit Answer jobs providers p n l x))
        f refl refl
