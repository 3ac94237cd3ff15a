-- ===== src/Parallel/Reports/Adds.antt =====
-- What the steps of a round of LogsByBlockRangeParallel (pool.go) add to its reports, job by job.
use go_block_walk.Prelude.{
  ℕ, suc, ◌+◌, ◌≤◌, ◌≡◌, refl, List, [], ◌∷◌, ◌++◌, All, arith, length, length-append, subst, ap,
  ◌∙◌,
}
use go_block_walk.Dispatcher.{Log}
use go_block_walk.Pool.{Pool, ParallelLogJob}
use go_block_walk.Parallel.{Round, Step, acts, interrupted, Reach, here, next}
use go_block_walk.Parallel.Totals.{total, total-replace, All-at, has}
use go_block_walk.Parallel.Places.{HasJob}
use go_block_walk.Parallel.Inv.{Inv, Indexed, size, Reach-Inv, fresh}
use go_block_walk.Parallel.Reports.{Report, step_reports, reports}
use go_block_walk.Parallel.Reports.Acts.{
  successes_of, successes_of-append, attempts_of, attempts_of-append, Act-spent, worker_spent,
  queue_spent, Signed, worker_tries, queue_tries, Act-successes, Act-attempts, Act-Signed,
}

module _ (pool : Pool) (limit : ℕ) (Answer : ℕ → ℕ → List Log → Type 0)
    (jobs : List ParallelLogJob) where
  abbrev N : ℕ
  N = size pool limit Answer jobs

  abbrev pub left_over : ℕ → Round → ℕ
  left_over k r = queue_tries k limit r.shared.queue + total (worker_tries k limit) r.workers

  abbrev pub spent : ℕ → Round → ℕ
  spent k r = queue_spent k r.shared.queue + total (worker_spent k) r.workers

  -- What one step adds to the reports.
  pub record Adds (r r' : Round) (rs : List Report) : Type 0 where
    pub credited :
        (k : ℕ) → successes_of k rs + has (r.shared.results k) ≡ has (r'.shared.results k)
    pub tried : (k : ℕ) → attempts_of k rs + left_over k r' ≤ left_over k r
    pub backed : (k : ℕ) → spent k r' ≤ spent k r + attempts_of k rs
    pub crew : length r'.workers ≡ length r.workers
    pub signed : Signed (length r.workers) N rs

  Step-Adds :
      {r r' : Round}
      → Indexed 0 jobs
      → Inv pool limit Answer jobs r
      → (st : Step pool limit N Answer r r') → Adds r r' (step_reports pool limit N Answer st)
  Step-Adds {r} {r'} x inv (acts before after w w' e e' a) =
      let held =
        All-at (HasJob pool limit N Answer jobs) before after w
          (subst (All (HasJob pool limit N Answer jobs)) e inv.places.held) in
      let new = fresh pool limit Answer jobs before after w x inv e in
      let whole : length r.workers ≡ length before + suc (length after) =
        ap length e ∙ length-append before (w ∷ after) in
      let whole' : length r'.workers ≡ length before + suc (length after) =
        ap length e' ∙ length-append before (w' ∷ after) in
      record {
        credited = λ k. Act-successes pool limit Answer jobs k (length before) a new;
        tried = λ k. omega (
          arith,
          Act-attempts pool limit Answer jobs k (length before) a held,
          total-replace (worker_tries k limit) before after w w',
          ap (total (worker_tries k limit)) e,
          ap (total (worker_tries k limit)) e',
        );
        backed = λ k. omega (
          arith,
          Act-spent pool limit Answer jobs k (length before) a,
          total-replace (worker_spent k) before after w w',
          ap (total (worker_spent k)) e,
          ap (total (worker_spent k)) e',
        );
        crew = omega arith;
        signed =
            Act-Signed pool limit Answer jobs (length before) (length r.workers) a (omega arith)
              new;
      }
  Step-Adds {r} x inv (interrupted e n q) = rw q (record {
    credited = λ k. omega arith;
    tried = λ k. omega arith;
    backed = λ k. omega arith;
    crew = refl;
    signed = tt;
  })

  Signed-append :
      (n : ℕ) (xs ys : List Report) → Signed n N xs → Signed n N ys → Signed n N (xs ++ ys)
  Signed-append n [] ys a b = b
  Signed-append n (x ∷ xs) ys a b = (a.0, Signed-append n xs ys a.1 b)

  pub Reach-Adds :
      {r r' : Round}
      → Indexed 0 jobs
      → Inv pool limit Answer jobs r
      → (reach : Reach pool limit N Answer r r') → Adds r r' (reports pool limit N Answer reach)
  Reach-Adds x inv here = record {
    credited = λ k. omega arith;
    tried = λ k. omega arith;
    backed = λ k. omega arith;
    crew = refl;
    signed = tt;
  }
  Reach-Adds {r} x inv (next reach st) =
      let a = Reach-Adds x inv reach in
      let b = Step-Adds x (Reach-Inv pool limit Answer jobs x reach inv) st in
      let earlier = reports pool limit N Answer reach in
      let latest = step_reports pool limit N Answer st in
      record {
        credited =
            λ k. omega (arith, a.credited k, b.credited k, successes_of-append k latest earlier);
        tried = λ k. omega (arith, a.tried k, b.tried k, attempts_of-append k latest earlier);
        backed = λ k. omega (arith, a.backed k, b.backed k, attempts_of-append k latest earlier);
        crew = b.crew ∙ a.crew;
        signed =
            Signed-append (length r.workers) latest earlier
              (subst (λ n. Signed n N latest) a.crew b.signed) a.signed;
      }
