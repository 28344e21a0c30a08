-- ===== src/Provider/Bulk/Pool.antt =====
-- The workers lose no transfer and send none twice.
use Prim.Native.String.{String}
use payflow_backend.Common.{
  ℕ, zero, suc, ◌+◌, ◌≤◌, ◌≡◌, refl, ap, ◌∙◌, inl, inr, Bool, true, false, Option, none, some, List,
  [], ◌∷◌, ◌++◌, map, ltb, length, length-append, arith, Bool-cases, if-holds,
}
use payflow_backend.Common.Errors.{Result, ok, err}
use payflow_backend.Provider.Manager.{TransferProvider}
use payflow_backend.Provider.Bulk.{
  Texts, default_concurrent_workers, PoolEvent, WorkerPool, kept, take_out, enriched, worker_result,
  answer, taken, next_job, pool_step, pool_run, finish_all, wait, queued, aggregate_bulk_results,
  execute_bulk_as_concurrent_singles,
}
use payflow_backend.Transfers.Types.{
  SingleTransferRequest, TransferResult, BulkTransferRequest, BulkTransferResult,
}

abbrev pub one_if : Bool → ℕ
one_if true = 1
one_if false = 0

-- How many requests, or results, have a reference that passes the test.
abbrev pub requested : (String → Bool) → List SingleTransferRequest → ℕ
requested test [] = 0
requested test (t ∷ ts) = one_if (test t.reference) + requested test ts

abbrev pub reported : (String → Bool) → List TransferResult → ℕ
reported test [] = 0
reported test (x ∷ xs) = one_if (test x.reference) + reported test xs

pub requested-append :
    (test : String → Bool) (xs ys : List SingleTransferRequest)
    → requested test (xs ++ ys) ≡ requested test xs + requested test ys
requested-append test [] ys = omega arith
requested-append test (x ∷ xs) ys = omega (arith, requested-append test xs ys)

pub reported-append :
    (test : String → Bool) (xs ys : List TransferResult)
    → reported test (xs ++ ys) ≡ reported test xs + reported test ys
reported-append test [] ys = omega arith
reported-append test (x ∷ xs) ys = omega (arith, reported-append test xs ys)

pub requested-enriched :
    (test : String → Bool) (req : BulkTransferRequest) (ts : List SingleTransferRequest)
    → requested test (map (enriched req) ts) ≡ requested test ts
requested-enriched test req [] = refl
requested-enriched test req (t ∷ ts) =
    ap (λ n. one_if (test t.reference) + n) (requested-enriched test req ts)

-- A result carries the reference of its request.
abbrev pub Echoes : SingleTransferRequest → Result TransferResult → Type 0
Echoes t (ok x) = x.reference ≡ t.reference
Echoes t (err e) = Unit

abbrev pub IsEchoing : {World : Type 0} → TransferProvider World → Type 0
IsEchoing {World} p = (t : SingleTransferRequest) (w : World) → Echoes t (p.initiate_transfer t w).0

module _ (test : String → Bool) where
  -- The transfer that is taken out, and the others, are those that were there.
  abbrev pub Apart : ℕ → Option (SingleTransferRequest × List SingleTransferRequest) → Type 0
  Apart n none = Unit
  Apart n (some (x, xs)) = n ≡ one_if (test x.reference) + requested test xs

  kept-Apart :
      (x : SingleTransferRequest) (n : ℕ)
      (o : Option (SingleTransferRequest × List SingleTransferRequest))
      → Apart n o
      → Apart (one_if (test x.reference) + n) (kept x o)
  kept-Apart x n none h = tt
  kept-Apart x n (some (y, ys)) h = omega arith

  pub take_out-Apart :
      (k : ℕ) (xs : List SingleTransferRequest) → Apart (requested test xs) (take_out k xs)
  take_out-Apart k [] = tt
  take_out-Apart zero (x ∷ xs) = refl
  take_out-Apart (suc k) (x ∷ xs) = kept-Apart x _ (take_out k xs) (take_out-Apart k xs)

module _ {World : Type 0} (texts : Texts) (p : TransferProvider World) (echoing : IsEchoing p)
    (test : String → Bool) where
  worker_result-reference :
      (t : SingleTransferRequest) (r : Result TransferResult)
      → Echoes t r
      → (worker_result texts p.name t r).reference ≡ t.reference
  unfolding worker_result
  worker_result-reference t (ok x) h = h
  worker_result-reference t (err e) h = refl

  answer-reported :
      (t : SingleTransferRequest) (results : List TransferResult) (w : World)
      → reported test (answer texts p t results w).0
        ≡ reported test results + one_if (test t.reference)
  unfolding answer
  answer-reported t results w =
      let r = (p.initiate_transfer t w).0 in
      let same = ap (λ ref. one_if (test ref)) (worker_result-reference t r (echoing t w)) in
      omega (arith, reported-append test results (worker_result texts p.name t r ∷ []), same)

  -- All the transfers of the pool: queued, at work, or answered.
  abbrev held : WorkerPool World → ℕ
  held pool = reported test pool.results + requested test pool.working + requested test pool.jobs

  taken-held :
      (pool : WorkerPool World) (o : Option (SingleTransferRequest × List SingleTransferRequest))
      → Apart test (requested test pool.working) o
      → held (taken texts p pool o) ≡ held pool
  taken-held pool none h = refl
  taken-held pool (some (t, ts)) h = omega (arith, answer-reported t pool.results pool.world)

  next_job-held :
      (jobs : List SingleTransferRequest) (pool : WorkerPool World)
      → pool.jobs ≡ jobs
      → held (next_job texts p jobs pool) ≡ held pool
  next_job-held [] pool h = refl
  next_job-held (j ∷ js) pool h =
      let same = ap (requested test) h in
      omega (arith, requested-append test pool.working (j ∷ []), same)

  step-held :
      (e : PoolEvent) (pool : WorkerPool World) → held (pool_step texts p e pool) ≡ held pool
  unfolding pool_step
  step-held PoolEvent.started pool =
      if-holds (λ q. held q ≡ held pool) (ltb (length pool.working) default_concurrent_workers)
        (next_job texts p pool.jobs pool) pool (next_job-held pool.jobs pool refl) refl
  step-held (PoolEvent.finished k) pool =
      taken-held pool (take_out k pool.working) (take_out-Apart test k pool.working)

  run-held :
      (es : List PoolEvent) (pool : WorkerPool World) → held (pool_run texts p es pool) ≡ held pool
  unfolding pool_run
  run-held [] pool = refl
  run-held (e ∷ es) pool = run-held es (pool_step texts p e pool) ∙ step-held e pool

  finish_all-reported :
      (ts : List SingleTransferRequest) (results : List TransferResult) (w : World)
      → reported test (finish_all texts p ts results w).0
        ≡ reported test results + requested test ts
  unfolding finish_all
  finish_all-reported [] results w = omega arith
  finish_all-reported (t ∷ ts) results w =
      let (results', w') = answer texts p t results w in
      omega (arith, finish_all-reported ts results' w', answer-reported t results w)

  wait-reported : (pool : WorkerPool World) → reported test (wait texts p pool).0 ≡ held pool
  wait-reported pool = omega (
    arith,
    finish_all-reported (pool.working ++ pool.jobs) pool.results pool.world,
    requested-append test pool.working pool.jobs,
  )

  -- What an answer to a batch reports; nothing for an error.
  abbrev pub reported_by : Result BulkTransferResult → ℕ
  reported_by (ok x) = reported test x.transfer_results
  reported_by (err e) = 0

  -- When results carry the reference of their request: however the five workers are scheduled, and
  -- whichever calls fail, the batch that `executeBulkAsConcurrentSingles` returns has, for every test
  -- on references, as many results that pass it as the request has transfers that pass it. So each
  -- transfer is answered once, and none is lost.
  pub execute_bulk-reported :
      (schedule : List PoolEvent) (req : BulkTransferRequest) (w : World)
      → reported_by (execute_bulk_as_concurrent_singles texts p schedule req w).0
        ≡ requested test req.transfers
  unfolding execute_bulk_as_concurrent_singles aggregate_bulk_results
  execute_bulk-reported schedule req w =
      let pool = pool_run texts p schedule (queued texts p req w) in
      omega (
        arith,
        wait-reported pool,
        run-held schedule (queued texts p req w),
        requested-enriched test req req.transfers,
      )

module _ {World : Type 0} (texts : Texts) (p : TransferProvider World) where
  abbrev Shorter : ℕ → Option (SingleTransferRequest × List SingleTransferRequest) → Type 0
  Shorter n none = Unit
  Shorter n (some (x, xs)) = length xs ≤ n

  kept-Shorter :
      (x : SingleTransferRequest) (n : ℕ)
      (o : Option (SingleTransferRequest × List SingleTransferRequest))
      → Shorter n o
      → Shorter (suc n) (kept x o)
  kept-Shorter x n none h = tt
  kept-Shorter x n (some (y, ys)) h = omega arith

  take_out-Shorter : (k : ℕ) (xs : List SingleTransferRequest) → Shorter (length xs) (take_out k xs)
  take_out-Shorter k [] = tt
  take_out-Shorter zero (x ∷ xs) = omega arith
  take_out-Shorter (suc k) (x ∷ xs) = kept-Shorter x _ (take_out k xs) (take_out-Shorter k xs)

  taken-working :
      (pool : WorkerPool World) (o : Option (SingleTransferRequest × List SingleTransferRequest))
      → Shorter (length pool.working) o
      → length pool.working ≤ default_concurrent_workers
      → length (taken texts p pool o).working ≤ default_concurrent_workers
  taken-working pool none s h = h
  taken-working pool (some (t, ts)) s h = omega arith

  next_job-working :
      (jobs : List SingleTransferRequest) (pool : WorkerPool World)
      → length pool.working + 1 ≤ default_concurrent_workers
      → length (next_job texts p jobs pool).working ≤ default_concurrent_workers
  next_job-working [] pool h = omega arith
  next_job-working (j ∷ js) pool h = omega (arith, length-append pool.working (j ∷ []))

  step-working :
      (e : PoolEvent) (pool : WorkerPool World)
      → length pool.working ≤ default_concurrent_workers
      → length (pool_step texts p e pool).working ≤ default_concurrent_workers
  unfolding pool_step
  step-working (PoolEvent.finished k) pool h =
      taken-working pool (take_out k pool.working) (take_out-Shorter k pool.working) h
  step-working PoolEvent.started pool h =
      elim (Bool-cases (ltb (length pool.working) default_concurrent_workers)) [
        | inl q ↦ rw q (next_job-working pool.jobs pool (free (length pool.working) q))
        | inr q ↦ rw q h
      ]
    where
      free : (n : ℕ) → ltb n default_concurrent_workers ≡ true → n + 1 ≤ default_concurrent_workers
      free n q = ground arith

  run-working :
      (es : List PoolEvent) (pool : WorkerPool World)
      → length pool.working ≤ default_concurrent_workers
      → length (pool_run texts p es pool).working ≤ default_concurrent_workers
  unfolding pool_run
  run-working [] pool h = h
  run-working (e ∷ es) pool h = run-working es (pool_step texts p e pool) (step-working e pool h)

  -- Under every schedule, at most five transfers of a batch are with the provider at the same time.
  pub pool_run-working :
      (es : List PoolEvent) (req : BulkTransferRequest) (w : World)
      → length (pool_run texts p es (queued texts p req w)).working ≤ default_concurrent_workers
  pool_run-working es req w = run-working es (queued texts p req w) (omega arith)
