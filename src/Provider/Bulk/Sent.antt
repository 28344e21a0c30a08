-- ===== src/Provider/Bulk/Sent.antt =====
-- The workers pass each transfer of a batch to the provider's adapter once.
use Prim.Native.String.{String}
use payflow_backend.Common.{
  ℕ, ◌+◌, ◌≡◌, refl, ap, ◌∙◌, Bool, Option, none, some, List, [], ◌∷◌, ◌++◌, ltb, length, arith,
  if-holds,
}
use payflow_backend.Provider.Manager.{TransferProvider}
use payflow_backend.Provider.Bulk.{
  Texts, default_concurrent_workers, PoolEvent, WorkerPool, take_out, answer, taken, next_job,
  pool_step, pool_run, finish_all, wait, queued, execute_bulk_as_concurrent_singles,
}
use payflow_backend.Provider.Bulk.Pool.{
  one_if, requested, requested-append, requested-enriched, Apart, take_out-Apart,
}
use payflow_backend.Transfers.Types.{SingleTransferRequest, TransferResult, BulkTransferRequest}

-- `handed` lists the transfers that the adapter of a provider was called with, the last one first: a
-- call adds its transfer, whatever the adapter does with it and answers.
abbrev pub IsLogging :
    {World : Type 0} → (World → List SingleTransferRequest) → TransferProvider World → Type 0
IsLogging {World} handed p =
    (t : SingleTransferRequest) (w : World) → handed (p.initiate_transfer t w).1 ≡ t ∷ handed w

module _ {World : Type 0} (texts : Texts) (p : TransferProvider World)
    (handed : World → List SingleTransferRequest) (logging : IsLogging handed p)
    (test : String → Bool) where
  -- How many of the transfers that the adapter was called with pass the test.
  abbrev given : World → ℕ
  given w = requested test (handed w)

  answer-given :
      (t : SingleTransferRequest) (results : List TransferResult) (w : World)
      → given (answer texts p t results w).1 ≡ one_if (test t.reference) + given w
  unfolding answer
  answer-given t results w = ap (requested test) (logging t w)

  -- All the transfers: passed to the adapter, at work, or queued.
  abbrev all_of : WorkerPool World → ℕ
  all_of pool = given pool.world + requested test pool.working + requested test pool.jobs

  taken-all_of :
      (pool : WorkerPool World) (o : Option (SingleTransferRequest × List SingleTransferRequest))
      → Apart test (requested test pool.working) o
      → all_of (taken texts p pool o) ≡ all_of pool
  taken-all_of pool none h = refl
  taken-all_of pool (some (t, ts)) h = omega (arith, answer-given t pool.results pool.world)

  next_job-all_of :
      (jobs : List SingleTransferRequest) (pool : WorkerPool World)
      → pool.jobs ≡ jobs
      → all_of (next_job texts p jobs pool) ≡ all_of pool
  next_job-all_of [] pool h = refl
  next_job-all_of (j ∷ js) pool h =
      let same = ap (requested test) h in
      omega (arith, requested-append test pool.working (j ∷ []), same)

  step-all_of :
      (e : PoolEvent) (pool : WorkerPool World) → all_of (pool_step texts p e pool) ≡ all_of pool
  unfolding pool_step
  step-all_of PoolEvent.started pool =
      if-holds (λ q. all_of q ≡ all_of pool) (ltb (length pool.working) default_concurrent_workers)
        (next_job texts p pool.jobs pool) pool (next_job-all_of pool.jobs pool refl) refl
  step-all_of (PoolEvent.finished k) pool =
      taken-all_of pool (take_out k pool.working) (take_out-Apart test k pool.working)

  run-all_of :
      (es : List PoolEvent) (pool : WorkerPool World)
      → all_of (pool_run texts p es pool) ≡ all_of pool
  unfolding pool_run
  run-all_of [] pool = refl
  run-all_of (e ∷ es) pool = run-all_of es (pool_step texts p e pool) ∙ step-all_of e pool

  finish_all-given :
      (ts : List SingleTransferRequest) (results : List TransferResult) (w : World)
      → given (finish_all texts p ts results w).1 ≡ given w + requested test ts
  unfolding finish_all
  finish_all-given [] results w = omega arith
  finish_all-given (t ∷ ts) results w =
      let (results', w') = answer texts p t results w in
      omega (arith, finish_all-given ts results' w', answer-given t results w)

  wait-given : (pool : WorkerPool World) → given (wait texts p pool).1 ≡ all_of pool
  wait-given pool = omega (
    arith,
    finish_all-given (pool.working ++ pool.jobs) pool.results pool.world,
    requested-append test pool.working pool.jobs,
  )

  pub execute_bulk-given :
      (schedule : List PoolEvent) (req : BulkTransferRequest) (w : World)
      → requested test (handed (execute_bulk_as_concurrent_singles texts p schedule req w).1)
        ≡ requested test req.transfers + requested test (handed w)
  unfolding execute_bulk_as_concurrent_singles
  execute_bulk-given schedule req w =
      let pool = pool_run texts p schedule (queued texts p req w) in
      omega (
        arith,
        wait-given pool,
        run-all_of schedule (queued texts p req w),
        requested-enriched test req req.transfers,
      )
