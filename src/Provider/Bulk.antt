-- ===== src/Provider/Bulk.antt =====
-- internal/service/provider/manager.go: batches. The workers that send single transfers are a machine
-- whose schedule is an argument; the texts that `fmt` and `err.Error()` make are parameters.
pub mod Pool
pub mod Sent
pub mod Chunks
pub mod Sizes
pub mod Status
use Prim.Native.String.{String}
use payflow_backend.Common.{
  ℕ, zero, suc, ◌+◌, ◌/◌, Bool, true, false, not, ◌&&◌, Option, none, some, List, [], ◌∷◌, ◌++◌,
  map, if◌then◌else◌, ltb, leb, ◌==◌, length, take, drop,
}
use payflow_backend.Common.Errors.{Error, Result, ok, err}
use payflow_backend.Common.Texts.{same_text}
use payflow_backend.Provider.Manager.{BulkTransferrer, TransferProvider, TransferProviderManager}
use payflow_backend.Transfers.Types.{
  SingleTransferRequest, TransferResult, BulkTransferRequest, BulkTransferResult,
}

pub record Texts : Type 0 where
  pub error_text : Error → String
  pub some_failed : (failed total : ℕ) → String
  pub all_successful : (total : ℕ) → String
  pub chunk_reference : String → ℕ → String

abbrev pub default_concurrent_workers : ℕ
default_concurrent_workers = 5

abbrev pub count_success : List TransferResult → ℕ
count_success [] = 0
count_success (x ∷ xs) = if x.success then suc (count_success xs) else count_success xs

abbrev pub count_failed : List TransferResult → ℕ
count_failed [] = 0
count_failed (x ∷ xs) = if x.success then count_failed xs else suc (count_failed xs)

module _ (texts : Texts) where
  abbrev pub bulk_status : (success failed : ℕ) → String
  bulk_status success failed =
      if ltb 0 failed && success == 0
      then "failed"
      else if ltb 0 failed
      then "partial"
      else "complete"

  abbrev pub bulk_message : Option Error → (failed total : ℕ) → String
  bulk_message (some e) failed total = texts.error_text e
  bulk_message none failed total =
      if ltb 0 failed then texts.some_failed failed total else texts.all_successful total

  -- `aggregateBulkResults`
  unfoldable pub aggregate_bulk_results :
      (batch_reference provider : String)
      → List TransferResult
      → (first_error : Option Error) → BulkTransferResult
  aggregate_bulk_results batch_reference provider results first_error =
      let failed = count_failed results in
      record {
        success = failed == 0;
        batch_reference = batch_reference;
        provider = provider;
        status = bulk_status (count_success results) failed;
        message = bulk_message first_error failed (length results);
        transfer_results = results;
      }

  -- What a worker sends for a transfer.
  unfoldable pub worker_result :
      (provider : String) → SingleTransferRequest → Result TransferResult → TransferResult
  worker_result provider transfer (ok x) = x
  worker_result provider transfer (err e) = record {
    success = false;
    reference = transfer.reference;
    transaction_id = "";
    status = "failed";
    message = texts.error_text e;
    provider = provider;
    fee = "";
  }

-- A free worker takes the next job, or one that is at work, by its place, gets its answer.
pub data PoolEvent : Type 0 where
  started : PoolEvent
  finished : ℕ → PoolEvent

-- The two channels and the transfers that the workers hold.
pub record WorkerPool (World : Type 0) : Type 0 where
  pub jobs : List SingleTransferRequest
  pub working : List SingleTransferRequest
  pub results : List TransferResult
  pub world : World

abbrev pub kept :
    SingleTransferRequest
    → Option (SingleTransferRequest × List SingleTransferRequest)
    → Option (SingleTransferRequest × List SingleTransferRequest)
kept x none = none
kept x (some (y, ys)) = some (y, x ∷ ys)

abbrev pub take_out :
    ℕ → List SingleTransferRequest → Option (SingleTransferRequest × List SingleTransferRequest)
take_out k [] = none
take_out zero (x ∷ xs) = some (x, xs)
take_out (suc k) (x ∷ xs) = kept x (take_out k xs)

-- `executeBulkAsConcurrentSingles` before it queues a transfer.
abbrev pub enriched : BulkTransferRequest → SingleTransferRequest → SingleTransferRequest
enriched req transfer = record transfer {
  business_id = req.business_id;
  business_email = req.business_email;
  currency = if same_text transfer.currency "" then req.currency else transfer.currency;
}

module _ {World : Type 0} (texts : Texts) (p : TransferProvider World) where
  unfoldable pub answer :
      SingleTransferRequest → List TransferResult → World → List TransferResult × World
  unfolding worker_result
  answer transfer results w =
      let (r, w') = p.initiate_transfer transfer w in
      (results ++ (worker_result texts p.name transfer r ∷ []), w')

  abbrev pub taken :
      WorkerPool World
      → Option (SingleTransferRequest × List SingleTransferRequest)
      → WorkerPool World
  taken pool none = pool
  taken pool (some (transfer, others)) =
      let (results, w) = answer transfer pool.results pool.world in
      record pool { working = others; results = results; world = w }

  abbrev pub next_job : List SingleTransferRequest → WorkerPool World → WorkerPool World
  next_job [] pool = pool
  next_job (job ∷ jobs) pool = record pool { jobs = jobs; working = pool.working ++ (job ∷ []) }

  -- `transferWorker`, one event of one of the workers; an event that cannot happen changes nothing.
  unfoldable pub pool_step : PoolEvent → WorkerPool World → WorkerPool World
  unfolding answer
  pool_step PoolEvent.started pool =
      if ltb (length pool.working) default_concurrent_workers then next_job pool.jobs pool else pool
  pool_step (PoolEvent.finished k) pool = taken pool (take_out k pool.working)

  unfoldable pub pool_run : List PoolEvent → WorkerPool World → WorkerPool World
  unfolding pool_step
  pool_run [] pool = pool
  pool_run (e ∷ es) pool = pool_run es (pool_step e pool)

  -- The answers still due when the schedule ends come in order.
  unfoldable pub finish_all :
      List SingleTransferRequest → List TransferResult → World → List TransferResult × World
  unfolding answer
  finish_all [] results w = (results, w)
  finish_all (transfer ∷ transfers) results w =
      let (results', w') = answer transfer results w in finish_all transfers results' w'

  abbrev pub wait : WorkerPool World → List TransferResult × World
  wait pool = finish_all (pool.working ++ pool.jobs) pool.results pool.world

  abbrev pub queued : BulkTransferRequest → World → WorkerPool World
  queued req w = record {
    jobs = map (enriched req) req.transfers;
    working = [];
    results = [];
    world = w;
  }

  -- `executeBulkAsConcurrentSingles`
  unfoldable pub execute_bulk_as_concurrent_singles :
      List PoolEvent → BulkTransferRequest → World → Result BulkTransferResult × World
  unfolding pool_run finish_all aggregate_bulk_results
  execute_bulk_as_concurrent_singles schedule req w =
      let (results, w') = wait (pool_run schedule (queued req w)) in
      (ok (aggregate_bulk_results texts req.batch_reference p.name results none), w')

-- The variables of the loop over the chunks.
pub record Progress (World : Type 0) : Type 0 where
  pub all_results : List TransferResult
  pub first_error : Option Error
  pub after : World

abbrev pub or_first : Option Error → Error → Option Error
or_first none e = some e
or_first (some e') e = some e'

-- What a chunk adds: its results, or its error if that is the first.
unfoldable pub after_chunk :
    {World : Type 0} → Progress World → Result BulkTransferResult × World → Progress World
after_chunk st (ok x, w) = record st {
  all_results = st.all_results ++ x.transfer_results;
  after = w;
}
after_chunk st (err e, w) = record st { first_error = or_first st.first_error e; after = w }

-- `schedule i` is the schedule of the workers for the chunk at the offset `i`.
module _ {World : Type 0} (texts : Texts) (p : TransferProvider World) (b : BulkTransferrer World)
    (schedule : ℕ → List PoolEvent) (req : BulkTransferRequest) where
  abbrev pub chunk_request : ℕ → BulkTransferRequest
  chunk_request i = record req {
    batch_reference = texts.chunk_reference req.batch_reference (i / b.max_batch_size + 1);
    transfers = take b.max_batch_size (drop i req.transfers);
  }

  -- A chunk that is too small for the native call goes out as single transfers.
  unfoldable pub send_chunk : ℕ → World → Result BulkTransferResult × World
  unfolding execute_bulk_as_concurrent_singles
  send_chunk i w =
      if ltb (length (chunk_request i).transfers) b.min_batch_size
      then execute_bulk_as_concurrent_singles texts p (schedule i) (chunk_request i) w
      else b.initiate_bulk_transfer (chunk_request i) w

  -- The loop from the offset `i`, for at most `fuel` rounds.
  unfoldable pub process_chunks : (fuel i : ℕ) → Progress World → Option (Progress World)
  unfolding send_chunk after_chunk
  process_chunks zero i st = if ltb i (length req.transfers) then none else some st
  process_chunks (suc fuel) i st =
      let rest =
        process_chunks fuel (i + b.max_batch_size) (after_chunk st (send_chunk i st.after)) in
      if ltb i (length req.transfers) then rest else some st

  abbrev pub aggregated : Option (Progress World) → Option (Result BulkTransferResult × World)
  aggregated none = none
  aggregated (some st) = some (
    ok (aggregate_bulk_results texts req.batch_reference p.name st.all_results st.first_error),
    st.after,
  )

  -- `splitAndProcessBulk`; `none` is a loop that does not end.
  unfoldable pub split_and_process_bulk : World → Option (Result BulkTransferResult × World)
  unfolding process_chunks aggregate_bulk_results
  split_and_process_bulk w = aggregated (
      process_chunks (length req.transfers) 0
        (record { all_results = []; first_error = none; after = w }))

  -- `handleBulkWithNativeSupport`
  unfoldable pub handle_bulk_with_native_support :
      World → Option (Result BulkTransferResult × World)
  unfolding split_and_process_bulk execute_bulk_as_concurrent_singles
  handle_bulk_with_native_support w =
      if ltb (length req.transfers) b.min_batch_size
      then some (execute_bulk_as_concurrent_singles texts p (schedule 0) req w)
      else if leb (length req.transfers) b.max_batch_size
      then some (b.initiate_bulk_transfer req w)
      else split_and_process_bulk w

module _ {World : Type 0} (texts : Texts) (m : TransferProviderManager World)
    (schedule : ℕ → List PoolEvent) (req : BulkTransferRequest) where
  abbrev pub bulk_by :
      Option (BulkTransferrer World) → World → Option (Result BulkTransferResult × World)
  bulk_by none w =
      some (execute_bulk_as_concurrent_singles texts m.default_provider (schedule 0) req w)
  bulk_by (some b) w = handle_bulk_with_native_support texts m.default_provider b schedule req w

  -- `InitiateBulkTransfer`
  unfoldable pub initiate_bulk_transfer_op : World → Option (Result BulkTransferResult × World)
  unfolding handle_bulk_with_native_support execute_bulk_as_concurrent_singles
  initiate_bulk_transfer_op w = bulk_by m.default_provider.bulk w
