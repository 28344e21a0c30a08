-- ===== src/Provider/Bulk/Sizes.antt =====
-- The sizes of native batches.
use payflow_backend.Common.{
  ℕ, zero, suc, ◌+◌, ◌≤◌, ◌<◌, ◌≡◌, inl, inr, false, Option, none, some, List, [], ◌∷◌, ◌++◌, ltb,
  leb, leb→le, length, take, drop, length-take, arith, Bool-cases, if-holds,
}
use payflow_backend.Common.Errors.{Result, ok, err}
use payflow_backend.Provider.Manager.{BulkTransferrer, TransferProvider}
use payflow_backend.Provider.Bulk.{
  Texts, PoolEvent, WorkerPool, Progress, default_concurrent_workers, take_out, answer, taken,
  next_job, pool_step, pool_run, finish_all, queued, after_chunk, chunk_request, send_chunk,
  process_chunks, execute_bulk_as_concurrent_singles, split_and_process_bulk, aggregated,
  handle_bulk_with_native_support,
}
use payflow_backend.Transfers.Types.{
  SingleTransferRequest, TransferResult, BulkTransferRequest, BulkTransferResult,
}

module _ {World : Type 0} (texts : Texts) (p : TransferProvider World) (Good : World → Type 0) where
  -- Single transfers keep what holds of the world.
  abbrev pub SinglesKeep : Type 0
  SinglesKeep = (t : SingleTransferRequest) (w : World) → Good w → Good (p.initiate_transfer t w).1

  module _ (singles : SinglesKeep) where
    answer-Good :
        (t : SingleTransferRequest) (results : List TransferResult) (w : World)
        → Good w
        → Good (answer texts p t results w).1
    unfolding answer
    answer-Good t results w h = singles t w h

    taken-Good :
        (pool : WorkerPool World) (o : Option (SingleTransferRequest × List SingleTransferRequest))
        → Good pool.world
        → Good (taken texts p pool o).world
    taken-Good pool none h = h
    taken-Good pool (some (t, ts)) h = answer-Good t pool.results pool.world h

    next_job-Good :
        (jobs : List SingleTransferRequest) (pool : WorkerPool World)
        → Good pool.world
        → Good (next_job texts p jobs pool).world
    next_job-Good [] pool h = h
    next_job-Good (j ∷ js) pool h = h

    run-Good :
        (es : List PoolEvent) (pool : WorkerPool World)
        → Good pool.world
        → Good (pool_run texts p es pool).world
    unfolding pool_run pool_step
    run-Good [] pool h = h
    run-Good (PoolEvent.started ∷ es) pool h = run-Good es _ (
        if-holds (λ (q : WorkerPool World). Good q.world)
          (ltb (length pool.working) default_concurrent_workers) (next_job texts p pool.jobs pool)
          pool (next_job-Good pool.jobs pool h) h)
    run-Good (PoolEvent.finished k ∷ es) pool h =
        run-Good es _ (taken-Good pool (take_out k pool.working) h)

    finish_all-Good :
        (ts : List SingleTransferRequest) (results : List TransferResult) (w : World)
        → Good w
        → Good (finish_all texts p ts results w).1
    unfolding finish_all
    finish_all-Good [] results w h = h
    finish_all-Good (t ∷ ts) results w h = finish_all-Good ts _ _ (answer-Good t results w h)

    execute_bulk-Good :
        (schedule : List PoolEvent) (req : BulkTransferRequest) (w : World)
        → Good w
        → Good (execute_bulk_as_concurrent_singles texts p schedule req w).1
    unfolding execute_bulk_as_concurrent_singles
    execute_bulk-Good schedule req w h =
        let pool = pool_run texts p schedule (queued texts p req w) in
        finish_all-Good (pool.working ++ pool.jobs) pool.results pool.world
          (run-Good schedule (queued texts p req w) h)

  module _ (b : BulkTransferrer World) (schedule : ℕ → List PoolEvent)
      (req : BulkTransferRequest) where
    -- So do native batches of a legal size.
    abbrev pub LegalBatchesKeep : Type 0
    LegalBatchesKeep =
        (r : BulkTransferRequest) (w : World)
        → b.min_batch_size ≤ length r.transfers
        → length r.transfers ≤ b.max_batch_size
        → Good w
        → Good (b.initiate_bulk_transfer r w).1

    module _ (singles : SinglesKeep) (native : LegalBatchesKeep) where
      not_less : (n k : ℕ) → ltb n k ≡ false → k ≤ n
      not_less n k h = ground arith

      taken_at_most : (n : ℕ) (ts : List SingleTransferRequest) → length (take n ts) ≤ n
      taken_at_most n ts = omega (arith, length-take n ts)

      send_chunk-Good :
          (i : ℕ) (w : World) → Good w → Good (send_chunk texts p b schedule req i w).1
      unfolding send_chunk
      send_chunk-Good i w h =
          let chunk = chunk_request texts p b schedule req i in
          elim (Bool-cases (ltb (length chunk.transfers) b.min_batch_size)) [
            | inl q ↦ rw q (execute_bulk-Good singles (schedule i) chunk w h)
            | inr q ↦ rw q (
                native chunk w (not_less (length chunk.transfers) b.min_batch_size q)
                  (taken_at_most b.max_batch_size (drop i req.transfers)) h)
          ]

      after_chunk-Good :
          (st : Progress World) (r : Result BulkTransferResult × World)
          → Good r.1
          → Good (after_chunk st r).after
      unfolding after_chunk
      after_chunk-Good st (ok x, w) h = h
      after_chunk-Good st (err e, w) h = h

      -- The loop ends in a good world.
      abbrev pub EndsIn : {A : Type 0} → (A → World) → Option A → Type 0
      EndsIn world none = ⊥
      EndsIn world (some a) = Good (world a)

      past : (n i : ℕ) → n ≤ i + 0 → ltb i n ≡ false
      past n i h = ground arith

      process_chunks-Good :
          (fuel i : ℕ) (st : Progress World)
          → 0 < b.max_batch_size
          → length req.transfers ≤ i + fuel
          → Good st.after
          → EndsIn
              (λ (s : Progress World). s.after)
              (process_chunks texts p b schedule req fuel i st)
      unfolding process_chunks
      process_chunks-Good zero i st m h k = rw (past (length req.transfers) i h) k
      process_chunks-Good (suc fuel) i st m h k = elim (Bool-cases (ltb i (length req.transfers))) [
        | inl q ↦ rw q (
            process_chunks-Good fuel (i + b.max_batch_size)
              (after_chunk st (send_chunk texts p b schedule req i st.after)) m (omega arith)
              (after_chunk-Good st _ (send_chunk-Good i st.after k)))
        | inr q ↦ rw q k
      ]

      aggregated-Good :
          (o : Option (Progress World))
          → EndsIn (λ (s : Progress World). s.after) o
          → EndsIn
              (λ (r : Result BulkTransferResult × World). r.1)
              (aggregated texts p b schedule req o)
      aggregated-Good none h = h
      aggregated-Good (some st) h = h

      -- Whatever the schedule, when the maximum is above zero, `handleBulkWithNativeSupport` ends, and
      -- what holds of the world, and is kept by single transfers and by native batches of at least the
      -- minimum and at most the maximum size, still holds: it makes no native call of another size.
      pub handle_bulk_legal :
          (w : World)
          → 0 < b.max_batch_size
          → Good w
          → EndsIn
              (λ (r : Result BulkTransferResult × World). r.1)
              (handle_bulk_with_native_support texts p b schedule req w)
      unfolding handle_bulk_with_native_support split_and_process_bulk
      handle_bulk_legal w m h = elim (Bool-cases (ltb (length req.transfers) b.min_batch_size)) [
        | inl q ↦ rw q (execute_bulk-Good singles (schedule 0) req w h)
        | inr q ↦ rw q (elim (Bool-cases (leb (length req.transfers) b.max_batch_size)) [
          | inl k ↦ rw k (
              native req w (not_less (length req.transfers) b.min_batch_size q)
                (leb→le (length req.transfers) b.max_batch_size k) h)
          | inr k ↦
              rw k (
                aggregated-Good _
                  (process_chunks-Good (length req.transfers) 0 _ m (omega arith) h))
        ])
      ]
