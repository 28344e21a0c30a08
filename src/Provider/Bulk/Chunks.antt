-- ===== src/Provider/Bulk/Chunks.antt =====
-- Batches in chunks: the loop ends and sends each transfer once.
use Prim.Native.String.{String}
use payflow_backend.Common.{
  ℕ, zero, suc, ◌+◌, ◌≤◌, ◌<◌, ◌≡◌, refl, sym, ap, ◌∙◌, inl, inr, Bool, false, none, some, List, [],
  ◌∷◌, ◌++◌, ltb, length, take, drop, take-append-drop, arith, Bool-cases, if-holds,
}
use payflow_backend.Common.Errors.{Result, ok, err}
use payflow_backend.Provider.Manager.{BulkTransferrer, TransferProvider}
use payflow_backend.Provider.Bulk.{
  Texts, PoolEvent, Progress, after_chunk, chunk_request, send_chunk, process_chunks,
  execute_bulk_as_concurrent_singles,
}
use payflow_backend.Provider.Bulk.Pool.{
  requested, reported, requested-append, reported-append, IsEchoing, execute_bulk-reported,
}
use payflow_backend.Provider.Bulk.Sent.{IsLogging, execute_bulk-given}
use payflow_backend.Transfers.Types.{SingleTransferRequest, BulkTransferRequest, BulkTransferResult}

drop-nil : (n : ℕ) → drop {A = SingleTransferRequest} n [] ≡ []
drop-nil zero = refl
drop-nil (suc n) = refl

drop_more :
    (n i m : ℕ) (ts : List SingleTransferRequest) → n ≡ i + m → drop n ts ≡ drop m (drop i ts)
drop_more n zero m ts h = ap (λ k. drop k ts) (omega arith)
drop_more n (suc i) m [] h = drop-nil n ∙ sym (drop-nil m)
drop_more zero (suc i) m (t ∷ ts) h = absurd (omega arith)
drop_more (suc n) (suc i) m (t ∷ ts) h = drop_more n i m ts (omega arith)

drop_all : (i : ℕ) (ts : List SingleTransferRequest) → length ts ≤ i → drop i ts ≡ []
drop_all zero [] h = refl
drop_all zero (t ∷ ts) h = absurd (omega arith)
drop_all (suc i) [] h = refl
drop_all (suc i) (t ∷ ts) h = drop_all i ts (omega arith)

-- An answer to a batch reports no result that was not asked for; a native call may leave out results.
abbrev pub Reports : (String → Bool) → BulkTransferRequest → Result BulkTransferResult → Type 0
Reports test req (ok x) = reported test x.transfer_results ≤ requested test req.transfers
Reports test req (err e) = Unit

abbrev pub IsReportingBulk : {World : Type 0} → BulkTransferrer World → Type 0
IsReportingBulk {World} b =
    (test : String → Bool) (req : BulkTransferRequest) (w : World)
    → Reports test req (b.initiate_bulk_transfer req w).0

-- A native call of the adapter is one with all the transfers of its request, whatever the answer.
abbrev pub IsLoggingBulk :
    {World : Type 0} → (World → List SingleTransferRequest) → BulkTransferrer World → Type 0
IsLoggingBulk {World} handed b =
    (req : BulkTransferRequest) (w : World)
    → handed (b.initiate_bulk_transfer req w).1 ≡ req.transfers ++ handed w

module _ {World : Type 0} (texts : Texts) (p : TransferProvider World) (b : BulkTransferrer World)
    (handed : World → List SingleTransferRequest) (schedule : ℕ → List PoolEvent)
    (req : BulkTransferRequest) where
  -- At the end of the loop: the adapter was called with each transfer of the batch once more than before,
  -- and no transfer is reported twice.
  abbrev pub IsComplete : World → Progress World → Type 0
  IsComplete w st =
      (test : String → Bool)
      → (requested test (handed st.after)
          ≡ requested test req.transfers + requested test (handed w))
        × (reported test st.all_results ≤ requested test req.transfers)

  -- The same at the offset `i`, where the rest of the batch is still to come.
  abbrev IsAccounted : World → ℕ → Progress World → Type 0
  IsAccounted w i st =
      (test : String → Bool)
      → (requested test (handed st.after) + requested test (drop i req.transfers)
          ≡ requested test req.transfers + requested test (handed w))
        × (reported test st.all_results + requested test (drop i req.transfers)
            ≤ requested test req.transfers)

  chunk_split :
      (test : String → Bool) (i m : ℕ) (ts : List SingleTransferRequest)
      → requested test (drop i ts)
        ≡ requested test (take m (drop i ts)) + requested test (drop (i + m) ts)
  chunk_split test i m ts =
      ap (requested test) (sym (take-append-drop m (drop i ts)))
      ∙ requested-append test (take m (drop i ts)) (drop m (drop i ts))
      ∙ ap (λ ds. requested test (take m (drop i ts)) + requested test ds)
          (sym (drop_more (i + m) i m ts refl))

  module _ (echoing : IsEchoing p) (logging : IsLogging handed p) (native : IsReportingBulk b)
      (native_logging : IsLoggingBulk handed b) where
    single : {m n : ℕ} → m ≡ n → m ≤ n
    single h = omega arith

    singles-Reports :
        (test : String → Bool) (i : ℕ) (w : World)
        → Reports test
            (chunk_request texts p b schedule req i)
            (execute_bulk_as_concurrent_singles texts p
              (schedule i)
              (chunk_request texts p b schedule req i)
              w).0
    unfolding execute_bulk_as_concurrent_singles
    singles-Reports test i w = single (
        execute_bulk-reported texts p echoing test (schedule i)
          (chunk_request texts p b schedule req i) w)

    send_chunk-Reports :
        (test : String → Bool) (i : ℕ) (w : World)
        → Reports test
            (chunk_request texts p b schedule req i)
            (send_chunk texts p b schedule req i w).0
    unfolding send_chunk
    send_chunk-Reports test i w =
        let chunk = chunk_request texts p b schedule req i in
        if-holds (λ r. Reports test chunk r.0) (ltb (length chunk.transfers) b.min_batch_size)
          (execute_bulk_as_concurrent_singles texts p (schedule i) chunk w)
          (b.initiate_bulk_transfer chunk w) (singles-Reports test i w) (native test chunk w)

    send_chunk-given :
        (test : String → Bool) (i : ℕ) (w : World)
        → requested test (handed (send_chunk texts p b schedule req i w).1)
          ≡ requested test (chunk_request texts p b schedule req i).transfers
            + requested test (handed w)
    unfolding send_chunk
    send_chunk-given test i w =
        let chunk = chunk_request texts p b schedule req i in
        if-holds
          (λ (r : Result BulkTransferResult × World).
            requested test (handed r.1)
            ≡ requested test chunk.transfers + requested test (handed w))
          (ltb (length chunk.transfers) b.min_batch_size)
          (execute_bulk_as_concurrent_singles texts p (schedule i) chunk w)
          (b.initiate_bulk_transfer chunk w)
          (execute_bulk-given texts p handed logging test (schedule i) chunk w)
          (ap (requested test) (native_logging chunk w)
            ∙ requested-append test chunk.transfers (handed w))

    after_chunk-IsAccounted :
        (w : World) (i : ℕ) (st : Progress World) (r : Result BulkTransferResult × World)
        → ((test : String → Bool) → Reports test (chunk_request texts p b schedule req i) r.0)
        → ((test : String → Bool)
            → requested test (handed r.1)
              ≡ requested test (chunk_request texts p b schedule req i).transfers
                + requested test (handed st.after))
        → IsAccounted w i st
        → IsAccounted w (i + b.max_batch_size) (after_chunk st r)
    unfolding after_chunk
    after_chunk-IsAccounted w i st (ok x, w') reports given h test =
        let parts = chunk_split test i b.max_batch_size req.transfers in
        let more = reported-append test st.all_results x.transfer_results in
        let this = reports test in
        let called = given test in
        let (so_far, reported_so_far) = h test in (omega arith, omega arith)
    after_chunk-IsAccounted w i st (err e, w') reports given h test =
        let parts = chunk_split test i b.max_batch_size req.transfers in
        let called = given test in
        let (so_far, reported_so_far) = h test in (omega arith, omega arith)

    at_end :
        (w : World) (i : ℕ) (st : Progress World)
        → length req.transfers ≤ i
        → IsAccounted w i st
        → IsComplete w st
    at_end w i st h k test =
        let over : requested test (drop i req.transfers) ≡ 0 =
          ap (requested test) (drop_all i req.transfers h) in
        let (so_far, reported_so_far) = k test in (omega arith, omega arith)

    at_least : (n i : ℕ) → ltb i n ≡ false → n ≤ i
    at_least n i h = ground arith

    past : (n i : ℕ) → n ≤ i + 0 → ltb i n ≡ false
    past n i h = ground arith

    chunks-IsComplete :
        (w : World) (fuel i : ℕ) (st : Progress World)
        → 0 < b.max_batch_size
        → length req.transfers ≤ i + fuel
        → IsAccounted w i st
        → (st' : Progress World) × (process_chunks texts p b schedule req fuel i st ≡ some st')
          × IsComplete w st'
    unfolding process_chunks
    chunks-IsComplete w zero i st m h k =
        let over : ltb i (length req.transfers) ≡ false = past (length req.transfers) i h in
        (st, rw over refl, at_end w i st (at_least (length req.transfers) i over) k)
    chunks-IsComplete w (suc fuel) i st m h k = elim (Bool-cases (ltb i (length req.transfers))) [
      | inl q ↦ rw q (
          chunks-IsComplete w fuel (i + b.max_batch_size)
            (after_chunk st (send_chunk texts p b schedule req i st.after)) m (omega arith)
            (after_chunk-IsAccounted w i st (send_chunk texts p b schedule req i st.after)
              (λ test. send_chunk-Reports test i st.after)
              (λ test. send_chunk-given test i st.after) k))
      | inr q ↦ rw q (st, refl, at_end w i st (at_least (length req.transfers) i q) k)
    ]

    -- With a maximum above zero, single results that carry the references of their requests, and
    -- native calls that report nothing that was not asked for, though they may report less: the loop
    -- over the chunks ends within as many rounds as the batch has transfers. Then, also when chunks
    -- fail, for every test on references the transfers that the adapter was called with and that
    -- pass it are more than before by exactly those of the batch that pass it, so that it is called
    -- with each transfer of the batch once; and at most as many results pass it, so that no transfer is reported twice.
    pub process_chunks-IsComplete :
        (w : World)
        → 0 < b.max_batch_size
        → (st : Progress World) × (process_chunks texts p b schedule req
              (length req.transfers)
              0
              (record { all_results = []; first_error = none; after = w })
            ≡ some st)
          × IsComplete w st
    process_chunks-IsComplete w m =
        chunks-IsComplete w (length req.transfers) 0 _ m (omega arith)
          (λ test. (omega arith, omega arith))
