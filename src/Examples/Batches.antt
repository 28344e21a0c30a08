-- ===== src/Examples/Batches.antt =====
-- A batch of three transfers, sent by the workers and in native batches of at most two.
use Prim.Native.String.{String}
use payflow_backend.Common.{
  ℕ, ◌+◌, ◌≡◌, ◌↔◌, refl, Bool, true, false, none, some, List, [], ◌∷◌, ◌++◌, map, length, leb,
  le→leb, if-true, if◌then◌else◌, arith,
}
use payflow_backend.Common.Errors.{Result, ok}
use payflow_backend.Provider.Manager.{BulkTransferrer, TransferProvider}
use payflow_backend.Provider.Bulk.{
  Texts, PoolEvent, Progress, aggregate_bulk_results, execute_bulk_as_concurrent_singles,
  process_chunks, handle_bulk_with_native_support,
}
use payflow_backend.Provider.Bulk.Pool.{requested, reported_by, execute_bulk-reported}
use payflow_backend.Provider.Bulk.Chunks.{IsComplete, process_chunks-IsComplete}
use payflow_backend.Provider.Bulk.Sizes.{EndsIn, LegalBatchesKeep, handle_bulk_legal}
use payflow_backend.Provider.Bulk.Status.{AllSucceeded, IsStatus, aggregate_bulk_results-IsStatus}
use payflow_backend.Transfers.Types.{TransferResult, BulkTransferRequest, BulkTransferResult}
use payflow_backend.Examples.Providers.{Paid, payments, some_request, paid_result, ready}

abbrev pub plain_texts : Texts
plain_texts = record {
  error_text = λ e. "error";
  some_failed = λ failed total. "some failed";
  all_successful = λ total. "all successful";
  chunk_reference = λ reference n. reference;
}

abbrev pub three_transfers : BulkTransferRequest
three_transfers = record {
  batch_reference = "BATCH-1";
  description = "";
  currency = "NGN";
  merchant_bears_cost = false;
  transfers =
      record some_request { reference = "A" }
      ∷ record some_request { reference = "B" }
      ∷ record some_request { reference = "C" }
      ∷ [];
  business_id = 7;
  business_email = "";
}

abbrev workers : List PoolEvent
workers =
    PoolEvent.started
    ∷ PoolEvent.started
    ∷ PoolEvent.finished 1
    ∷ PoolEvent.started
    ∷ PoolEvent.finished 0
    ∷ []

abbrev any_text : String → Bool
any_text reference = true

execute_bulk-reported_example :
    reported_by plain_texts ready
      (λ t w. refl)
      any_text
      (execute_bulk_as_concurrent_singles plain_texts ready workers three_transfers []).0
    ≡ requested any_text three_transfers.transfers
execute_bulk-reported_example =
    execute_bulk-reported plain_texts ready (λ t w. refl) any_text workers three_transfers []

abbrev bulk_result : BulkTransferRequest → BulkTransferResult
bulk_result req = record {
  success = true;
  batch_reference = req.batch_reference;
  provider = "vfd";
  status = "complete";
  message = "";
  transfer_results = map paid_result req.transfers;
}

-- Native batches that report no single results, like those of Korapay.
abbrev pub two_at_a_time : BulkTransferrer Paid
two_at_a_time = record {
  initiate_bulk_transfer =
      λ req w. (ok (record (bulk_result req) { transfer_results = [] }), req.transfers ++ w);
  max_batch_size = 2;
  min_batch_size = 1;
}

process_chunks-IsComplete_example :
    (st : Progress Paid) × (process_chunks plain_texts ready two_at_a_time
        (λ i. [])
        three_transfers
        3
        0
        (record { all_results = []; first_error = none; after = [] })
      ≡ some st)
    × IsComplete plain_texts ready two_at_a_time payments (λ i. []) three_transfers [] st
process_chunks-IsComplete_example =
    process_chunks-IsComplete plain_texts ready two_at_a_time payments (λ i. []) three_transfers
      (λ t w. refl) (λ t w. refl) (λ test req w. omega arith) (λ req w. refl) [] (omega arith)

-- A world that counts the native batches of an illegal size.
abbrev silent : TransferProvider ℕ
silent = record {
  name = "vfd";
  initiate_transfer = λ req w. (ok (paid_result req), w);
  bulk = none;
}

abbrev strict : BulkTransferrer ℕ
strict = record {
  initiate_bulk_transfer =
      λ req w. (ok (bulk_result req), if leb (length req.transfers) 2 then w else w + 1);
  max_batch_size = 2;
  min_batch_size = 2;
}

abbrev NoneIllegal : ℕ → Type 0
NoneIllegal w = w ≡ 0

legal_calls : LegalBatchesKeep plain_texts silent NoneIllegal strict (λ i. []) three_transfers
legal_calls r w least most h =
    if-true NoneIllegal (leb (length r.transfers) 2) w (w + 1) (le→leb (length r.transfers) 2 most)
      h

handle_bulk_legal_example :
    EndsIn plain_texts silent NoneIllegal strict
      (λ i. [])
      three_transfers
      (λ t w h. h)
      legal_calls
      (λ (r : Result BulkTransferResult × ℕ). r.1)
      (handle_bulk_with_native_support plain_texts silent strict (λ i. []) three_transfers 0)
handle_bulk_legal_example =
    handle_bulk_legal plain_texts silent NoneIllegal strict (λ i. []) three_transfers (λ t w h. h)
      legal_calls 0 (omega arith) refl

-- One transfer is paid and one is not.
abbrev mixed_results : List TransferResult
mixed_results =
    paid_result some_request ∷ record (paid_result some_request) { success = false } ∷ []

mixed_status :
    (aggregate_bulk_results plain_texts "BATCH-1" "vfd" mixed_results none).status ≡ "partial"
unfolding aggregate_bulk_results
mixed_status = refl

aggregate_bulk_results-IsStatus_example :
    (let r = aggregate_bulk_results plain_texts "BATCH-1" "vfd" mixed_results none in
      ((r.success ≡ true) ↔ AllSucceeded mixed_results) × IsStatus mixed_results r.status)
aggregate_bulk_results-IsStatus_example =
    aggregate_bulk_results-IsStatus plain_texts "BATCH-1" "vfd" mixed_results none
