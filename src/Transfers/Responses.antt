-- ===== src/Transfers/Responses.antt =====
-- internal/service/transfer_batch.go: the responses of a batch and their counts.
use Prim.Native.String.{String}
use payflow_backend.Common.{
  ℕ, suc, Bool, true, Option, none, some, List, [], ◌∷◌, ◌||◌, if◌then◌else◌,
}
use payflow_backend.Common.Texts.{same_text}
use payflow_backend.Transfers.Types.{
  TransferResult, Transfer, SingleTransferResponse, BulkTransferResult,
}
use payflow_backend.Transfers.Prepare.{with_result, response_of}

-- The map from references to results: a later result takes the place of an earlier one.
abbrev pub or_earlier : Option TransferResult → Option TransferResult → Option TransferResult
or_earlier (some x) o = some x
or_earlier none o = o

unfoldable pub result_for : String → List TransferResult → Option TransferResult
result_for reference [] = none
result_for reference (x ∷ xs) =
    or_earlier (result_for reference xs) (if same_text x.reference reference then some x else none)

module _ (result : BulkTransferResult) where
  abbrev pub with_found : Transfer → Option TransferResult → Transfer
  with_found t (some x) = with_result x t
  with_found t none = record t { provider = result.provider; status = "pending" }

  -- A transfer without a result counts as a success.
  abbrev pub response_found : Transfer → Option TransferResult → SingleTransferResponse
  response_found t (some x) = response_of t.id t.reference x
  response_found t none = record {
    success = true;
    transfer_id = t.id;
    reference = t.reference;
    transaction_id = "";
    status = "pending";
    message = "";
    provider = result.provider;
    fee = "";
  }

  unfoldable pub response_for : Transfer → SingleTransferResponse
  unfolding result_for
  response_for t = response_found t (result_for t.reference result.transfer_results)

abbrev pub is_waiting : String → Bool
is_waiting status = same_text status "pending" || same_text status "processing"

-- The three counters.
abbrev pub count_success : List SingleTransferResponse → ℕ
count_success [] = 0
count_success (r ∷ rs) = if r.success then suc (count_success rs) else count_success rs

abbrev pub count_pending : List SingleTransferResponse → ℕ
count_pending [] = 0
count_pending (r ∷ rs) =
    if r.success
    then count_pending rs
    else if is_waiting r.status
    then suc (count_pending rs)
    else count_pending rs

abbrev pub count_failed : List SingleTransferResponse → ℕ
count_failed [] = 0
count_failed (r ∷ rs) =
    if r.success
    then count_failed rs
    else if is_waiting r.status
    then count_failed rs
    else suc (count_failed rs)
