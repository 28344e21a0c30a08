-- ===== src/Transfers/Batch.antt =====
-- internal/service/transfer_batch.go: batches of transfers. Calls that one execution makes for the
-- transfer at place `i` fail as a `BatchCalls` value says for `i`.
use Prim.Native.String.{String, ◌++◌}
use payflow_backend.Common.{
  ℕ, ◌+◌, Bool, false, Option, none, some, List, [], ◌∷◌, ◌||◌, ◌==◌, map, length, if◌then◌else◌,
}
use payflow_backend.Common.Int.{ℤ, pos, ltb_ℤ}
use payflow_backend.Common.Errors.{Result, ok, err}
use payflow_backend.Provider.Bulk.{Texts, PoolEvent, initiate_bulk_transfer_op}
use payflow_backend.Transfers.Types.{
  SingleTransferRequest, Transfer, SingleTransferResponse, BulkTransferRequest, BulkTransferResult,
  BulkTransferResponse,
}
use payflow_backend.Transfers.Prepare.{
  or_text, email_or, or_zero, prepare_transfer_request, validate_transfer_amount,
  parse_amount_to_kobo, failed_response, pending_transfer,
}
use payflow_backend.Transfers.Responses.{
  result_for, with_found, response_for, is_waiting, count_success, count_pending, count_failed,
}
use payflow_backend.Transfers.Service.{TransferService, TransferState, is_ok}
use payflow_backend.Transfers.Table.{TransferTable, create_batch, update}
use payflow_backend.Wallet.Store.{Faults}
use payflow_backend.Wallet.Service.{
  Store, OpFaults, Withdrawal, unlock_balance, record_withdrawal_op,
}

pub record BatchCalls : Type 0 where
  pub generated_batch_reference : String
  pub generated_reference : ℕ → String
  pub admin_email : Option String
  pub fallback_email : String
  pub create_fails : Bool
  pub update_fails : ℕ → Bool
  pub withdrawal : ℕ → OpFaults
  pub unlock : ℕ → Faults
  pub transaction_id : ℕ → String
  pub fee_transaction_id : ℕ → String
  pub schedule : ℕ → List PoolEvent

module _ {World : Type 0} (service : TransferService World) (texts : Texts) (calls : BatchCalls)
    (business_id : ℕ) where
  abbrev pub prepare_transfers : ℕ → List SingleTransferRequest → List SingleTransferRequest
  prepare_transfers i [] = []
  prepare_transfers i (r ∷ rs) =
      prepare_transfer_request (calls.generated_reference i) business_id r
      ∷ prepare_transfers (i + 1) rs

  -- `prepareBulkTransferRequest`
  unfoldable pub prepare_bulk_transfer_request : BulkTransferRequest → BulkTransferRequest
  unfolding prepare_transfer_request
  prepare_bulk_transfer_request req = record req {
    batch_reference = or_text req.batch_reference calls.generated_batch_reference;
    currency = or_text req.currency "NGN";
    business_id = business_id;
    business_email = email_or calls.fallback_email calls.admin_email;
    transfers = prepare_transfers 0 req.transfers;
  }

  -- The first transfer whose amount is refused.
  unfoldable pub first_invalid : List SingleTransferRequest → Option SingleTransferRequest
  unfolding validate_transfer_amount
  first_invalid [] = none
  first_invalid (r ∷ rs) =
      let later = first_invalid rs in
      if is_ok (validate_transfer_amount service.parsing service.config r.amount)
      then later
      else some r

  abbrev pub or_same : Transfer → Result Transfer × TransferTable → Transfer × TransferTable
  or_same t (err e, table) = (t, table)
  or_same t (ok t', table) = (t', table)

  -- `updateTransferRecordsWithResults`, its updates; an error is only logged.
  unfoldable pub update_records :
      BulkTransferResult → ℕ → List Transfer → TransferTable → List Transfer × TransferTable
  unfolding update result_for
  update_records result i [] table = ([], table)
  update_records result i (t ∷ ts) table =
      let t' = with_found result t (result_for t.reference result.transfer_results) in
      let (saved, table') = or_same t' (update (calls.update_fails i) t' table) in
      let (others, table'') = update_records result (i + 1) ts table' in (saved ∷ others, table'')

  abbrev pub amount_of : Transfer → ℤ
  amount_of t = or_zero (parse_amount_to_kobo service.parsing t.amount)

  abbrev pub batch_withdrawal : String → ℕ → Transfer → SingleTransferResponse → Withdrawal
  batch_withdrawal batch_reference i t r = record {
    transfer_id = t.id;
    amount = amount_of t;
    fee = pos 0;
    reference = "batch-" ++ batch_reference ++ "-" ++ r.reference;
    provider_reference = r.transaction_id;
    transaction_id = calls.transaction_id i;
    fee_transaction_id = calls.fee_transaction_id i;
  }

  -- The wallet's part for one transfer; its errors are dropped.
  unfoldable pub settle_one : String → ℕ → Transfer → SingleTransferResponse → Store → Store
  unfolding record_withdrawal_op unlock_balance parse_amount_to_kobo
  settle_one batch_reference i t r s =
      if r.success || is_waiting r.status
      then (record_withdrawal_op (calls.withdrawal i) business_id
          (batch_withdrawal batch_reference i t r) s).1
      else if ltb_ℤ (pos 0) (amount_of t)
      then (unlock_balance (calls.unlock i) business_id (amount_of t) s).1
      else s

  unfoldable pub settle_all :
      String → ℕ → List Transfer → List SingleTransferResponse → Store → Store
  unfolding settle_one
  settle_all batch_reference i (t ∷ ts) (r ∷ rs) s =
      settle_all batch_reference (i + 1) ts rs (settle_one batch_reference i t r s)
  settle_all batch_reference i [] rs s = s
  settle_all batch_reference i (t ∷ ts) [] s = s

  abbrev pub refused_batch :
      BulkTransferRequest → List SingleTransferResponse → BulkTransferResponse
  refused_batch req responses = record {
    success = false;
    batch_reference = req.batch_reference;
    total_transfers = length req.transfers;
    successful_transfers = 0;
    failed_transfers = length req.transfers;
    pending_transfers = 0;
    provider = "";
    transfers = responses;
  }

  abbrev pub batch_response :
      BulkTransferRequest → BulkTransferResult → List SingleTransferResponse → BulkTransferResponse
  batch_response req result responses = record {
    success = count_failed responses == 0;
    batch_reference = req.batch_reference;
    total_transfers = length req.transfers;
    successful_transfers = count_success responses;
    failed_transfers = count_failed responses;
    pending_transfers = count_pending responses;
    provider = result.provider;
    transfers = responses;
  }

  abbrev pub settled_wallet :
      BulkTransferRequest → List Transfer → List SingleTransferResponse → Store → Store
  settled_wallet req records responses s =
      if service.has_wallet_service then settle_all req.batch_reference 0 records responses s else s

  -- After the provider manager's answer.
  unfoldable pub batch_answered :
      BulkTransferRequest
      → List Transfer
      → TransferState World
      → Result BulkTransferResult × World
      → BulkTransferResponse × TransferState World
  unfolding update_records response_for settle_all
  batch_answered req records st (err e, w) =
      (refused_batch req [], record st { live = record st.live { world = w } })
  batch_answered req records st (ok result, w) =
      let responses = map (response_for result) records in
      let (records', table) = update_records result 0 records st.table in
      (
        batch_response req result responses,
        record {
          wallet = settled_wallet req records' responses st.wallet;
          table = table;
          live = record st.live { world = w };
        },
      )

  abbrev pub if_ended :
      BulkTransferRequest
      → List Transfer
      → TransferState World
      → Option (Result BulkTransferResult × World)
      → Option (BulkTransferResponse × TransferState World)
  if_ended req records st none = none
  if_ended req records st (some r) = some (batch_answered req records st r)

  -- From the insert of the rows on.
  unfoldable pub batch_sent :
      BulkTransferRequest
      → TransferState World
      → Option (BulkTransferResponse × TransferState World)
  unfolding batch_answered initiate_bulk_transfer_op create_batch
  batch_sent req st =
      let (records, table) =
        create_batch calls.create_fails (map pending_transfer req.transfers) st.table in
      if_ended req records (record st { table = table })
        (initiate_bulk_transfer_op texts service.provider_manager calls.schedule req st.live.world)

  abbrev pub unless_invalid :
      BulkTransferRequest
      → Option SingleTransferRequest
      → TransferState World
      → Option (BulkTransferResponse × TransferState World)
  unless_invalid req (some r) st = some (refused_batch req (failed_response 0 r.reference ∷ []), st)
  unless_invalid req none st = batch_sent req st

  -- `ExecuteBatchTransfer`; it returns no error, and `none` is a loop that does not end.
  unfoldable pub execute_batch_transfer :
      BulkTransferRequest
      → TransferState World
      → Option (BulkTransferResponse × TransferState World)
  unfolding batch_sent first_invalid prepare_bulk_transfer_request
  execute_batch_transfer req st =
      let prepared = prepare_bulk_transfer_request req in
      unless_invalid prepared (first_invalid prepared.transfers) st
