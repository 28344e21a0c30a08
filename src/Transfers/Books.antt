-- ===== src/Transfers/Books.antt =====
-- The wallet's part of a batch is a history of wallet calls, which keeps the books in order.
use Prim.Native.String.{String}
use payflow_backend.Common.{
  ℕ, ◌+◌, ◌≡◌, refl, sym, subst, false, Option, none, some, List, [], ◌∷◌, ◌||◌, map, arith,
  if-holds,
}
use payflow_backend.Common.Int.{ℤ, pos, ◌+ℤ◌, ltb_ℤ, int_laws}
use payflow_backend.Common.Int64.{Fits}
use payflow_backend.Common.Errors.{Result, ok, err}
use payflow_backend.Provider.Bulk.{Texts, initiate_bulk_transfer_op}
use payflow_backend.Transfers.Types.{
  SingleTransferRequest, Transfer, SingleTransferResponse, BulkTransferRequest, BulkTransferResult,
}
use payflow_backend.Transfers.Prepare.{
  Parsing, or_err, or_zero, parse_amount_to_kobo, pending_transfer,
}
use payflow_backend.Transfers.Responses.{response_for, is_waiting}
use payflow_backend.Transfers.Service.{TransferService, TransferState}
use payflow_backend.Transfers.Table.{create_batch}
use payflow_backend.Transfers.Batch.{
  BatchCalls, amount_of, batch_withdrawal, settle_one, settle_all, update_records, batch_answered,
  if_ended, batch_sent, unless_invalid, prepare_bulk_transfer_request, first_invalid,
  execute_batch_transfer,
}
use payflow_backend.Transfers.Tally.{Yields, HasRoom, bulk_by-ends}
use payflow_backend.Wallet.Service.{Store}
use payflow_backend.Wallet.Deposits.{CanUndo}
use payflow_backend.Wallet.Effects.{LedgerWorks}
use payflow_backend.Wallet.Reconciled.{Request, serve, IsGood, serve-IsGood}

-- A conversion to int64 gives an int64.
abbrev pub GivesInt64 : Parsing → Type 0
GivesInt64 parsing = (text : String) (a : ℤ) → parsing.rounded_hundredfold text ≡ some a → Fits a

module _ {World : Type 0} (service : TransferService World) (texts : Texts) (calls : BatchCalls)
    (business_id : ℕ) where
  -- Rows of the wallet tables can be read back; rollbacks and ledger inserts are not refused.
  abbrev pub BooksWork : Type 0
  BooksWork =
      (i : ℕ)
      → CanUndo (calls.withdrawal i)
        × LedgerWorks (calls.withdrawal i)
        × ((calls.unlock i).reread_fails ≡ false)

  plus_zero : (a : ℤ) → a +ℤ pos 0 ≡ a
  plus_zero a = omega int_laws

  or_zero-Fits : (o : Option ℤ) → ((a : ℤ) → o ≡ some a → Fits a) → Fits (or_zero (or_err o))
  or_zero-Fits none h = (omega arith, omega arith)
  or_zero-Fits (some a) h = h a refl

  module _ (int64 : GivesInt64 service.parsing) (works : BooksWork) where
    amount_of-Fits : (t : Transfer) → Fits (amount_of service texts calls business_id t +ℤ pos 0)
    unfolding parse_amount_to_kobo
    amount_of-Fits t =
        subst Fits (sym (plus_zero (amount_of service texts calls business_id t)))
          (or_zero-Fits (service.parsing.rounded_hundredfold t.amount) (int64 t.amount))

    settle_one-IsGood :
        (batch_reference : String) (i : ℕ) (t : Transfer) (r : SingleTransferResponse) (s : Store)
        → IsGood s
        → IsGood (settle_one service texts calls business_id batch_reference i t r s)
    unfolding settle_one serve
    settle_one-IsGood batch_reference i t r s good =
        let x = batch_withdrawal service texts calls business_id batch_reference i t r in
        let a = amount_of service texts calls business_id t in
        let (undo, ledger, reread) = works i in
        if-holds IsGood (r.success || is_waiting r.status) _ _
          (serve-IsGood (Request.withdrawal (calls.withdrawal i) business_id x) s
            (undo, ledger, omega arith, amount_of-Fits t) good)
          (if-holds IsGood (ltb_ℤ (pos 0) a) _ s
            (serve-IsGood (Request.unlock (calls.unlock i) business_id a) s reread good) good)

    settle_all-IsGood :
        (batch_reference : String) (i : ℕ) (ts : List Transfer) (rs : List SingleTransferResponse)
        (s : Store)
        → IsGood s
        → IsGood (settle_all service texts calls business_id batch_reference i ts rs s)
    unfolding settle_all
    settle_all-IsGood batch_reference i [] rs s good = good
    settle_all-IsGood batch_reference i (t ∷ ts) [] s good = good
    settle_all-IsGood batch_reference i (t ∷ ts) (r ∷ rs) s good =
        settle_all-IsGood batch_reference (i + 1) ts rs
          (settle_one service texts calls business_id batch_reference i t r s)
          (settle_one-IsGood batch_reference i t r s good)

    answered-IsGood :
        (req : BulkTransferRequest) (records : List Transfer) (st : TransferState World)
        (r : Result BulkTransferResult × World)
        → IsGood st.wallet
        → IsGood (batch_answered service texts calls business_id req records st r).1.wallet
    unfolding batch_answered
    answered-IsGood req records st (err e, w) good = good
    answered-IsGood req records st (ok result, w) good =
        let records' =
          (update_records service texts calls business_id result 0 records st.table).0 in
        let responses = map (response_for result) records in
        if-holds IsGood service.has_wallet_service
          (settle_all service texts calls business_id req.batch_reference 0 records' responses
            st.wallet)
          st.wallet (settle_all-IsGood req.batch_reference 0 records' responses st.wallet good) good

    ended-IsGood :
        (req : BulkTransferRequest) (records : List Transfer) (st : TransferState World)
        (o : Option (Result BulkTransferResult × World))
        → IsGood st.wallet
        → Yields (λ r. Unit) o
        → Yields
            (λ r. IsGood r.1.wallet)
            (if_ended service texts calls business_id req records st o)
    ended-IsGood req records st none good k = k
    ended-IsGood req records st (some r) good k = answered-IsGood req records st r good

    valid-IsGood :
        (req : BulkTransferRequest) (o : Option SingleTransferRequest) (st : TransferState World)
        → HasRoom service.provider_manager.default_provider.bulk
        → IsGood st.wallet
        → Yields (λ r. IsGood r.1.wallet) (unless_invalid service texts calls business_id req o st)
    unfolding batch_sent initiate_bulk_transfer_op
    valid-IsGood req (some r) st room good = good
    valid-IsGood req none st room good =
        let (records, table) =
          create_batch calls.create_fails (map pending_transfer req.transfers) st.table in
        ended-IsGood req records (record st { table = table }) _ good
          (bulk_by-ends service texts calls business_id req
            service.provider_manager.default_provider.bulk st.live.world room)

    -- A batch leaves the books in order: when the default provider takes no native batches, or takes
    -- some of a size above zero, amounts in kobo are int64 values, rows of the wallet tables can be
    -- read back, and rollbacks and ledger inserts are not refused, `ExecuteBatchTransfer` ends, and
    -- from stored wallets whose balances agree with the ledger it leads to such wallets again,
    -- whatever the provider answers and whichever other calls fail.
    pub execute_batch_transfer-IsGood :
        (req : BulkTransferRequest) (st : TransferState World)
        → HasRoom service.provider_manager.default_provider.bulk
        → IsGood st.wallet
        → Yields
            (λ r. IsGood r.1.wallet)
            (execute_batch_transfer service texts calls business_id req st)
    unfolding execute_batch_transfer
    execute_batch_transfer-IsGood req st room good =
        let prepared = prepare_bulk_transfer_request service texts calls business_id req in
        valid-IsGood prepared (first_invalid service texts calls business_id prepared.transfers) st
          room good
