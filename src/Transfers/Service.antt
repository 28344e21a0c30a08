-- ===== src/Transfers/Service.antt =====
-- internal/service/transfer_service.go: single transfers. Each stage of `ExecuteTransfer` is a function
-- of the answer that the stage before got, with the early returns as its clauses.
use Prim.Native.String.{◌++◌}
use payflow_backend.Common.{
  ℕ, Bool, true, false, Option, none, some, not, ◌&&◌, ◌==◌, if◌then◌else◌,
}
use payflow_backend.Common.Int.{ℤ, pos}
use payflow_backend.Common.Errors.{Error, Result, ok, err}
use payflow_backend.Common.Texts.{same_text}
use payflow_backend.Provider.Manager.{
  TransferProvider, TransferProviderManager, Live, get_provider, initiate_transfer_op,
}
use payflow_backend.Transfers.Types.{
  SingleTransferRequest, TransferResult, Transfer, SingleTransferResponse,
}
use payflow_backend.Transfers.Prepare.{
  Parsing, TransferConfig, ExecuteCalls, prepare_transfer_request, enrich_with_business_email,
  validate_transfer_amount, parse_amount_to_kobo, or_zero, failed_response, pending_transfer,
  with_result, response_of,
}
use payflow_backend.Transfers.Table.{TransferTable, create, update, find_by_id}
use payflow_backend.Wallet.Service.{
  Store, Withdrawal, check_balance, lock_balance, unlock_balance, record_withdrawal_op,
}

pub record TransferService (World : Type 0) : Type 0 where
  pub provider_manager : TransferProviderManager World
  pub has_wallet_service : Bool
  pub config : TransferConfig
  pub parsing : Parsing
  pub now : World → ℕ

pub record TransferState (World : Type 0) : Type 0 where
  pub wallet : Store
  pub table : TransferTable
  pub live : Live World

-- What the function has done when its deferred call runs.
pub record Outcome (World : Type 0) : Type 0 where
  pub response : SingleTransferResponse
  pub state : TransferState World
  pub withdrawal_recorded : Bool

abbrev pub is_ok : Result (Unit {0}) → Bool
is_ok (ok u) = true
is_ok (err e) = false

module _ {World : Type 0} (service : TransferService World) (calls : ExecuteCalls) (business_id : ℕ)
    (req : SingleTransferRequest) where
  abbrev pub saved : Transfer → TransferState World → TransferState World
  saved t st = record st { table = (update calls.update_fails t st.table).1 }

  abbrev pub withdrawal_of : ℤ → Transfer → TransferResult → Withdrawal
  withdrawal_of amount t x = record {
    transfer_id = t.id;
    amount = amount;
    fee =
        if same_text x.fee "" then pos 0 else or_zero (parse_amount_to_kobo service.parsing x.fee);
    reference = req.reference;
    provider_reference = x.transaction_id;
    transaction_id = calls.transaction_id;
    fee_transaction_id = calls.fee_transaction_id;
  }

  -- The call of `RecordWithdrawal`, whose error is only logged.
  unfoldable pub withdrawn :
      Transfer → TransferResult → Result (Unit {0}) × Store → TransferState World → Outcome World
  withdrawn t x (r, wallet) st = record {
    response = response_of t.id req.reference x;
    state = record st { wallet = wallet };
    withdrawal_recorded = is_ok r;
  }

  unfoldable pub completed : ℤ → Transfer → TransferResult → TransferState World → Outcome World
  unfolding withdrawn record_withdrawal_op parse_amount_to_kobo
  completed amount t x st =
      if service.has_wallet_service && (x.success && same_text x.status "success")
      then withdrawn t x
          (record_withdrawal_op calls.withdrawal business_id (withdrawal_of amount t x) st.wallet)
          st
      else record {
        response = response_of t.id req.reference x;
        state = st;
        withdrawal_recorded = false;
      }

  -- After the provider's answer.
  unfoldable pub answered :
      ℤ → Transfer → TransferState World → Result TransferResult × Live World → Outcome World
  unfolding completed update
  answered amount t st (err e, live) = record {
    response = failed_response t.id req.reference;
    state = saved (record t { status = "failed" }) (record st { live = live });
    withdrawal_recorded = false;
  }
  answered amount t st (ok x, live) =
      completed amount (with_result x t) x (saved (with_result x t) (record st { live = live }))

  abbrev pub in_world :
      Live World → Result TransferResult × World → Result TransferResult × Live World
  in_world live (r, w) = (r, record live { world = w })

  unfoldable pub sent_by :
      ℤ → Transfer → TransferState World → Option (TransferProvider World) → Outcome World
  unfolding answered
  sent_by amount t st none = record {
    response = failed_response 0 req.reference;
    state = saved (record t { status = "failed" }) st;
    withdrawal_recorded = false;
  }
  sent_by amount t st (some p) =
      answered amount t st (in_world st.live (p.initiate_transfer req st.live.world))

  -- The preferred provider, or the manager's chain.
  unfoldable pub sent : ℤ → Transfer → TransferState World → Outcome World
  unfolding answered sent_by initiate_transfer_op
  sent amount t st =
      if same_text req.preferred_provider ""
      then answered amount t st
          (initiate_transfer_op service.now service.provider_manager req st.live)
      else sent_by amount t st (get_provider service.provider_manager req.preferred_provider)

  unfoldable pub inserted :
      ℤ → Result Transfer × TransferTable → TransferState World → Outcome World
  unfolding sent
  inserted amount (err e, table) st = record {
    response = failed_response 0 req.reference;
    state = record st { table = table };
    withdrawal_recorded = false;
  }
  inserted amount (ok t, table) st = sent amount t (record st { table = table })

  -- From the insert of the transfer to the end of the function.
  unfoldable pub transferred : ℤ → TransferState World → Outcome World
  unfolding inserted create
  transferred amount st =
      inserted amount (create calls.create_fails (pending_transfer req) st.table) st

  -- The deferred unlock.
  unfoldable pub unlocked : ℤ → Outcome World → SingleTransferResponse × TransferState World
  unfolding unlock_balance
  unlocked amount o = if o.withdrawal_recorded then (o.response, o.state) else (
    o.response,
    record o.state { wallet = (unlock_balance calls.unlock business_id amount o.state.wallet).1 },
  )

  unfoldable pub with_lock :
      ℤ
      → Result (Unit {0}) × Store
      → TransferState World
      → SingleTransferResponse × TransferState World
  unfolding unlocked transferred
  with_lock amount (err e, wallet) st =
      (failed_response 0 req.reference, record st { wallet = wallet })
  with_lock amount (ok u, wallet) st =
      unlocked amount (transferred amount (record st { wallet = wallet }))

  unfoldable pub with_balance :
      ℤ → Result (Unit {0}) → TransferState World → SingleTransferResponse × TransferState World
  unfolding with_lock lock_balance
  with_balance amount (err e) st = (failed_response 0 req.reference, st)
  with_balance amount (ok u) st =
      with_lock amount (lock_balance calls.lock business_id amount st.wallet) st

  unfoldable pub with_amount :
      Result ℤ → TransferState World → SingleTransferResponse × TransferState World
  unfolding with_balance check_balance
  with_amount (err e) st = (failed_response 0 req.reference, st)
  with_amount (ok amount) st =
      with_balance amount (check_balance calls.check_fails business_id amount st.wallet.wallets) st

  abbrev pub outcome : Outcome World → SingleTransferResponse × TransferState World
  outcome o = (o.response, o.state)

  unfoldable pub with_valid :
      Result (Unit {0}) → TransferState World → SingleTransferResponse × TransferState World
  unfolding with_amount transferred parse_amount_to_kobo
  with_valid (err e) st = (failed_response 0 req.reference, st)
  with_valid (ok u) st =
      if service.has_wallet_service
      then with_amount (parse_amount_to_kobo service.parsing req.amount) st
      else outcome (transferred (pos 0) st)

module _ {World : Type 0} (service : TransferService World) (calls : ExecuteCalls) where
  abbrev pub prepared : ℕ → SingleTransferRequest → SingleTransferRequest
  prepared business_id req =
      enrich_with_business_email calls
        (prepare_transfer_request calls.generated_reference business_id req)

  -- `ExecuteTransfer`
  unfoldable pub execute_transfer :
      ℕ → SingleTransferRequest → TransferState World → SingleTransferResponse × TransferState World
  unfolding with_valid validate_transfer_amount prepare_transfer_request
  execute_transfer business_id req st =
      with_valid service calls business_id (prepared business_id req)
        (validate_transfer_amount service.parsing service.config (prepared business_id req).amount)
        st

  -- What `RetryTransfer` makes of a failed transfer.
  abbrev pub retry_request : Transfer → SingleTransferRequest
  retry_request t = record {
    reference = t.reference ++ "-retry";
    amount = t.amount;
    bank_code = t.recipient_bank_code;
    account_number = t.recipient_account_number;
    account_name = t.recipient_account_name;
    narration = t.narration;
    currency = t.currency;
    preferred_provider = "";
    business_id = 0;
    business_email = "";
  }

  -- The three tests of `RetryTransfer`.
  unfoldable pub retried :
      ℕ
      → Result Transfer
      → TransferState World
      → Result SingleTransferResponse × TransferState World
  unfolding execute_transfer
  retried business_id (err e) st = (err Error.not_found, st)
  retried business_id (ok t) st =
      if not (t.business_id == business_id)
      then (err Error.forbidden, st)
      else if not (same_text t.status "failed")
      then (err Error.validation_failed, st)
      else let (response, st') = execute_transfer business_id (retry_request t) st in
        (ok response, st')

  -- `RetryTransfer`
  unfoldable pub retry_transfer :
      (find_fails : Bool)
      → (business_id transfer_id : ℕ) → TransferState World
      → Result SingleTransferResponse × TransferState World
  unfolding retried find_by_id
  retry_transfer find_fails business_id transfer_id st =
      retried business_id (find_by_id find_fails transfer_id st.table) st
