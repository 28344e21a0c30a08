-- ===== src/Wallet/Service.antt =====
-- internal/service/wallet_service.go: the operations on balances. A `…Faults` record says which
-- database calls of one operation fail; the cache is not modelled.
use Prim.Native.String.{String, ◌++◌}
use payflow_backend.Common.{ℕ, Bool, none, some, List, ◌&&◌, if◌then◌else◌}
use payflow_backend.Common.Int.{ℤ, pos, ltb_ℤ}
use payflow_backend.Common.Int64.{add64, sub64, neg64}
use payflow_backend.Common.Errors.{Error, Result, ok, err, ◌>>=◌, guard_not}
use payflow_backend.Ledger.{Ledger, Posting, record_deposit, record_withdrawal, record_fee}
use payflow_backend.Wallet.Store.{
  Wallet, Wallets, Faults, WalletTransactionType, WalletTransaction, find_by_business_id,
  increment_balance, decrement_balance_and_locked, increment_locked, decrement_locked,
  already_recorded, create,
}

-- The database: the two wallet tables and the ledger.
pub record Store : Type 0 where
  pub wallets : Wallets
  pub transactions : List WalletTransaction
  pub ledger : Ledger

-- `CheckBalance`
unfoldable pub check_balance : (fails : Bool) → ℕ → ℤ → Wallets → Result (Unit {0})
unfolding find_by_business_id
check_balance fails b amount ws = find_by_business_id fails b ws >>= λ w.
    guard_not (ltb_ℤ (sub64 w.balance w.locked_balance) amount) Error.other

abbrev done : Result Wallet → Result (Unit {0})
done (ok w) = ok tt
done (err e) = err e

-- `LockBalance`
unfoldable pub lock_balance : Faults → ℕ → ℤ → Store → Result (Unit {0}) × Store
lock_balance f b amount s =
    let (r, ws) = increment_locked f b amount s.wallets in (done r, record s { wallets = ws })

-- `UnlockBalance`
unfoldable pub unlock_balance : Faults → ℕ → ℤ → Store → Result (Unit {0}) × Store
unlock_balance f b amount s =
    let (r, ws) = decrement_locked f b amount s.wallets in (done r, record s { wallets = ws })

pub record DepositNotification : Type 0 where
  pub reference : String
  pub amount : ℤ
  pub currency : String
  pub status : String

-- The calls of one operation that fail, and whether a ledger service was injected.
pub record OpFaults : Type 0 where
  pub lookup_fails : Bool
  pub find_fails : Bool
  pub update : Faults
  pub create_fails : Bool
  pub retry_fails : Bool
  pub rollback : Faults
  pub has_ledger : Bool
  pub debit_fails : Bool
  pub credit_fails : Bool
  pub fee_debit_fails : Bool
  pub fee_credit_fails : Bool

-- The second of two attempts to insert the transaction is made when the first fails.
unfoldable pub create_twice :
    OpFaults
    → WalletTransaction
    → List WalletTransaction
    → Result (Unit {0}) × List WalletTransaction
create_twice f t ts = retry (create f.create_fails t ts)
  where
    retry : Result (Unit {0}) × List WalletTransaction → Result (Unit {0}) × List WalletTransaction
    retry (ok u, ts') = (ok u, ts')
    retry (err e, ts') = create f.retry_fails t ts'

-- The ledger's errors are logged and dropped.
module _ (f : OpFaults) (b : ℕ) (amount : ℤ) (reference transaction_id : String) (l : Ledger) where
  abbrev pub posting : Posting
  posting = record {
    business_id = b;
    amount = amount;
    reference = reference;
    transaction_id = transaction_id;
  }

  unfoldable pub ledger_deposit : Ledger
  unfolding record_deposit
  ledger_deposit =
      if f.has_ledger then (record_deposit f.debit_fails f.credit_fails posting l).1 else l

  unfoldable pub ledger_withdrawal : Ledger
  unfolding record_withdrawal
  ledger_withdrawal =
      if f.has_ledger then (record_withdrawal f.debit_fails f.credit_fails posting l).1 else l

  unfoldable pub ledger_fee : Ledger
  unfolding record_fee
  ledger_fee =
      if f.has_ledger && ltb_ℤ (pos 0) amount
      then (record_fee f.fee_debit_fails f.fee_credit_fails posting l).1
      else l

module _ (f : OpFaults) (b : ℕ) (n : DepositNotification) (transaction_id : String) where
  abbrev pub deposit_row : (balance_before balance_after : ℤ) → WalletTransaction
  deposit_row balance_before balance_after = record {
    business_id = b;
    transaction_type = WalletTransactionType.deposit;
    amount = n.amount;
    balance_before = balance_before;
    balance_after = balance_after;
    currency = n.currency;
    reference = n.reference;
    transfer_id = none;
    status = n.status;
  }

  -- After the insert: the ledger, or the rollback of the balance, whose failure is only logged.
  unfoldable pub settle_deposit :
      Result (Unit {0}) × List WalletTransaction → Wallets → Ledger → Result (Unit {0}) × Store
  settle_deposit (ok u, ts) ws l = (
    ok tt,
    record {
      wallets = ws;
      transactions = ts;
      ledger = ledger_deposit f b n.amount n.reference transaction_id l;
    },
  )
  settle_deposit (err e, ts) ws l = (
    err e,
    record {
      wallets = (increment_balance f.rollback b (neg64 n.amount) ws).1;
      transactions = ts;
      ledger = l;
    },
  )

  -- After the balance was incremented.
  unfoldable pub record_incremented :
      ℤ → Result Wallet × Wallets → Store → Result (Unit {0}) × Store
  record_incremented before (err e, ws) s = (err e, record s { wallets = ws })
  record_incremented before (ok w, ws) s =
      settle_deposit (create_twice f (deposit_row before w.balance) s.transactions) ws s.ledger

  -- After the wallet was found.
  unfoldable pub deposit_into : Result Wallet → Store → Result (Unit {0}) × Store
  deposit_into (err e) s = (err e, s)
  deposit_into (ok w) s =
      record_incremented w.balance (increment_balance f.update b n.amount s.wallets) s

  -- `RecordDeposit`
  unfoldable pub record_deposit_op : Store → Result (Unit {0}) × Store
  record_deposit_op s =
      if already_recorded f.lookup_fails n.reference s.transactions
      then (ok tt, s)
      else deposit_into (find_by_business_id f.find_fails b s.wallets) s

-- One withdrawal: the transfer, its amount and fee, and the random ids of its ledger pairs.
pub record Withdrawal : Type 0 where
  pub transfer_id : ℕ
  pub amount : ℤ
  pub fee : ℤ
  pub reference : String
  pub provider_reference : String
  pub transaction_id : String
  pub fee_transaction_id : String

module _ (f : OpFaults) (b : ℕ) (x : Withdrawal) where
  abbrev pub total_debit : ℤ
  total_debit = add64 x.amount x.fee

  abbrev pub withdrawal_row : (balance_before : ℤ) → Wallet → WalletTransaction
  withdrawal_row balance_before w = record {
    business_id = b;
    transaction_type = WalletTransactionType.withdrawal;
    amount = total_debit;
    balance_before = balance_before;
    balance_after = w.balance;
    currency = w.currency;
    reference = x.reference;
    transfer_id = some x.transfer_id;
    status = "completed";
  }

  -- After the insert: the two ledger calls, or the rollback of the balance alone.
  unfoldable pub settle_withdrawal :
      Result (Unit {0}) × List WalletTransaction → Wallets → Ledger → Result (Unit {0}) × Store
  settle_withdrawal (ok u, ts) ws l = (
    ok tt,
    record {
      wallets = ws;
      transactions = ts;
      ledger =
          ledger_fee f b x.fee (x.reference ++ "-fee") x.fee_transaction_id
            (ledger_withdrawal f b x.amount x.reference x.transaction_id l);
    },
  )
  settle_withdrawal (err e, ts) ws l = (
    err e,
    record {
      wallets = (increment_balance f.rollback b total_debit ws).1;
      transactions = ts;
      ledger = l;
    },
  )

  unfoldable pub record_decremented :
      ℤ → Result Wallet × Wallets → Store → Result (Unit {0}) × Store
  record_decremented before (err e, ws) s = (err e, record s { wallets = ws })
  record_decremented before (ok w, ws) s =
      settle_withdrawal (create f.create_fails (withdrawal_row before w) s.transactions) ws s.ledger

  unfoldable pub withdraw_from : Result Wallet → Store → Result (Unit {0}) × Store
  withdraw_from (err e) s = (err e, s)
  withdraw_from (ok w) s =
      if ltb_ℤ w.balance total_debit
      then (err Error.other, s)
      else record_decremented w.balance
          (decrement_balance_and_locked f.update b total_debit x.amount s.wallets) s

  -- `RecordWithdrawal`
  unfoldable pub record_withdrawal_op : Store → Result (Unit {0}) × Store
  record_withdrawal_op s =
      if already_recorded f.lookup_fails x.reference s.transactions
      then (ok tt, s)
      else withdraw_from (find_by_business_id f.find_fails b s.wallets) s
