-- ===== src/Examples/Wallets.antt =====
-- A wallet, a deposit, a withdrawal and their ledger.
use payflow_backend.Common.{◌≡◌, ◌↔◌, ◌⊎◌, refl, true, false, some, List, [], ◌∷◌, arith}
use payflow_backend.Common.Int.{pos, ◌+ℤ◌, ◌-ℤ◌}
use payflow_backend.Common.Int64.{Fits}
use payflow_backend.Common.Errors.{Error, Result, ok, err}
use payflow_backend.Ledger.{
  Ledger, AccountType, EntryType, row, is_credit, is_debit, Posting, ReconciliationResult,
  reconcile, wallet_sum,
}
use payflow_backend.Ledger.Laws.{
  Call, post_all, IsBalanced, side_sum, worth_all, wallet_net, post_all-IsBalanced,
  wallet_net-post_all, read_sum, reconcile_lem,
}
use payflow_backend.Common.Texts.{same_text}
use payflow_backend.Wallet.Store.{
  Wallet, Wallets, Faults, has_reference, find_by_business_id, increment_balance, exec, write,
  create,
}
use payflow_backend.Wallet.Updates.{some-inj}
use payflow_backend.Wallet.Locks.{Locked, lock_balance-cases}
use payflow_backend.Wallet.Deposits.{AreStored, Nothing, Deposited, record_deposit_op-cases}
use payflow_backend.Wallet.Redelivery.{record_deposit_op-once}
use payflow_backend.Wallet.Withdrawals.{Released, Withdrawn, record_withdrawal_op-cases}
use payflow_backend.Wallet.Reconciled.{Request, IsGood, serve_all, serve_all-IsGood}
use payflow_backend.Wallet.Service.{
  Store, DepositNotification, OpFaults, Withdrawal, lock_balance, deposit_into, record_incremented,
  settle_deposit, create_twice, record_deposit_op, record_withdrawal_op,
}

abbrev one_posting : Posting
one_posting = record {
  business_id = 7;
  amount = pos 500;
  reference = "dep-1";
  transaction_id = "txn-1";
}

abbrev calls : List Call
calls =
    Call.deposit false false one_posting
    ∷ Call.fee false true one_posting
    ∷ Call.withdrawal false false one_posting
    ∷ []

nothing-IsBalanced : IsBalanced []
unfolding side_sum
nothing-IsBalanced = refl

post_all-IsBalanced_example : IsBalanced (post_all calls [])
post_all-IsBalanced_example = post_all-IsBalanced calls [] nothing-IsBalanced

wallet_net-post_all_example :
    wallet_net 7 (post_all calls []) ≡ wallet_net 7 [] +ℤ worth_all 7 calls
wallet_net-post_all_example = wallet_net-post_all 7 calls []

-- A deposit of 25 is in the ledger, and the query of the debits fails.
abbrev deposited_25 : Ledger
deposited_25 =
    row
      (record { business_id = 7; amount = pos 25; reference = "DEP-25"; transaction_id = "txn-25" })
      AccountType.wallet EntryType.credit
    ∷ []

credits-Fits : Fits (wallet_sum is_credit 7 deposited_25)
unfolding wallet_sum ◌+ℤ◌
credits-Fits = (omega arith, omega arith)

debits-Fits : Fits (wallet_sum is_debit 7 deposited_25)
unfolding wallet_sum ◌+ℤ◌
debits-Fits = (omega arith, omega arith)

net-Fits : Fits (wallet_sum is_credit 7 deposited_25 -ℤ pos 0)
unfolding wallet_sum ◌+ℤ◌ ◌-ℤ◌
net-Fits = (omega arith, omega arith)

difference-Fits : Fits (pos 25 -ℤ (wallet_sum is_credit 7 deposited_25 -ℤ pos 0))
unfolding wallet_sum ◌+ℤ◌ ◌-ℤ◌
difference-Fits = (omega arith, omega arith)

reconcile_lem_example :
    (r : ReconciliationResult) × (reconcile false true 7 (pos 25) deposited_25 ≡ ok r)
    × ((r.is_reconciled ≡ true) ↔ (
        pos 25 ≡ read_sum false is_credit 7 deposited_25 -ℤ read_sum true is_debit 7 deposited_25))
    × (r.discrepancy
        ≡ pos 25
          -ℤ (read_sum false is_credit 7 deposited_25 -ℤ read_sum true is_debit 7 deposited_25))
reconcile_lem_example =
    reconcile_lem false true 7 (pos 25) deposited_25 credits-Fits debits-Fits net-Fits
      difference-Fits

abbrev pub empty_wallet : Wallet
empty_wallet = record { balance = pos 0; locked_balance = pos 0; currency = "NGN" }

abbrev pub rich_wallet : Wallet
rich_wallet = record { balance = pos 900; locked_balance = pos 100; currency = "NGN" }

abbrev pub all_empty : Wallets
all_empty b = some empty_wallet

abbrev pub start : Store
start = record { wallets = all_empty; transactions = []; ledger = [] }

abbrev pub no_faults : Faults
no_faults = record { update_fails = false; reread_fails = false }

abbrev pub works : OpFaults
works = record {
  lookup_fails = false;
  find_fails = false;
  update = no_faults;
  create_fails = false;
  retry_fails = false;
  rollback = no_faults;
  has_ledger = true;
  debit_fails = false;
  credit_fails = false;
  fee_debit_fails = false;
  fee_credit_fails = false;
}

abbrev notification : DepositNotification
notification = record {
  reference = "KPY-1";
  amount = pos 1000;
  currency = "NGN";
  status = "success";
}

abbrev payment : Withdrawal
payment = record {
  transfer_id = 3;
  amount = pos 400;
  fee = pos 25;
  reference = "PF-3";
  provider_reference = "KPY-3";
  transaction_id = "txn-2";
  fee_transaction_id = "txn-3";
}

start-AreStored : AreStored all_empty
start-AreStored b w h = rw⁻¹ (some-inj h) refl

pub start-IsGood : IsGood start
unfolding wallet_net wallet_sum ◌-ℤ◌
start-IsGood = (start-AreStored, λ b. refl)

record_deposit_op-cases_example :
    (◌≡◌ {A = Result (Unit {0}) × Store}
        (record_deposit_op works 7 notification "txn-1" start)
        (ok tt, start))
      × (has_reference "KPY-1" [] ≡ true)
    ⊎ (Nothing (record_deposit_op works 7 notification "txn-1" start) start
        ⊎ Deposited
            (record_deposit_op works 7 notification "txn-1" start)
            works
            7
            notification
            "txn-1"
            start)
record_deposit_op-cases_example =
    record_deposit_op-cases works 7 notification "txn-1" start (refl, refl) (omega arith)
      (omega arith, omega arith) start-AreStored

deposit_succeeds : (record_deposit_op works 7 notification "txn-1" start).0 ≡ ok tt
unfolding record_deposit_op deposit_into find_by_business_id increment_balance exec write
    record_incremented settle_deposit create_twice create ◌+ℤ◌ has_reference same_text
deposit_succeeds = refl

-- The second delivery comes while the lookup of references fails.
abbrev blind : OpFaults
blind = record works { lookup_fails = true }

record_deposit_op-once_example :
    (record_deposit_op blind 7 notification "txn-9"
      (record_deposit_op works 7 notification "txn-1" start).1).1
    ≡ (record_deposit_op works 7 notification "txn-1" start).1
record_deposit_op-once_example =
    record_deposit_op-once works blind 7 notification "txn-1" "txn-9" start (refl, refl)
      (refl, refl) (omega arith) (omega arith, omega arith) start-AreStored deposit_succeeds

abbrev pub funded : Store
funded = record { wallets = λ b. some rich_wallet; transactions = []; ledger = [] }

pub funded-AreStored : AreStored funded.wallets
funded-AreStored b w h = rw⁻¹ (some-inj h) refl

record_withdrawal_op-cases_example :
    (◌≡◌ {A = Result (Unit {0}) × Store}
        (record_withdrawal_op works 7 payment funded)
        (ok tt, funded))
      × (has_reference "PF-3" [] ≡ true)
    ⊎ (Nothing (record_withdrawal_op works 7 payment funded) funded
        ⊎ (Released works 7 payment funded (record_withdrawal_op works 7 payment funded)
            ⊎ Withdrawn works 7 payment funded (record_withdrawal_op works 7 payment funded)))
record_withdrawal_op-cases_example =
    record_withdrawal_op-cases works 7 payment funded (refl, refl) funded-AreStored

lock_balance-cases_example :
    ((e : Error) × (◌≡◌ {A = Result (Unit {0}) × Store}
        (lock_balance no_faults 7 (pos 400) funded)
        (err e, funded)))
    ⊎ Locked (lock_balance no_faults 7 (pos 400) funded) 7 (pos 400) funded
lock_balance-cases_example = lock_balance-cases no_faults 7 (pos 400) funded refl

abbrev history : List Request
history =
    Request.deposit works 7 notification "txn-1"
    ∷ Request.lock no_faults 7 (pos 400)
    ∷ Request.withdrawal works 7 payment
    ∷ Request.unlock no_faults 8 (pos 1)
    ∷ []

total-Fits : Fits (pos 400 +ℤ pos 25)
unfolding ◌+ℤ◌
total-Fits = (omega arith, omega arith)

serve_all-IsGood_example : IsGood (serve_all history start)
serve_all-IsGood_example =
    serve_all-IsGood history start
      (
        ((refl, refl), (refl, refl, refl, refl, refl), omega arith, (omega arith, omega arith)),
        (
          refl,
          (((refl, refl), (refl, refl, refl, refl, refl), omega arith, total-Fits), (refl, tt)),
        ),
      )
      start-IsGood
