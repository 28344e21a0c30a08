-- ===== src/Ledger.antt =====
-- The double-entry ledger: internal/domain/ledger.go, internal/service/ledger_service.go and
-- internal/repository/postgres/ledger_repo.go. The table is the list of its rows, oldest first.
pub mod Laws
use Prim.Native.String.{String}
use payflow_backend.Common.{
  ℕ, Bool, true, false, List, [], ◌∷◌, ◌++◌, ◌&&◌, ◌==◌, ◌^◌, ◌-◌, if◌then◌else◌,
}
use payflow_backend.Common.Int.{ℤ, pos, negsuc, ◌+ℤ◌, leb_ℤ, eqb_ℤ}
use payflow_backend.Common.Int64.{sub64}
use payflow_backend.Common.Errors.{Error, Result, ok, err}

pub data AccountType : Type 0 where
  wallet external revenue payable : AccountType

pub data EntryType : Type 0 where
  debit credit : EntryType

-- `transaction_id` groups the two rows of a pair.
pub record LedgerEntry : Type 0 where
  pub business_id : ℕ
  pub transaction_id : String
  pub account_type : AccountType
  pub entry_type : EntryType
  pub amount : ℤ
  pub reference : String

abbrev pub Ledger : Type 0
Ledger = List LedgerEntry

-- `CreatePair`: two inserts in one database transaction, so a failure of either leaves nothing.
unfoldable pub create_pair :
    (debit_fails credit_fails : Bool)
    → LedgerEntry
    → LedgerEntry
    → Ledger
    → Result (Unit {0}) × Ledger
create_pair true credit_fails d c l = (err Error.other, l)
create_pair false true d c l = (err Error.other, l)
create_pair false false d c l = (ok tt, l ++ (d ∷ c ∷ []))

-- What one recording call gets: the tenant, the amount, the reference, the random transaction id.
pub record Posting : Type 0 where
  pub business_id : ℕ
  pub amount : ℤ
  pub reference : String
  pub transaction_id : String

abbrev pub row : Posting → AccountType → EntryType → LedgerEntry
row p a e = record {
  business_id = p.business_id;
  transaction_id = p.transaction_id;
  account_type = a;
  entry_type = e;
  amount = p.amount;
  reference = p.reference;
}

module _ (debit_fails credit_fails : Bool) (p : Posting) (l : Ledger) where
  -- Credit wallet, debit external.
  unfoldable pub record_deposit : Result (Unit {0}) × Ledger
  unfolding create_pair
  record_deposit =
      create_pair debit_fails credit_fails (row p AccountType.external EntryType.debit)
        (row p AccountType.wallet EntryType.credit) l

  -- Debit wallet, credit external.
  unfoldable pub record_withdrawal : Result (Unit {0}) × Ledger
  unfolding create_pair
  record_withdrawal =
      create_pair debit_fails credit_fails (row p AccountType.wallet EntryType.debit)
        (row p AccountType.external EntryType.credit) l

  -- Debit wallet, credit revenue.
  unfoldable pub record_fee : Result (Unit {0}) × Ledger
  unfolding create_pair
  record_fee =
      create_pair debit_fails credit_fails (row p AccountType.wallet EntryType.debit)
        (row p AccountType.revenue EntryType.credit) l

abbrev pub is_wallet : AccountType → Bool
is_wallet AccountType.wallet = true
is_wallet _ = false

abbrev pub is_credit : EntryType → Bool
is_credit EntryType.credit = true
is_credit EntryType.debit = false

abbrev pub is_debit : EntryType → Bool
is_debit EntryType.debit = true
is_debit EntryType.credit = false

-- `SUM(CASE WHEN entry_type = … THEN amount ELSE 0 END)` over the business's wallet rows; SQL sums
-- bigints as numerics, without overflow.
unfoldable pub wallet_sum : (EntryType → Bool) → ℕ → Ledger → ℤ
wallet_sum side business_id [] = pos 0
wallet_sum side business_id (e ∷ l) =
    (if e.business_id == business_id && (is_wallet e.account_type && side e.entry_type)
      then e.amount
      else pos 0)
    +ℤ wallet_sum side business_id l

-- `Scan` into an int64 that starts at 0. Its error, of the query or of a sum outside 64 bits, is not
-- looked at.
abbrev pub scanned : (query_fails : Bool) → ℤ → ℤ
scanned true sum = pos 0
scanned false sum =
    if leb_ℤ (negsuc (2 ^ 63 - 1)) sum && leb_ℤ sum (pos (2 ^ 63 - 1)) then sum else pos 0

-- `ledgerRepository.Reconcile`: the credits, the debits and their difference.
unfoldable pub repo_reconcile : (credits_fail debits_fail : Bool) → ℕ → Ledger → ℤ × ℤ × ℤ
unfolding wallet_sum
repo_reconcile credits_fail debits_fail business_id l =
    let credits = scanned credits_fail (wallet_sum is_credit business_id l) in
    let debits = scanned debits_fail (wallet_sum is_debit business_id l) in
    (credits, debits, sub64 credits debits)

pub record ReconciliationResult : Type 0 where
  pub business_id : ℕ
  pub wallet_balance : ℤ
  pub ledger_credits : ℤ
  pub ledger_debits : ℤ
  pub ledger_balance : ℤ
  pub discrepancy : ℤ
  pub is_reconciled : Bool

-- `LedgerService.Reconcile`; the repository never returns an error.
unfoldable pub reconcile :
    (credits_fail debits_fail : Bool) → ℕ → ℤ → Ledger → Result ReconciliationResult
unfolding repo_reconcile
reconcile credits_fail debits_fail business_id wallet_balance l =
    let (credits, debits, balance) = repo_reconcile credits_fail debits_fail business_id l in
    let difference = sub64 wallet_balance balance in
    ok (record {
      business_id = business_id;
      wallet_balance = wallet_balance;
      ledger_credits = credits;
      ledger_debits = debits;
      ledger_balance = balance;
      discrepancy = difference;
      is_reconciled = eqb_ℤ difference (pos 0);
    })
