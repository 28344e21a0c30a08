-- ===== src/Wallet/Store.antt =====
-- The tables business_wallets and wallet_transactions: internal/repository/postgres/wallet_repo.go
-- and wallet_transaction_repo.go. An UPDATE is one atomic statement; a `Faults` value says which of
-- its database calls fail. The database refuses a row with an amount below zero or outside 64 bits.
use Prim.Native.String.{String}
use payflow_backend.Common.{
  ℕ, Bool, true, false, Option, none, some, List, [], ◌∷◌, ◌&&◌, ◌||◌, ◌==◌, ◌^◌, ◌-◌,
  if◌then◌else◌,
}
use payflow_backend.Common.Int.{ℤ, pos, negsuc, ◌+ℤ◌, ◌-ℤ◌, leb_ℤ}
use payflow_backend.Common.Errors.{Error, Result, ok, err}
use payflow_backend.Common.Texts.{same_text}

-- The fields of `BusinessWallet` that the operations read or write.
pub record Wallet : Type 0 where
  pub balance : ℤ
  pub locked_balance : ℤ
  pub currency : String

-- One row for each business, by the unique index on business_id.
abbrev pub Wallets : Type 0
Wallets = ℕ → Option Wallet

abbrev pub set : ℕ → Wallet → Wallets → Wallets
set b w ws b' = if b' == b then some w else ws b'

-- `FindByBusinessID`
unfoldable pub find_by_business_id : (fails : Bool) → ℕ → Wallets → Result Wallet
find_by_business_id true b ws = err Error.other
find_by_business_id false b ws = found (ws b)
  where
    found : Option Wallet → Result Wallet
    found none = err Error.not_found
    found (some w) = ok w

-- What both amount columns take: bigint, with the CHECK (… >= 0) of migrations/000011.
abbrev pub in_column : ℤ → Bool
in_column a = leb_ℤ (pos 0) a && leb_ℤ a (pos (2 ^ 63 - 1))

-- The UPDATE itself fails, or the row that it wrote cannot be read back.
pub record Faults : Type 0 where
  pub update_fails : Bool
  pub reread_fails : Bool

-- What the statement does to a row: its WHERE clause is false, or it writes the row.
pub data Updated : Type 0 where
  skipped : Updated
  written : Wallet → Updated

abbrev pub read_back : Bool → Wallet → Result Wallet
read_back true w = err Error.other
read_back false w = ok w

-- The writing of one row, and the second query that reads it.
unfoldable pub write : Faults → Error → ℕ → Updated → Wallets → Result Wallet × Wallets
write f absent b skipped ws = (err absent, ws)
write f absent b (written w) ws =
    if in_column w.balance && in_column w.locked_balance
    then (read_back f.reread_fails w, set b w ws)
    else (err Error.other, ws)

abbrev pub on_row : Option Wallet → (Wallet → Updated) → Updated
on_row none g = skipped
on_row (some w) g = g w

-- Exec, then the test of RowsAffected, then `FindByBusinessID`.
unfoldable pub exec : Faults → Error → ℕ → (Wallet → Updated) → Wallets → Result Wallet × Wallets
unfolding write
exec f absent b g ws =
    if f.update_fails then (err Error.other, ws) else write f absent b (on_row (ws b) g) ws

-- GREATEST(a, 0)
abbrev pub at_least_zero : ℤ → ℤ
at_least_zero (pos n) = pos n
at_least_zero (negsuc n) = pos 0

abbrev pub where_holds : Bool → Wallet → Updated
where_holds true w = written w
where_holds false w = skipped

-- `IncrementBalance`
unfoldable pub increment_balance : Faults → ℕ → ℤ → Wallets → Result Wallet × Wallets
unfolding exec
increment_balance f b amount ws =
    exec f Error.not_found b (λ w. written (record w { balance = w.balance +ℤ amount })) ws

-- `DecrementBalanceAndLocked`
unfoldable pub decrement_balance_and_locked :
    Faults → ℕ → (balance_amount locked_amount : ℤ) → Wallets → Result Wallet × Wallets
unfolding exec
decrement_balance_and_locked f b balance_amount locked_amount ws =
    exec f Error.other b
      (λ w. where_holds (leb_ℤ balance_amount w.balance) (record w {
        balance = w.balance -ℤ balance_amount;
        locked_balance = at_least_zero (w.locked_balance -ℤ locked_amount);
      }))
      ws

-- `IncrementLocked`
unfoldable pub increment_locked : Faults → ℕ → ℤ → Wallets → Result Wallet × Wallets
unfolding exec
increment_locked f b amount ws =
    exec f Error.other b
      (λ w.
        where_holds (leb_ℤ amount (w.balance -ℤ w.locked_balance))
          (record w { locked_balance = w.locked_balance +ℤ amount }))
      ws

-- `DecrementLocked`
unfoldable pub decrement_locked : Faults → ℕ → ℤ → Wallets → Result Wallet × Wallets
unfolding exec
decrement_locked f b amount ws =
    exec f Error.not_found b
      (λ w. written (record w { locked_balance = at_least_zero (w.locked_balance -ℤ amount) })) ws

pub data WalletTransactionType : Type 0 where
  deposit withdrawal : WalletTransactionType

pub record WalletTransaction : Type 0 where
  pub business_id : ℕ
  pub transaction_type : WalletTransactionType
  pub amount : ℤ
  pub balance_before : ℤ
  pub balance_after : ℤ
  pub currency : String
  pub reference : String
  pub transfer_id : Option ℕ
  pub status : String

unfoldable pub has_reference : String → List WalletTransaction → Bool
has_reference r [] = false
has_reference r (t ∷ ts) = same_text t.reference r || has_reference r ts

-- `FindByReference` and the test on its result: an error counts as not found.
abbrev pub already_recorded : (fails : Bool) → String → List WalletTransaction → Bool
already_recorded true r ts = false
already_recorded false r ts = has_reference r ts

-- `Create`: the column `reference` is unique.
unfoldable pub create :
    (fails : Bool)
    → WalletTransaction
    → List WalletTransaction
    → Result (Unit {0}) × List WalletTransaction
create true t ts = (err Error.other, ts)
create false t ts =
    if has_reference t.reference ts then (err Error.conflict, ts) else (ok tt, t ∷ ts)
