-- ===== src/Wallet/Effects.antt =====
-- What the updates of a wallet and the recordings of the wallet service in the ledger (ledger_service.go)
-- do to one balance.
use Prim.Native.String.{String}
use payflow_backend.Common.{
  ℕ, ◌≡◌, ◌∙◌, ap, inl, inr, Bool, true, false, Option, none, some, ◌==◌, if◌then◌else◌, arith,
  Bool-cases,
}
use payflow_backend.Common.Int.{ℤ, pos, ◌+ℤ◌, ◌-ℤ◌, ◌≤ℤ◌, ltb_ℤ, int_laws}
use payflow_backend.Ledger.{Ledger}
use payflow_backend.Ledger.Laws.{Call, post, wallet_net, wallet_net-post}
use payflow_backend.Wallet.Store.{Wallet, Wallets, set}
use payflow_backend.Wallet.Service.{
  Store, OpFaults, posting, ledger_deposit, ledger_withdrawal, ledger_fee,
}

-- A ledger service is there, and the database takes its inserts.
abbrev pub LedgerWorks : OpFaults → Type 0
LedgerWorks f =
    (f.has_ledger ≡ true)
    × (f.debit_fails ≡ false)
    × (f.credit_fails ≡ false)
    × (f.fee_debit_fails ≡ false)
    × (f.fee_credit_fails ≡ false)

abbrev pub balance_of : Option Wallet → ℤ
balance_of none = pos 0
balance_of (some w) = w.balance

-- The wallet of every business shows what the ledger says it should.
abbrev pub IsReconciled : Store → Type 0
IsReconciled s = (b : ℕ) → balance_of (s.wallets b) ≡ wallet_net b s.ledger

pub same_index : (b b' : ℕ) → (b' == b) ≡ true → (b' ≡ b) × ((b == b') ≡ true)
same_index b b' h = (ground arith, ground arith)

pub other_index : (b b' : ℕ) → (b' == b) ≡ false → (b == b') ≡ false
other_index b b' h = ground arith

pub no_more : (x : ℤ) → x ≡ x +ℤ pos 0
no_more x = omega int_laws

pub no_fee :
    (x a : ℤ) (c : Bool)
    → pos 0 ≤ℤ a
    → ltb_ℤ (pos 0) a ≡ false
    → x ≡ x +ℤ (if c then pos 0 -ℤ a else pos 0)
unfolding ◌-ℤ◌ ◌+ℤ◌
no_fee x a c h k = ground arith

pub balance-set :
    (b b' : ℕ) (w v : Wallet) (ws : Wallets) (d : ℤ)
    → ws b ≡ some w
    → v.balance ≡ w.balance +ℤ d
    → balance_of (set b v ws b') ≡ balance_of (ws b') +ℤ (if b == b' then d else pos 0)
balance-set b b' w v ws d p q = elim (Bool-cases (b' == b)) [
  | inl k ↦ let (here, back) = same_index b b' k in rw k (rw back (rw (ap ws here ∙ p) q))
  | inr k ↦ rw k (rw (other_index b b' k) (no_more (balance_of (ws b'))))
]

pub wallet_net-ledger_deposit :
    (f : OpFaults) (b : ℕ) (a : ℤ) (r id : String) (l : Ledger) (b' : ℕ)
    → LedgerWorks f
    → wallet_net b' (ledger_deposit f b a r id l)
      ≡ wallet_net b' l +ℤ (if b == b' then a else pos 0)
unfolding ledger_deposit post
wallet_net-ledger_deposit f b a r id l b' (h, d, c, d', c') =
    rw h (rw d (rw c (wallet_net-post b' (Call.deposit false false (posting f b a r id l)) l)))

pub wallet_net-ledger_withdrawal :
    (f : OpFaults) (b : ℕ) (a : ℤ) (r id : String) (l : Ledger) (b' : ℕ)
    → LedgerWorks f
    → wallet_net b' (ledger_withdrawal f b a r id l)
      ≡ wallet_net b' l +ℤ (if b == b' then pos 0 -ℤ a else pos 0)
unfolding ledger_withdrawal post
wallet_net-ledger_withdrawal f b a r id l b' (h, d, c, d', c') =
    rw h (rw d (rw c (wallet_net-post b' (Call.withdrawal false false (posting f b a r id l)) l)))

pub wallet_net-ledger_fee :
    (f : OpFaults) (b : ℕ) (a : ℤ) (r id : String) (l : Ledger) (b' : ℕ)
    → LedgerWorks f
    → pos 0 ≤ℤ a
    → wallet_net b' (ledger_fee f b a r id l)
      ≡ wallet_net b' l +ℤ (if b == b' then pos 0 -ℤ a else pos 0)
unfolding ledger_fee post
wallet_net-ledger_fee f b a r id l b' (h, d, c, d', c') nn = elim (Bool-cases (ltb_ℤ (pos 0) a)) [
  | inl k ↦
      rw h
        (rw k (rw d' (rw c' (wallet_net-post b' (Call.fee false false (posting f b a r id l)) l))))
  | inr k ↦ rw h (rw k (no_fee (wallet_net b' l) a (b == b') nn k))
]
