-- ===== src/Ledger/Laws.antt =====
-- The books balance after every history of postings, and the wallet account tells its business's
-- money and nobody else's.
use payflow_backend.Common.Int64.{Fits, sub64_exact}
use payflow_backend.Common.{
  ◌↔◌, ℕ, ◌≡◌, refl, ◌∙◌, ap, Bool, true, false, List, [], ◌∷◌, ◌++◌, ◌==◌, if◌then◌else◌, arith,
}
use payflow_backend.Common.Int.{ℤ, pos, eqb_ℤ, ◌+ℤ◌, ◌-ℤ◌, int_laws}
use payflow_backend.Common.Errors.{ok}
use payflow_backend.Ledger.{
  AccountType, EntryType, Ledger, Posting, row, create_pair, record_deposit, ReconciliationResult,
  scanned, repo_reconcile, reconcile, record_withdrawal, record_fee, is_credit, is_debit,
  wallet_sum,
}

-- One call of the service, and the two inserts that the database may refuse.
pub data Call : Type 0 where
  deposit withdrawal fee : (debit_fails credit_fails : Bool) → Posting → Call

unfoldable pub post : Call → Ledger → Ledger
unfolding record_deposit record_withdrawal record_fee
post (Call.deposit d c p) l = (record_deposit d c p l).1
post (Call.withdrawal d c p) l = (record_withdrawal d c p l).1
post (Call.fee d c p) l = (record_fee d c p l).1

unfoldable pub post_all : List Call → Ledger → Ledger
unfolding post
post_all [] l = l
post_all (c ∷ cs) l = post_all cs (post c l)

-- The sum of one side over the whole ledger, or over one business's wallet.
unfoldable pub side_sum : (EntryType → Bool) → Ledger → ℤ
side_sum side [] = pos 0
side_sum side (e ∷ l) = (if side e.entry_type then e.amount else pos 0) +ℤ side_sum side l

abbrev pub IsBalanced : Ledger → Type 0
IsBalanced l = side_sum is_debit l ≡ side_sum is_credit l

side_sum-append :
    (side : EntryType → Bool) (l m : Ledger)
    → side_sum side (l ++ m) ≡ side_sum side l +ℤ side_sum side m
unfolding side_sum
side_sum-append side [] m = omega int_laws
side_sum-append side (e ∷ l) m = rw (side_sum-append side l m) (omega int_laws)

wallet_sum-append :
    (side : EntryType → Bool) (b : ℕ) (l m : Ledger)
    → wallet_sum side b (l ++ m) ≡ wallet_sum side b l +ℤ wallet_sum side b m
unfolding wallet_sum
wallet_sum-append side b [] m = omega int_laws
wallet_sum-append side b (e ∷ l) m = rw (wallet_sum-append side b l m) (omega int_laws)

both_sides : (x a : ℤ) → x +ℤ (a +ℤ (pos 0 +ℤ pos 0)) ≡ x +ℤ (pos 0 +ℤ (a +ℤ pos 0))
both_sides x a = omega int_laws

pair-IsBalanced :
    (d c : Bool) (p : Posting) (a a' : AccountType) (l : Ledger)
    → IsBalanced l
    → IsBalanced (create_pair d c (row p a EntryType.debit) (row p a' EntryType.credit) l).1
unfolding create_pair side_sum
pair-IsBalanced true c p a a' l h = h
pair-IsBalanced false true p a a' l h = h
pair-IsBalanced false false p a a' l h =
    let rows : Ledger = row p a EntryType.debit ∷ row p a' EntryType.credit ∷ [] in
    rw (side_sum-append is_debit l rows)
      (rw (side_sum-append is_credit l rows) (rw h (both_sides (side_sum is_credit l) p.amount)))

post-IsBalanced : (c : Call) (l : Ledger) → IsBalanced l → IsBalanced (post c l)
unfolding post record_deposit record_withdrawal record_fee
post-IsBalanced (Call.deposit d c p) l h =
    pair-IsBalanced d c p AccountType.external AccountType.wallet l h
post-IsBalanced (Call.withdrawal d c p) l h =
    pair-IsBalanced d c p AccountType.wallet AccountType.external l h
post-IsBalanced (Call.fee d c p) l h =
    pair-IsBalanced d c p AccountType.wallet AccountType.revenue l h

-- Whatever deposits, withdrawals and fees are recorded, and whichever of their inserts the
-- database refuses, the debits of a balanced ledger still sum to its credits; the empty ledger is
-- balanced.
pub post_all-IsBalanced : (cs : List Call) (l : Ledger) → IsBalanced l → IsBalanced (post_all cs l)
unfolding post_all
post_all-IsBalanced [] l h = h
post_all-IsBalanced (c ∷ cs) l h = post_all-IsBalanced cs (post c l) (post-IsBalanced c l h)

-- What one call is worth to the wallet of business `b`: nothing when an insert is refused or the
-- call is another business's.
abbrev pub worth : ℕ → Call → ℤ
worth b (Call.deposit false false p) = if p.business_id == b then p.amount else pos 0
worth b (Call.withdrawal false false p) = if p.business_id == b then pos 0 -ℤ p.amount else pos 0
worth b (Call.fee false false p) = if p.business_id == b then pos 0 -ℤ p.amount else pos 0
worth b _ = pos 0

abbrev pub worth_all : ℕ → List Call → ℤ
worth_all b [] = pos 0
worth_all b (c ∷ cs) = worth b c +ℤ worth_all b cs

unfoldable pub wallet_net : ℕ → Ledger → ℤ
wallet_net b l = wallet_sum is_credit b l -ℤ wallet_sum is_debit b l

wallet_net-append :
    (b : ℕ) (l m : Ledger) → wallet_net b (l ++ m) ≡ wallet_net b l +ℤ wallet_net b m
unfolding wallet_net
wallet_net-append b l m =
    rw (wallet_sum-append is_credit b l m) (rw (wallet_sum-append is_debit b l m) (omega int_laws))

module _ (b : ℕ) (p : Posting) where
  wallet_net-deposit_rows :
      wallet_net b (
        row p AccountType.external EntryType.debit ∷ row p AccountType.wallet EntryType.credit ∷ [])
      ≡ (if p.business_id == b then p.amount else pos 0)
  unfolding wallet_net wallet_sum ◌+ℤ◌ ◌-ℤ◌
  wallet_net-deposit_rows = ground arith

  wallet_net-withdrawal_rows :
      wallet_net b (
        row p AccountType.wallet EntryType.debit ∷ row p AccountType.external EntryType.credit ∷ [])
      ≡ (if p.business_id == b then pos 0 -ℤ p.amount else pos 0)
  unfolding wallet_net wallet_sum ◌+ℤ◌ ◌-ℤ◌
  wallet_net-withdrawal_rows = ground arith

  wallet_net-fee_rows :
      wallet_net b
        (row p AccountType.wallet EntryType.debit ∷ row p AccountType.revenue EntryType.credit ∷ [])
      ≡ (if p.business_id == b then pos 0 -ℤ p.amount else pos 0)
  unfolding wallet_net wallet_sum ◌+ℤ◌ ◌-ℤ◌
  wallet_net-fee_rows = ground arith

plus_nothing : (x : ℤ) → x ≡ x +ℤ pos 0
plus_nothing x = omega int_laws

pub wallet_net-post :
    (b : ℕ) (c : Call) (l : Ledger) → wallet_net b (post c l) ≡ wallet_net b l +ℤ worth b c
unfolding post record_deposit record_withdrawal record_fee create_pair
wallet_net-post b (Call.deposit true c p) l = plus_nothing (wallet_net b l)
wallet_net-post b (Call.deposit false true p) l = plus_nothing (wallet_net b l)
wallet_net-post b (Call.deposit false false p) l =
    wallet_net-append b l
      (row p AccountType.external EntryType.debit ∷ row p AccountType.wallet EntryType.credit ∷ [])
    ∙ ap (λ z. wallet_net b l +ℤ z) (wallet_net-deposit_rows b p)
wallet_net-post b (Call.withdrawal true c p) l = plus_nothing (wallet_net b l)
wallet_net-post b (Call.withdrawal false true p) l = plus_nothing (wallet_net b l)
wallet_net-post b (Call.withdrawal false false p) l =
    wallet_net-append b l
      (row p AccountType.wallet EntryType.debit ∷ row p AccountType.external EntryType.credit ∷ [])
    ∙ ap (λ z. wallet_net b l +ℤ z) (wallet_net-withdrawal_rows b p)
wallet_net-post b (Call.fee true c p) l = plus_nothing (wallet_net b l)
wallet_net-post b (Call.fee false true p) l = plus_nothing (wallet_net b l)
wallet_net-post b (Call.fee false false p) l =
    wallet_net-append b l
      (row p AccountType.wallet EntryType.debit ∷ row p AccountType.revenue EntryType.credit ∷ [])
    ∙ ap (λ z. wallet_net b l +ℤ z) (wallet_net-fee_rows b p)

-- The wallet account of a business moves by exactly the deposits less the withdrawals and fees
-- recorded for that business; refused calls and other businesses' calls move nothing.
pub wallet_net-post_all :
    (b : ℕ) (cs : List Call) (l : Ledger)
    → wallet_net b (post_all cs l) ≡ wallet_net b l +ℤ worth_all b cs
unfolding post_all
wallet_net-post_all b [] l = plus_nothing (wallet_net b l)
wallet_net-post_all b (c ∷ cs) l =
    rw (wallet_net-post_all b cs (post c l)) (rw (wallet_net-post b c l) (omega int_laws))

eqb_difference : (w x : ℤ) → (eqb_ℤ (w -ℤ x) (pos 0) ≡ true) ↔ (w ≡ x)
unfolding ◌-ℤ◌
eqb_difference w x = (λ h. ground arith, λ h. ground arith)

-- A side of the wallet account as `reconcile` takes it: 0 when its query fails.
abbrev pub read_sum : (fails : Bool) → (EntryType → Bool) → ℕ → Ledger → ℤ
read_sum fails side b l = if fails then pos 0 else wallet_sum side b l

scanned-Fits :
    (fails : Bool) (sum : ℤ) → Fits sum → scanned fails sum ≡ (if fails then pos 0 else sum)
scanned-Fits true sum h = refl
scanned-Fits false sum h = ground arith

-- When the two sums fit in 64 bits, and so do the differences that are computed, `reconcile` never
-- fails, whether or not its queries do: the discrepancy that it reports is the wallet's balance less
-- credits plus debits, where a side whose query fails counts as 0, and it says reconciled exactly
-- when that is 0. So with both queries it says whether the wallet's balance is the ledger's.
pub reconcile_lem :
    (credits_fail debits_fail : Bool) (b : ℕ) (w : ℤ) (l : Ledger)
    → Fits (wallet_sum is_credit b l)
    → Fits (wallet_sum is_debit b l)
    → Fits (read_sum credits_fail is_credit b l -ℤ read_sum debits_fail is_debit b l)
    → Fits (w -ℤ (read_sum credits_fail is_credit b l -ℤ read_sum debits_fail is_debit b l))
    → (r : ReconciliationResult) × (reconcile credits_fail debits_fail b w l ≡ ok r)
      × ((r.is_reconciled ≡ true)
          ↔ (w ≡ read_sum credits_fail is_credit b l -ℤ read_sum debits_fail is_debit b l))
      × (r.discrepancy
          ≡ w -ℤ (read_sum credits_fail is_credit b l -ℤ read_sum debits_fail is_debit b l))
unfolding reconcile repo_reconcile
reconcile_lem cf df b w l fc fd f g =
    let c = read_sum cf is_credit b l in
    let d = read_sum df is_debit b l in
    (
      _,
      refl,
      rw (scanned-Fits cf (wallet_sum is_credit b l) fc) (
          rw (scanned-Fits df (wallet_sum is_debit b l) fd)
            (rw (sub64_exact c d f) (rw (sub64_exact w (c -ℤ d) g) (eqb_difference w (c -ℤ d))))),
      rw (scanned-Fits cf (wallet_sum is_credit b l) fc) (
          rw (scanned-Fits df (wallet_sum is_debit b l) fd)
            (rw (sub64_exact c d f) (rw (sub64_exact w (c -ℤ d) g) refl))),
    )
