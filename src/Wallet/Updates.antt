-- ===== src/Wallet/Updates.antt =====
-- What the atomic updates of a wallet row do, seen from the caller.
use payflow_backend.Common.{
  ℕ, ◌^◌, ◌<◌, ◌≡◌, refl, ◌∙◌, ap, ◌⊎◌, inl, inr, Bool, true, false, Option, none, some, ◌&&◌,
  if◌then◌else◌, Bool-cases, Option-cases, arith,
}
use payflow_backend.Common.Int.{ℤ, pos, negsuc, ◌+ℤ◌, ◌-ℤ◌, ◌≤ℤ◌, int_laws}
use payflow_backend.Common.Int64.{Fits, neg64, wrap64_of_Fits}
use payflow_backend.Common.Errors.{Error, Result, ok, err}
use payflow_backend.Wallet.Store.{
  Wallet, Wallets, Faults, Updated, skipped, written, set, write, exec, on_row, in_column,
  increment_balance, find_by_business_id,
}

-- Both columns take their values.
abbrev pub is_stored : Wallet → Bool
is_stored w = in_column w.balance && in_column w.locked_balance

abbrev pub credited : ℤ → Wallet → Wallet
credited a w = record w { balance = w.balance +ℤ a }

-- An update, of which the row can be read back, refuses and changes nothing, or writes the row that
-- it returns.
abbrev pub Wrote : Result Wallet × Wallets → ℕ → (Wallet → Updated) → Wallets → Type 0
Wrote r b g ws =
    (w : Wallet) × (w' : Wallet) × (ws b ≡ some w)
    × (g w ≡ written w')
    × (is_stored w' ≡ true)
    × (r ≡ (ok w', set b w' ws))

abbrev pub Refused : Result Wallet × Wallets → Wallets → Type 0
Refused r ws = (e : Error) × (r ≡ (err e, ws))

write-cases :
    (f : Faults) (absent : Error) (b : ℕ) (w w' : Wallet) (g : Wallet → Updated) (ws : Wallets)
    → f.reread_fails ≡ false
    → ws b ≡ some w
    → g w ≡ written w'
    → Refused (write f absent b (written w') ws) ws
      ⊎ Wrote (write f absent b (written w') ws) b g ws
unfolding write
write-cases f absent b w w' g ws h p q = elim (Bool-cases (is_stored w')) [
  | inl k ↦ inr (w, w', p, q, k, rw k (rw h refl))
  | inr k ↦ inl (Error.other, rw k refl)
]

row-cases :
    (f : Faults) (absent : Error) (b : ℕ) (w : Wallet) (u : Updated) (g : Wallet → Updated)
    (ws : Wallets)
    → f.reread_fails ≡ false
    → ws b ≡ some w
    → g w ≡ u
    → Refused (write f absent b u ws) ws ⊎ Wrote (write f absent b u ws) b g ws
unfolding write
row-cases f absent b w skipped g ws h p q = inl (absent, refl)
row-cases f absent b w (written w') g ws h p q = write-cases f absent b w w' g ws h p q

exec-fails :
    (f : Faults) (absent : Error) (b : ℕ) (g : Wallet → Updated) (ws : Wallets)
    → f.update_fails ≡ true
    → ◌≡◌ {A = Result Wallet × Wallets} (exec f absent b g ws) (err Error.other, ws)
unfolding exec
exec-fails f absent b g ws h = rw h refl

pub exec-runs :
    (f : Faults) (absent : Error) (b : ℕ) (g : Wallet → Updated) (ws : Wallets) (o : Option Wallet)
    → f.update_fails ≡ false
    → ws b ≡ o
    → exec f absent b g ws ≡ write f absent b (on_row o g) ws
unfolding exec
exec-runs f absent b g ws o h p =
    ap (λ c. if c then (err Error.other, ws) else write f absent b (on_row (ws b) g) ws) h
    ∙ ap (λ x. write f absent b (on_row x g) ws) p

pub exec-cases :
    (f : Faults) (absent : Error) (b : ℕ) (g : Wallet → Updated) (ws : Wallets)
    → f.reread_fails ≡ false
    → Refused (exec f absent b g ws) ws ⊎ Wrote (exec f absent b g ws) b g ws
unfolding write
exec-cases f absent b g ws h = elim (Bool-cases f.update_fails) [
  | inl k ↦ inl (Error.other, exec-fails f absent b g ws k)
  | inr k ↦ elim (Option-cases (ws b)) [
    | inl p ↦ inl (absent, exec-runs f absent b g ws none k p)
    | inr (w, p) ↦
        rw (exec-runs f absent b g ws (some w) k p) (row-cases f absent b w (g w) g ws h p refl)
  ]
]

-- The second update undoes the first.
pub set-undo : (b : ℕ) (w w' : Wallet) (ws : Wallets) → ws b ≡ some w → set b w (set b w' ws) ≡ ws
set-undo b w w' ws h = λ i b'. at b' i
  where
    at : (b' : ℕ) → set b w (set b w' ws) b' ≡ ws b'
    at b' = ground (arith, h)

pub set-same : (b : ℕ) (w : Wallet) (ws : Wallets) → set b w ws b ≡ some w
set-same b w ws = ground arith

opposite_Fits : (n : ℕ) → n < 2 ^ 63 → Fits (pos 0 -ℤ pos n)
unfolding ◌-ℤ◌
opposite_Fits n h = ground arith

opposite : (n : ℕ) → Fits (pos n) → neg64 (pos n) ≡ pos 0 -ℤ pos n
unfolding neg64
opposite n h = wrap64_of_Fits (pos 0 -ℤ pos n) (opposite_Fits n h.0)

pub neg64-undo : (x a : ℤ) → Fits a → pos 0 ≤ℤ a → x +ℤ a +ℤ neg64 a ≡ x
neg64-undo x (pos n) h k = rw (opposite n h) (omega int_laws)
neg64-undo x (negsuc n) h k = absurd (omega arith)

pub write-stored :
    (f : Faults) (absent : Error) (b : ℕ) (w : Wallet) (ws : Wallets)
    → is_stored w ≡ true
    → (write f absent b (written w) ws).1 ≡ set b w ws
unfolding write
write-stored f absent b w ws h = rw h refl

-- An increment that the opposite increment follows leaves the table as it was.
pub increment_balance-rollback :
    (f : Faults) (b : ℕ) (w : Wallet) (a a' : ℤ) (ws : Wallets)
    → f.update_fails ≡ false
    → ws b ≡ some w
    → is_stored w ≡ true
    → w.balance +ℤ a +ℤ a' ≡ w.balance
    → (increment_balance f b a' (set b (credited a w) ws)).1 ≡ ws
unfolding increment_balance
increment_balance-rollback f b w a a' ws h p k q =
    let mid = set b (credited a w) ws in
    ap (λ r. r.1)
      (exec-runs f Error.not_found b (λ x. written (credited a' x)) mid (some (credited a w)) h
        (set-same b (credited a w) ws))
    ∙ ap (λ z. (write f Error.not_found b (written (record w { balance = z })) mid).1) q
    ∙ write-stored f Error.not_found b w mid k
    ∙ set-undo b w (credited a w) ws p

pub some-inj : {w w' : Wallet} → ◌≡◌ {A = Option Wallet} (some w) (some w') → w ≡ w'
some-inj {w} h = ap (from w) h
  where
    from : Wallet → Option Wallet → Wallet
    from d none = d
    from d (some v) = v

pub written-inj : {w w' : Wallet} → ◌≡◌ {A = Updated} (written w) (written w') → w ≡ w'
written-inj {w} h = ap (from w) h
  where
    from : Wallet → Updated → Wallet
    from d skipped = d
    from d (written v) = v

pub find-cases :
    (fails : Bool) (b : ℕ) (ws : Wallets)
    → (let o = find_by_business_id fails b ws in
        ((e : Error) × (o ≡ err e)) ⊎ ((w : Wallet) × (ws b ≡ some w) × (o ≡ ok w)))
unfolding find_by_business_id
find-cases true b ws = inl (Error.other, refl)
find-cases false b ws = elim (Option-cases (ws b)) [
  | inl p ↦ inl (Error.not_found, rw p refl)
  | inr (w, p) ↦ inr (w, p, rw p refl)
]

pub set-set : (b : ℕ) (v w : Wallet) (ws : Wallets) → set b v (set b w ws) ≡ set b v ws
set-set b v w ws = λ i b'. at b' i
  where
    at : (b' : ℕ) → set b v (set b w ws) b' ≡ set b v ws b'
    at b' = ground arith

-- An increment of a row that was just written.
pub increment_balance-again :
    (f : Faults) (b : ℕ) (a : ℤ) (v w : Wallet) (ws : Wallets)
    → f.update_fails ≡ false
    → is_stored v ≡ true
    → credited a w ≡ v
    → (increment_balance f b a (set b w ws)).1 ≡ set b v ws
unfolding increment_balance
increment_balance-again f b a v w ws h k q =
    ap (λ r. r.1)
      (exec-runs f Error.not_found b (λ x. written (credited a x)) (set b w ws) (some w) h
        (set-same b w ws))
    ∙ ap (λ z. (write f Error.not_found b (written z) (set b w ws)).1) q
    ∙ write-stored f Error.not_found b v (set b w ws) k
    ∙ set-set b v w ws
