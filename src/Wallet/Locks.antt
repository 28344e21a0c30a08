-- ===== src/Wallet/Locks.antt =====
-- Locks on the balance: `CheckBalance`, `LockBalance`, `UnlockBalance`.
use payflow_backend.Common.{
  ℕ, ◌≡◌, refl, sym, ◌∙◌, ap, ◌⊎◌, inl, inr, Bool, true, false, some, arith,
}
use payflow_backend.Common.Int.{ℤ, pos, ◌+ℤ◌, ◌-ℤ◌, ◌≤ℤ◌, leb_ℤ}
use payflow_backend.Common.Errors.{Error, Result, ok, err}
use payflow_backend.Wallet.Store.{
  Wallet, Faults, written, set, write, at_least_zero, where_holds, increment_locked,
  decrement_locked,
}
use payflow_backend.Wallet.Updates.{
  is_stored, written-inj, exec-cases, exec-runs, set-same, set-undo, write-stored,
}
use payflow_backend.Wallet.Service.{Store, lock_balance, unlock_balance}

abbrev pub locked : ℤ → Wallet → Wallet
locked a w = record w { locked_balance = w.locked_balance +ℤ a }

-- A lock taken: the amount was available, and only the lock of that wallet moved.
abbrev pub Locked : Result (Unit {0}) × Store → ℕ → ℤ → Store → Type 0
Locked r b a s =
    (w : Wallet) × (s.wallets b ≡ some w)
    × (a ≤ℤ w.balance -ℤ w.locked_balance)
    × (is_stored (locked a w) ≡ true)
    × (◌≡◌ {A = Result (Unit {0}) × Store} r
        (ok tt, record s { wallets = set b (locked a w) s.wallets }))

leb_ℤ→≤ℤ : (a b : ℤ) → leb_ℤ a b ≡ true → a ≤ℤ b
leb_ℤ→≤ℤ a b h = ground arith

checked : (g : Bool) (w w' : Wallet) → where_holds g w' ≡ written w → (g ≡ true) × (w' ≡ w)
checked true w w' h = (refl, written-inj h)
checked false w w' h = absurd (cc)

-- `LockBalance`, when the row can be read back, fails and changes nothing, or the amount was
-- available and the lock has it more, and nothing else has changed.
pub lock_balance-cases :
    (f : Faults) (b : ℕ) (a : ℤ) (s : Store)
    → f.reread_fails ≡ false
    → ((e : Error) × (◌≡◌ {A = Result (Unit {0}) × Store} (lock_balance f b a s) (err e, s)))
      ⊎ Locked (lock_balance f b a s) b a s
unfolding lock_balance increment_locked
lock_balance-cases f b a s h =
    elim (exec-cases f Error.other b
      (λ w. where_holds (leb_ℤ a (w.balance -ℤ w.locked_balance)) (locked a w)) s.wallets h) [
        | inl (e, q) ↦ inl (e, rw q refl)
        | inr (w, w', p, g, k, q) ↦
            let (c, row) = checked (leb_ℤ a (w.balance -ℤ w.locked_balance)) w' (locked a w) g in
            inr (
              w,
              p,
              leb_ℤ→≤ℤ a (w.balance -ℤ w.locked_balance) c,
              ap is_stored row ∙ k,
              rw q (ap (λ v. (ok tt, record s { wallets = set b v s.wallets })) (sym row)),
            )
      ]

-- `UnlockBalance`, when the row can be read back, fails and changes nothing, or takes the amount off
-- the lock, down to zero.
pub unlock_balance-cases :
    (f : Faults) (b : ℕ) (a : ℤ) (s : Store)
    → f.reread_fails ≡ false
    → ((e : Error) × (◌≡◌ {A = Result (Unit {0}) × Store} (unlock_balance f b a s) (err e, s)))
      ⊎ ((w : Wallet) × (s.wallets b ≡ some w)
          × (is_stored (record w { locked_balance = at_least_zero (w.locked_balance -ℤ a) }) ≡ true)
          × (◌≡◌ {A = Result (Unit {0}) × Store} (unlock_balance f b a s) (
            ok tt,
            record s {
              wallets =
                  set b
                    (record w { locked_balance = at_least_zero (w.locked_balance -ℤ a) })
                    s.wallets;
            },
          )))
unfolding unlock_balance decrement_locked
unlock_balance-cases f b a s h =
    elim (exec-cases f Error.not_found b
      (λ w. written (record w { locked_balance = at_least_zero (w.locked_balance -ℤ a) })) s.wallets
      h) [
        | inl (e, q) ↦ inl (e, rw q refl)
        | inr (w, w', p, g, k, q) ↦ inr (
          w,
          p,
          ap is_stored (written-inj g) ∙ k,
          rw q (ap (λ v. (ok tt, record s { wallets = set b v s.wallets })) (sym (written-inj g))),
        )
      ]

released_lock : (x a : ℤ) → pos 0 ≤ℤ x → at_least_zero (x +ℤ a -ℤ a) ≡ x
unfolding ◌+ℤ◌ ◌-ℤ◌
released_lock x a h = ground arith

-- An unlock that the database takes undoes the lock, when no lock was negative.
pub unlock_balance-undo :
    (f : Faults) (b : ℕ) (a : ℤ) (s : Store) (w : Wallet)
    → f.update_fails ≡ false
    → s.wallets b ≡ some w
    → is_stored w ≡ true
    → pos 0 ≤ℤ w.locked_balance
    → (unlock_balance f b a (record s { wallets = set b (locked a w) s.wallets })).1 ≡ s
unfolding unlock_balance decrement_locked
unlock_balance-undo f b a s w h p k n =
    let mid = set b (locked a w) s.wallets in
    ap (λ ws. record s { wallets = ws })
      (ap (λ r. r.1)
          (exec-runs f Error.not_found b
            (λ x. written (record x { locked_balance = at_least_zero (x.locked_balance -ℤ a) })) mid
            (some (locked a w)) h (set-same b (locked a w) s.wallets))
        ∙ ap (λ z. (write f Error.not_found b (written (record w { locked_balance = z })) mid).1)
            (released_lock w.locked_balance a n)
        ∙ write-stored f Error.not_found b w mid k
        ∙ set-undo b w (locked a w) s.wallets p)
