-- ===== src/Leave/Keys.antt =====
-- The keys of leave balances are compared as they should be.
use payflow_backend.Common.{
  ℕ, ◌≡◌, refl, sym, ap, Bool, true, false, ◌&&◌, Option, none, some, ◌==◌, arith, true≢false,
}
use payflow_backend.Leave.Store.{BalanceKey, same_key}

==-refl : (n : ℕ) → (n == n) ≡ true
==-refl n = ground arith

pub ==→≡ : (m n : ℕ) → (m == n) ≡ true → m ≡ n
==→≡ m n h = ground arith

both_left : (c d : Bool) → (c && d) ≡ true → c ≡ true
both_left true d h = refl
both_left false d h = h

both_right : (c d : Bool) → (c && d) ≡ true → d ≡ true
both_right true d h = h
both_right false d h = absurd (true≢false (sym h))

pub same_key_refl : (k : BalanceKey) → same_key k k ≡ true
same_key_refl k = rw (==-refl k.employee_id) (rw (==-refl k.leave_type_id) (==-refl k.year))

pub same_key→≡ : (k l : BalanceKey) → same_key k l ≡ true → k ≡ l
same_key→≡ k l h = λ i. record {
  employee_id = ==→≡ k.employee_id l.employee_id (both_left _ _ h) i;
  leave_type_id =
      ==→≡ k.leave_type_id l.leave_type_id
        (both_left _ _ (both_right (k.employee_id == l.employee_id) _ h)) i;
  year =
      ==→≡ k.year l.year
        (both_right (k.leave_type_id == l.leave_type_id) _
          (both_right (k.employee_id == l.employee_id) _ h))
        i;
}

pub some-inj : {A : Type 0} {a b : A} → ◌≡◌ {A = Option A} (some a) (some b) → a ≡ b
some-inj {A} {a} h = ap (λ o. from o) h
  where
    from : Option A → A
    from none = a
    from (some c) = c
