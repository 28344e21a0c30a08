-- ===== src/Leave/Balances.antt =====
-- What an update of one leave balance changes.
use payflow_backend.Common.{
  ℕ, ◌≡◌, refl, sym, ap, subst, ◌∙◌, inl, inr, Bool, true, false, Option, none, some, List, [], ◌∷◌,
  ◌++◌, if◌then◌else◌, All, All-append, Bool-cases, true≢false,
}
use payflow_backend.Common.Int.{pos_part}
use payflow_backend.Leave.Store.{
  BalanceKey, LeaveBalance, same_key, or_next, balance_of, replace_balance, unless_taken,
  create_balance,
}
use payflow_backend.Leave.Keys.{same_key→≡, same_key_refl, some-inj}

-- The days that a balance has used.
abbrev pub used_days : Option LeaveBalance → ℕ
used_days none = 0
used_days (some b) = pos_part b.used

module _ (P : LeaveBalance → Type 0) where
  pub All-balance :
      (key : BalanceKey) (b : LeaveBalance) (bs : List LeaveBalance)
      → All P bs
      → balance_of key bs ≡ some b
      → P b
  unfolding balance_of
  All-balance key b [] h k = absurd (cc)
  All-balance key b (c ∷ cs) h k = elim (Bool-cases (same_key c.key key)) [
    | inl q ↦ subst P (some-inj (sym (ap (λ e. or_next e c (balance_of key cs)) q) ∙ k)) h.0
    | inr q ↦ All-balance key b cs h.1 (sym (ap (λ e. or_next e c (balance_of key cs)) q) ∙ k)
  ]

  pub All-replace_balance :
      (b : LeaveBalance) (bs : List LeaveBalance) → All P bs → P b → All P (replace_balance b bs)
  unfolding replace_balance
  All-replace_balance b [] h p = tt
  All-replace_balance b (c ∷ cs) h p = elim (Bool-cases (same_key c.key b.key)) [
    | inl q ↦ rw q (p, h.1)
    | inr q ↦ rw q (h.0, All-replace_balance b cs h.1 p)
  ]

  unless_taken-All :
      (o : Option LeaveBalance) (b : LeaveBalance) (bs : List LeaveBalance)
      → All P bs
      → P b
      → All P (unless_taken o b bs)
  unless_taken-All none b bs h p = All-append P bs (b ∷ []) h (p, tt)
  unless_taken-All (some c) b bs h p = h

  pub All-create_balance :
      (fails : Bool) (b : LeaveBalance) (bs : List LeaveBalance)
      → All P bs
      → P b
      → All P (create_balance fails b bs)
  unfolding create_balance
  All-create_balance true b bs h p = h
  All-create_balance false b bs h p = unless_taken-All (balance_of b.key bs) b bs h p

pub balance_of-key :
    (key : BalanceKey) (b : LeaveBalance) (bs : List LeaveBalance)
    → balance_of key bs ≡ some b
    → b.key ≡ key
unfolding balance_of
balance_of-key key b [] h = absurd (cc)
balance_of-key key b (c ∷ cs) h = elim (Bool-cases (same_key c.key key)) [
  | inl q ↦
      let same : c ≡ b = some-inj (sym (ap (λ e. or_next e c (balance_of key cs)) q) ∙ h) in
      sym (ap (λ t. t.key) same) ∙ same_key→≡ c.key key q
  | inr q ↦ balance_of-key key b cs (sym (ap (λ e. or_next e c (balance_of key cs)) q) ∙ h)
]

module _ (key : BalanceKey) where
  used_days-append :
      (b : LeaveBalance) (bs : List LeaveBalance)
      → pos_part b.used ≡ 0
      → used_days (balance_of key (bs ++ (b ∷ []))) ≡ used_days (balance_of key bs)
  unfolding balance_of
  used_days-append b [] h = elim (Bool-cases (same_key b.key key)) [
    | inl q ↦ rw q h
    | inr q ↦ rw q refl
  ]
  used_days-append b (c ∷ cs) h = elim (Bool-cases (same_key c.key key)) [
    | inl q ↦ rw q refl
    | inr q ↦ rw q (used_days-append b cs h)
  ]

  used_days-unless :
      (o : Option LeaveBalance) (b : LeaveBalance) (bs : List LeaveBalance)
      → pos_part b.used ≡ 0
      → used_days (balance_of key (unless_taken o b bs)) ≡ used_days (balance_of key bs)
  used_days-unless none b bs h = used_days-append b bs h
  used_days-unless (some c) b bs h = refl

  pub used_days-create :
      (fails : Bool) (b : LeaveBalance) (bs : List LeaveBalance)
      → pos_part b.used ≡ 0
      → used_days (balance_of key (create_balance fails b bs)) ≡ used_days (balance_of key bs)
  unfolding create_balance
  used_days-create true b bs h = refl
  used_days-create false b bs h = used_days-unless (balance_of b.key bs) b bs h

  -- A balance that is replaced counts for its key, and the others as before.
  pub used_days-replace :
      (b b' : LeaveBalance) (bs : List LeaveBalance)
      → balance_of b'.key bs ≡ some b
      → used_days (balance_of key (replace_balance b' bs))
        ≡ (if same_key b'.key key then pos_part b'.used else used_days (balance_of key bs))
  unfolding balance_of replace_balance
  used_days-replace b b' [] h = absurd (cc)
  used_days-replace b b' (c ∷ cs) h = elim (Bool-cases (same_key c.key b'.key)) [
    | inl q ↦
        let same = same_key→≡ c.key b'.key q in
        rw q (elim (Bool-cases (same_key b'.key key)) [
          | inl k ↦ rw k refl
          | inr k ↦ rw (ap (λ l. same_key l key) same ∙ k) (rw k refl)
        ])
    | inr q ↦
        let found = sym (ap (λ e. or_next e c (balance_of b'.key cs)) q) ∙ h in
        rw q (elim (Bool-cases (same_key c.key key)) [
          | inl k ↦ rw k (rw (other c.key b'.key q k) refl)
          | inr k ↦ rw k (used_days-replace b b' cs found)
        ])
  ]
    where
      other :
          (l m : BalanceKey) → same_key l m ≡ false → same_key l key ≡ true → same_key m key ≡ false
      other l m q k = elim (Bool-cases (same_key m key)) [
        | inl e ↦
            let alike = same_key→≡ l key k ∙ sym (same_key→≡ m key e) in
            absurd (true≢false (sym (same_key_refl m) ∙ ap (λ j. same_key j m) (sym alike) ∙ q))
        | inr e ↦ e
      ]
