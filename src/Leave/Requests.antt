-- ===== src/Leave/Requests.antt =====
-- What an update of one leave request changes.
use payflow_backend.Common.{
  ℕ, ◌+◌, ◌≡◌, sym, ap, subst, ◌∙◌, inl, inr, true, false, some, List, [], ◌∷◌, ◌++◌, if◌then◌else◌,
  ◌==◌, All, arith, Bool-cases,
}
use payflow_backend.Common.Int.{pos_part}
use payflow_backend.Common.Texts.{same_text}
use payflow_backend.Leave.Store.{
  LeaveRequest, BalanceKey, same_key, or_next, request_with_id, replace_request,
}
use payflow_backend.Leave.Service.{key_of}
use payflow_backend.Leave.Keys.{==→≡, some-inj}

module _ (year_of : ℕ → ℕ) (key : BalanceKey) where
  -- The days of an approved request of this kind.
  abbrev pub approved_in : LeaveRequest → ℕ
  approved_in r =
      if same_text r.status "approved"
      then (if same_key (key_of year_of r) key then pos_part r.days else 0)
      else 0

  abbrev pub approved_days : List LeaveRequest → ℕ
  approved_days [] = 0
  approved_days (r ∷ rs) = approved_in r + approved_days rs

  pub approved_days-append :
      (rs ss : List LeaveRequest) → approved_days (rs ++ ss) ≡ approved_days rs + approved_days ss
  approved_days-append [] ss = omega arith
  approved_days-append (r ∷ rs) ss = omega (arith, approved_days-append rs ss)

  -- One request takes the place of another.
  pub approved_days-replace :
      (id : ℕ) (r r' : LeaveRequest) (rs : List LeaveRequest)
      → request_with_id id rs ≡ some r
      → r'.id ≡ id
      → approved_days (replace_request r' rs) + approved_in r ≡ approved_days rs + approved_in r'
  unfolding request_with_id replace_request
  approved_days-replace id r r' [] h k = absurd (cc)
  approved_days-replace id r r' (s ∷ ss) h k = elim (Bool-cases (s.id == id)) [
    | inl q ↦
        let here : (s.id == r'.id) ≡ true = ap (λ i. s.id == i) k ∙ q in
        let same : s ≡ r = some-inj (sym (ap (λ c. or_next c s (request_with_id id ss)) q) ∙ h) in
        rw here (omega (arith, ap approved_in same))
    | inr q ↦
        let elsewhere : (s.id == r'.id) ≡ false = ap (λ i. s.id == i) k ∙ q in
        let found = sym (ap (λ c. or_next c s (request_with_id id ss)) q) ∙ h in
        rw elsewhere (omega (arith, approved_days-replace id r r' ss found k))
  ]

pub request_with_id-id :
    (id : ℕ) (r : LeaveRequest) (rs : List LeaveRequest)
    → request_with_id id rs ≡ some r
    → r.id ≡ id
unfolding request_with_id
request_with_id-id id r [] h = absurd (cc)
request_with_id-id id r (s ∷ ss) h = elim (Bool-cases (s.id == id)) [
  | inl q ↦
      let same : s ≡ r = some-inj (sym (ap (λ c. or_next c s (request_with_id id ss)) q) ∙ h) in
      sym (ap (λ t. t.id) same) ∙ ==→≡ s.id id q
  | inr q ↦ request_with_id-id id r ss (sym (ap (λ c. or_next c s (request_with_id id ss)) q) ∙ h)
]

module _ (P : LeaveRequest → Type 0) where
  pub All-request :
      (id : ℕ) (r : LeaveRequest) (rs : List LeaveRequest)
      → All P rs
      → request_with_id id rs ≡ some r
      → P r
  unfolding request_with_id
  All-request id r [] h k = absurd (cc)
  All-request id r (s ∷ ss) h k = elim (Bool-cases (s.id == id)) [
    | inl q ↦ subst P (some-inj (sym (ap (λ c. or_next c s (request_with_id id ss)) q) ∙ k)) h.0
    | inr q ↦ All-request id r ss h.1 (sym (ap (λ c. or_next c s (request_with_id id ss)) q) ∙ k)
  ]

  pub All-replace_request :
      (r : LeaveRequest) (rs : List LeaveRequest) → All P rs → P r → All P (replace_request r rs)
  unfolding replace_request
  All-replace_request r [] h p = tt
  All-replace_request r (s ∷ ss) h p = elim (Bool-cases (s.id == r.id)) [
    | inl q ↦ rw q (p, h.1)
    | inr q ↦ rw q (h.0, All-replace_request r ss h.1 p)
  ]
