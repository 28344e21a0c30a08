-- ===== src/Provider/Bulk/Status.antt =====
-- The status of a batch.
use Prim.Native.String.{String}
use payflow_backend.Common.{
  ℕ, ◌+◌, ◌<◌, ◌≡◌, refl, sym, ◌↔◌, inl, inr, true, false, Option, List, [], ◌∷◌, ltb, ◌==◌, length,
  All, arith, Bool-cases, true≢false,
}
use payflow_backend.Common.Errors.{Error}
use payflow_backend.Provider.Bulk.{
  Texts, aggregate_bulk_results, count_success, count_failed, bulk_status,
}
use payflow_backend.Transfers.Types.{TransferResult}

-- Every result is a success.
abbrev pub AllSucceeded : List TransferResult → Type 0
AllSucceeded xs = All (λ x. x.success ≡ true) xs

none_failed : (xs : List TransferResult) → (count_failed xs ≡ 0) ↔ AllSucceeded xs
none_failed [] = (λ h. tt, λ h. refl)
none_failed (x ∷ xs) = elim (Bool-cases x.success) [
  | inl q ↦ rw q (λ h. (refl, (none_failed xs).0 h), λ h. (none_failed xs).1 h.1)
  | inr q ↦ rw q (λ h. absurd (omega arith), λ h. absurd (true≢false (sym h.0)))
]

counted : (xs : List TransferResult) → count_success xs + count_failed xs ≡ length xs
counted [] = omega arith
counted (x ∷ xs) = elim (Bool-cases x.success) [
  | inl q ↦ rw q (omega (arith, counted xs))
  | inr q ↦ rw q (omega (arith, counted xs))
]

-- What the status of a batch says of its results.
pub data IsStatus (xs : List TransferResult) : String → Type 0 where
  is_complete : AllSucceeded xs → IsStatus xs "complete"
  is_failed : count_success xs ≡ 0 → 0 < length xs → IsStatus xs "failed"
  is_partial : 0 < count_success xs → count_success xs < length xs → IsStatus xs "partial"

module _ (texts : Texts) where
  zero_test : (n : ℕ) → ((n == 0) ≡ true) ↔ (n ≡ 0)
  zero_test n = (λ h. ground arith, λ h. ground arith)

  some_if : (n : ℕ) → ltb 0 n ≡ true → 0 < n
  some_if n h = ground arith

  none_if : (n : ℕ) → ltb 0 n ≡ false → n ≡ 0
  none_if n h = ground arith

  nonzero_if : (n : ℕ) → (n == 0) ≡ false → 0 < n
  nonzero_if n h = ground arith

  bulk_status-IsStatus :
      (xs : List TransferResult)
      → IsStatus xs (bulk_status texts (count_success xs) (count_failed xs))
  bulk_status-IsStatus xs = elim (Bool-cases (ltb 0 (count_failed xs))) [
    | inl q ↦
        let some_failed = some_if (count_failed xs) q in
        let all = counted xs in
        rw q (elim (Bool-cases (count_success xs == 0)) [
          | inl k ↦ rw k (IsStatus.is_failed ((zero_test (count_success xs)).0 k) (omega arith))
          | inr k ↦ rw k (IsStatus.is_partial (nonzero_if (count_success xs) k) (omega arith))
        ])
    | inr q ↦ rw q (IsStatus.is_complete ((none_failed xs).0 (none_if (count_failed xs) q)))
  ]

  -- A batch result is a success exactly when every single result that it has is one, and its status is
  -- "complete" when every result in it is a success, also when there are none, "failed" when there are
  -- results and none is, and "partial" when some are and some are not. A transfer without a result, as
  -- one of a chunk that failed, does not count.
  pub aggregate_bulk_results-IsStatus :
      (batch_reference provider : String) (xs : List TransferResult) (e : Option Error)
      → (let r = aggregate_bulk_results texts batch_reference provider xs e in
          ((r.success ≡ true) ↔ AllSucceeded xs) × IsStatus xs r.status)
  unfolding aggregate_bulk_results
  aggregate_bulk_results-IsStatus batch_reference provider xs e = (
    (
      λ h. (none_failed xs).0 ((zero_test (count_failed xs)).0 h),
      λ h. (zero_test (count_failed xs)).1 ((none_failed xs).1 h),
    ),
    bulk_status-IsStatus xs,
  )
