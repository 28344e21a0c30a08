-- ===== src/Provider/Manager/Payments.antt =====
-- The fallback chain: money moves once, a refused provider is left alone, an available one is reached.
use Prim.Native.String.{String}
use payflow_backend.Common.{
  ℕ, ◌≡◌, refl, ◌∙◌, ap, Bool, true, false, List, [], ◌∷◌, All, if◌then◌else◌,
}
use payflow_backend.Common.Errors.{Error, Result, ok, err}
use payflow_backend.Provider.Breaker.{CircuitBreaker, Breakers, get}
use payflow_backend.Provider.Manager.{
  TransferProvider, TransferProviderManager, Live, default_and_fallback_providers, or_next,
  answered, permitted, attempt_transfer, try_transfer, initiate_transfer_op,
}
use payflow_backend.Transfers.Types.{SingleTransferRequest, TransferResult}

-- `paid` lists the requests that were paid in a world, the last one first.
module _ {World : Type 0} (paid : World → List SingleTransferRequest)
    (req : SingleTransferRequest) where
  -- A successful result stands for one payment of the request. A result without success, which the
  -- adapters return with a nil error for a transfer that was refused, and an error stand for none.
  abbrev pub Pays : Result TransferResult × World → World → Type 0
  Pays (ok x, w') w = paid w' ≡ (if x.success then req ∷ paid w else paid w)
  Pays (err e, w') w = paid w' ≡ paid w

  -- The same, of the manager's answer.
  abbrev pub PaysOnce : Result TransferResult × Live World → Live World → Type 0
  PaysOnce (ok x, s') s = paid s'.world ≡ (if x.success then req ∷ paid s.world else paid s.world)
  PaysOnce (err e, s') s = paid s'.world ≡ paid s.world

module _ {World : Type 0} (paid : World → List SingleTransferRequest) where
  abbrev pub IsHonest : TransferProvider World → Type 0
  IsHonest p =
      (req : SingleTransferRequest) (w : World) → Pays paid req (p.initiate_transfer req w) w

  module _ (now : World → ℕ) where
    answered-PaysOnce :
        (req : SingleTransferRequest) (name : String) (cb : CircuitBreaker) (bs : Breakers)
        (s : Live World) (r : Result TransferResult × World)
        → Pays paid req r s.world
        → PaysOnce paid req (answered now name cb bs r) s
    unfolding answered
    answered-PaysOnce req name cb bs s (ok x, w) h = h
    answered-PaysOnce req name cb bs s (err e, w) h = h

    permitted-PaysOnce :
        (p : TransferProvider World) (req : SingleTransferRequest) (bs : Breakers) (s : Live World)
        (d : Bool × CircuitBreaker)
        → IsHonest p
        → PaysOnce paid req (permitted now p req bs s.world d) s
    unfolding permitted
    permitted-PaysOnce p req bs s (true, cb) h =
        answered-PaysOnce req p.name cb bs s (p.initiate_transfer req s.world) (h req s.world)
    permitted-PaysOnce p req bs s (false, cb) h = refl

    attempt-PaysOnce :
        (p : TransferProvider World) (req : SingleTransferRequest) (s : Live World)
        → IsHonest p
        → PaysOnce paid req (attempt_transfer now p req s) s
    unfolding attempt_transfer get
    attempt-PaysOnce p req s h = permitted-PaysOnce p req _ s _ h

  -- No payment so far, then at most one.
  after_none :
      (req : SingleTransferRequest) (r : Result TransferResult × Live World) (s s' : Live World)
      → paid s'.world ≡ paid s.world
      → PaysOnce paid req r s'
      → PaysOnce paid req r s
  after_none req (ok x, s'') s s' h k = k ∙ ap (λ ps. if x.success then req ∷ ps else ps) h
  after_none req (err e, s'') s s' h k = k ∙ h

  or_next-PaysOnce :
      (req : SingleTransferRequest) (r : Result TransferResult × Live World)
      (next : Error → Live World → Result TransferResult × Live World) (s : Live World)
      → PaysOnce paid req r s
      → ((e : Error) (s' : Live World) → PaysOnce paid req (next e s') s')
      → PaysOnce paid req (or_next r next) s
  or_next-PaysOnce req (ok x, s') next s h k = h
  or_next-PaysOnce req (err e, s') next s h k = after_none req (next e s') s s' h (k e s')

  module _ (now : World → ℕ) where
    try_transfer-PaysOnce :
        (ps : List (TransferProvider World)) (req : SingleTransferRequest) (e : Error)
        (s : Live World)
        → All IsHonest ps
        → PaysOnce paid req (try_transfer now ps req e s) s
    unfolding try_transfer
    try_transfer-PaysOnce [] req e s h = refl
    try_transfer-PaysOnce (p ∷ ps) req e s h =
        or_next-PaysOnce req (attempt_transfer now p req s) (λ e'. try_transfer now ps req e') s
          (attempt-PaysOnce now p req s h.0) (λ e' s'. try_transfer-PaysOnce ps req e' s' h.1)

    -- When each configured provider pays the request exactly once with a successful result, and pays
    -- nothing with an error or with a result without success: then so does `InitiateTransfer`, of its
    -- own answer, whatever the breakers hold and however many providers fail before.
    pub initiate_transfer-PaysOnce :
        (m : TransferProviderManager World) (req : SingleTransferRequest) (s : Live World)
        → All IsHonest (default_and_fallback_providers m)
        → PaysOnce paid req (initiate_transfer_op now m req s) s
    unfolding initiate_transfer_op
    initiate_transfer-PaysOnce m req s h =
        try_transfer-PaysOnce (default_and_fallback_providers m) req Error.other s h
