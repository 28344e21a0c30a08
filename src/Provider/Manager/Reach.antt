-- ===== src/Provider/Manager/Reach.antt =====
-- Which providers the fallback chain calls: refused ones are left alone, an available one is reached.
use Prim.Native.String.{String}
use payflow_backend.Common.{
  ℕ, ◌-◌, ◌≡◌, refl, sym, ap, subst, ◌∙◌, inl, inr, Bool, true, false, List, [], ◌∷◌, ◌++◌,
  if◌then◌else◌, ltb, All, Bool-cases, true≢false,
}
use payflow_backend.Common.Errors.{Error, Result, ok, err}
use payflow_backend.Common.Texts.{same_text, same_text_iff}
use payflow_backend.Provider.Breaker.{
  CircuitState, CircuitBreaker, Breakers, default_circuit_breaker_config, allow_in, allow, get,
  store, or_new,
}
use payflow_backend.Provider.Breaker.Laws.{is_closed}
use payflow_backend.Provider.Manager.{
  TransferProvider, TransferProviderManager, Live, default_and_fallback_providers, or_next,
  answered, permitted, attempt_transfer, try_transfer, initiate_transfer_op,
}
use payflow_backend.Transfers.Types.{SingleTransferRequest, TransferResult}

same_text_refl : (s : String) → same_text s s ≡ true
same_text_refl s = (same_text_iff s s).1 refl

half_open_refuses :
    (b : Bool) (cb : CircuitBreaker)
    → b ≡ true
    → (if◌then◌else◌ {A = Bool × CircuitBreaker} b
        (true, record cb { state = CircuitState.circuit_half_open })
        (false, cb)).0
      ≡ false
    → true ≡ false
half_open_refuses true cb q h = h
half_open_refuses false cb q h = sym q

refusal_keeps :
    (st : CircuitState) (t : ℕ) (cb : CircuitBreaker)
    → (allow_in default_circuit_breaker_config st t cb).0 ≡ false
    → ◌≡◌ {A = Bool × CircuitBreaker} (allow_in default_circuit_breaker_config st t cb) (false, cb)
unfolding allow_in
refusal_keeps CircuitState.circuit_closed t cb h = absurd (true≢false h)
refusal_keeps CircuitState.circuit_half_open t cb h = absurd (true≢false h)
refusal_keeps CircuitState.circuit_open t cb h =
    elim (Bool-cases (ltb (default_circuit_breaker_config.reset_timeout) (t - cb.last_failure))) [
      | inl q ↦ absurd (
          true≢false (
            half_open_refuses
              (ltb default_circuit_breaker_config.reset_timeout (t - cb.last_failure)) cb q h))
      | inr q ↦ rw q refl
    ]

-- The two registries answer alike.
abbrev pub SameBreakers : Breakers → Breakers → Type 0
SameBreakers bs' bs = (name : String) → or_new (bs' name) ≡ or_new (bs name)

store-SameBreakers :
    (name : String) (cb : CircuitBreaker) (bs : Breakers)
    → cb ≡ or_new (bs name)
    → SameBreakers (store name cb bs) bs
store-SameBreakers name cb bs h n = elim (Bool-cases (same_text n name)) [
  | inl q ↦ rw q (h ∙ ap (λ m. or_new (bs m)) (sym ((same_text_iff n name).0 q)))
  | inr q ↦ rw q refl
]

module _ {World : Type 0} (now : World → ℕ) where
  -- The breaker of the provider refuses at this moment.
  abbrev pub Refuses : Breakers → World → TransferProvider World → Type 0
  Refuses bs w p = (allow default_circuit_breaker_config (now w) (or_new (bs p.name))).0 ≡ false

  -- An error, the world as it was, and the same breakers.
  abbrev pub IsUntouched : Result TransferResult × Live World → Live World → Type 0
  IsUntouched r s =
      ((e : Error) × (r.0 ≡ err e)) × (r.1.world ≡ s.world) × SameBreakers r.1.breakers s.breakers

  refused_call :
      (p : TransferProvider World) (req : SingleTransferRequest) (bs : Breakers) (w : World)
      (d : Bool × CircuitBreaker) (cb : CircuitBreaker)
      → ◌≡◌ {A = Bool × CircuitBreaker} d (false, cb)
      → ◌≡◌ {A = Result TransferResult × Live World}
          (permitted now p req bs w d)
          (err Error.other, record { breakers = store p.name cb bs; world = w })
  unfolding permitted
  refused_call p req bs w d cb h = rw h refl

  refused_attempt :
      (p : TransferProvider World) (req : SingleTransferRequest) (s : Live World)
      → Refuses s.breakers s.world p
      → (let cb = or_new (s.breakers p.name) in
          ◌≡◌ {A = Result TransferResult × Live World} (attempt_transfer now p req s) (
            err Error.other,
            record { breakers = store p.name cb (store p.name cb s.breakers); world = s.world },
          ))
  unfolding attempt_transfer get allow
  refused_attempt p req s h =
      let cb = or_new (s.breakers p.name) in
      refused_call p req _ s.world _ cb (refusal_keeps cb.state (now s.world) cb h)

  stored_twice :
      (name : String) (bs : Breakers)
      → (let cb = or_new (bs name) in SameBreakers (store name cb (store name cb bs)) bs)
  stored_twice name bs n =
      let cb = or_new (bs name) in
      store-SameBreakers name cb (store name cb bs) (sym (store-SameBreakers name cb bs refl name))
        n
      ∙ store-SameBreakers name cb bs refl n

  still_refusing :
      (ps : List (TransferProvider World)) (bs bs' : Breakers) (w : World)
      → SameBreakers bs' bs
      → All (Refuses bs w) ps
      → All (Refuses bs' w) ps
  still_refusing [] bs bs' w same h = tt
  still_refusing (p ∷ ps) bs bs' w same h = (
    ap (λ cb. (allow default_circuit_breaker_config (now w) cb).0) (same p.name) ∙ h.0,
    still_refusing ps bs bs' w same h.1,
  )

  try_refused :
      (ps : List (TransferProvider World)) (req : SingleTransferRequest) (e : Error)
      (s : Live World)
      → All (Refuses s.breakers s.world) ps
      → IsUntouched (try_transfer now ps req e s) s
  unfolding try_transfer
  try_refused [] req e s h = ((e, refl), refl, λ n. refl)
  try_refused (p ∷ ps) req e s h =
      let cb = or_new (s.breakers p.name) in
      let s' : Live World = record {
        breakers = store p.name cb (store p.name cb s.breakers);
        world = s.world;
      } in
      let same = stored_twice p.name s.breakers in
      let (failed, w, alike) =
        try_refused ps req Error.other s'
          (still_refusing ps s.breakers s'.breakers s.world same h.1) in
      rw (refused_attempt p req s h.0) (failed, w, λ n. alike n ∙ same n)

  -- When the breaker of every configured provider refuses, `InitiateTransfer` fails and calls no
  -- provider: the world is as it was, and every breaker is in the state in which it was.
  pub initiate_transfer-refused :
      (m : TransferProviderManager World) (req : SingleTransferRequest) (s : Live World)
      → All (Refuses s.breakers s.world) (default_and_fallback_providers m)
      → IsUntouched (initiate_transfer_op now m req s) s
  unfolding initiate_transfer_op
  initiate_transfer-refused m req s h =
      try_refused (default_and_fallback_providers m) req Error.other s h

  abbrev pub IsOk : Result TransferResult → Type 0
  IsOk (ok x) = Unit
  IsOk (err e) = ⊥

  -- Other providers' breakers stay as they are.
  answered_elsewhere :
      (name other : String) (cb : CircuitBreaker) (bs : Breakers)
      (r : Result TransferResult × World)
      → same_text other name ≡ false
      → (answered now name cb bs r).1.breakers other ≡ bs other
  unfolding answered
  answered_elsewhere name other cb bs (ok x, w) h = rw h refl
  answered_elsewhere name other cb bs (err e, w) h = rw h refl

  permitted_elsewhere :
      (p : TransferProvider World) (req : SingleTransferRequest) (other : String) (bs : Breakers)
      (w : World) (d : Bool × CircuitBreaker)
      → same_text other p.name ≡ false
      → (permitted now p req bs w d).1.breakers other ≡ bs other
  unfolding permitted
  permitted_elsewhere p req other bs w (true, cb) h =
      answered_elsewhere p.name other cb bs (p.initiate_transfer req w) h
  permitted_elsewhere p req other bs w (false, cb) h = rw h refl

  attempt_elsewhere :
      (p : TransferProvider World) (req : SingleTransferRequest) (other : String) (s : Live World)
      → same_text other p.name ≡ false
      → (attempt_transfer now p req s).1.breakers other ≡ s.breakers other
  unfolding attempt_transfer get
  attempt_elsewhere p req other s h = permitted_elsewhere p req other _ s.world _ h ∙ rw h refl

  asked_closed :
      (st : CircuitState) (t : ℕ) (cb : CircuitBreaker)
      → is_closed st ≡ true
      → ◌≡◌ {A = Bool × CircuitBreaker} (allow_in default_circuit_breaker_config st t cb) (true, cb)
  unfolding allow_in
  asked_closed CircuitState.circuit_closed t cb h = refl
  asked_closed CircuitState.circuit_open t cb h = absurd (true≢false (sym h))
  asked_closed CircuitState.circuit_half_open t cb h = absurd (true≢false (sym h))

  answered-IsOk :
      (name : String) (cb : CircuitBreaker) (bs : Breakers) (r : Result TransferResult × World)
      → IsOk r.0
      → IsOk (answered now name cb bs r).0
  unfolding answered
  answered-IsOk name cb bs (ok x, w) h = tt
  answered-IsOk name cb bs (err e, w) h = absurd h

  attempt-IsOk :
      (p : TransferProvider World) (req : SingleTransferRequest) (s : Live World)
      → is_closed (or_new (s.breakers p.name)).state ≡ true
      → IsOk (p.initiate_transfer req s.world).0
      → IsOk (attempt_transfer now p req s).0
  unfolding attempt_transfer get allow permitted
  attempt-IsOk p req s c h =
      let cb = or_new (s.breakers p.name) in
      rw (asked_closed cb.state (now s.world) cb c)
        (answered-IsOk p.name cb _ (p.initiate_transfer req s.world) h)

  first-IsOk :
      (r : Result TransferResult × Live World)
      (next : Error → Live World → Result TransferResult × Live World)
      → IsOk r.0
      → IsOk (or_next r next).0
  first-IsOk (ok x, s) next h = tt
  first-IsOk (err e, s) next h = absurd h

  later-IsOk :
      (r : Result TransferResult × Live World)
      (next : Error → Live World → Result TransferResult × Live World)
      → ((e : Error) → IsOk (next e r.1).0)
      → IsOk (or_next r next).0
  later-IsOk (ok x, s) next h = tt
  later-IsOk (err e, s) next h = h e

  module _ (p : TransferProvider World) (req : SingleTransferRequest)
      (works : (w : World) → IsOk (p.initiate_transfer req w).0) where
    try_available :
        (before after : List (TransferProvider World)) (e : Error) (s : Live World)
        → All (λ q. same_text p.name q.name ≡ false) before
        → is_closed (or_new (s.breakers p.name)).state ≡ true
        → IsOk (try_transfer now (before ++ p ∷ after) req e s).0
    unfolding try_transfer
    try_available [] after e s h c =
        first-IsOk (attempt_transfer now p req s) _ (attempt-IsOk p req s c (works s.world))
    try_available (q ∷ before) after e s h c = later-IsOk (attempt_transfer now q req s) _ (λ e'.
        try_available before after e' _ h.1
          (ap (λ o. is_closed (or_new o).state) (attempt_elsewhere q req p.name s h.0) ∙ c))

    -- When a configured provider's circuit is closed, its name is not that of one tried before, and
    -- its calls for this request return results, `InitiateTransfer` returns a result, however the
    -- providers before it fail.
    pub initiate_transfer_available :
        (m : TransferProviderManager World) (before after : List (TransferProvider World))
        (s : Live World)
        → default_and_fallback_providers m ≡ before ++ p ∷ after
        → All (λ q. same_text p.name q.name ≡ false) before
        → is_closed (or_new (s.breakers p.name)).state ≡ true
        → IsOk (initiate_transfer_op now m req s).0
    unfolding initiate_transfer_op
    initiate_transfer_available m before after s q h c =
        subst (λ ps. IsOk (try_transfer now ps req Error.other s).0) (sym q)
          (try_available before after Error.other s h c)
