-- ===== src/Provider/Manager.antt =====
-- internal/service/provider/manager.go and transfer_provider.go: the order in which providers are
-- tried. A provider is a parameter: a function of the world outside, which it changes. `now` reads
-- the clock of that world. The breakers have the default configuration, as the constructor sets it.
pub mod Payments
pub mod Reach
pub mod Fallbacks
use Prim.Native.String.{String}
use payflow_backend.Common.{
  ℕ, Bool, true, false, Option, none, some, List, [], ◌∷◌, ◌++◌, if◌then◌else◌,
}
use payflow_backend.Common.Errors.{Error, Result, ok, err}
use payflow_backend.Common.Texts.{same_text}
use payflow_backend.Provider.Breaker.{
  CircuitBreaker, Breakers, default_circuit_breaker_config, allow, record_success, record_failure,
  get, store,
}
use payflow_backend.Transfers.Types.{
  SingleTransferRequest, TransferResult, BulkTransferRequest, BulkTransferResult,
}

-- The optional interface of providers that take a batch in one call.
pub record BulkTransferrer (World : Type 0) : Type 0 where
  pub initiate_bulk_transfer : BulkTransferRequest → World → Result BulkTransferResult × World
  pub max_batch_size : ℕ
  pub min_batch_size : ℕ

pub record TransferProvider (World : Type 0) : Type 0 where
  pub name : String
  pub initiate_transfer : SingleTransferRequest → World → Result TransferResult × World
  pub bulk : Option (BulkTransferrer World)

pub record TransferProviderManager (World : Type 0) : Type 0 where
  pub default_provider : TransferProvider World
  pub fallback_providers : List (TransferProvider World)
  pub all_providers : String → Option (TransferProvider World)

-- What the calls change: the registry of breakers and the world.
pub record Live (World : Type 0) : Type 0 where
  pub breakers : Breakers
  pub world : World

-- `strings.Split` at commas and `strings.TrimSpace` are parameters.
module _ {World : Type 0} (split : String → List String) (trim : String → String) where
  abbrev pub with_found :
      Option (TransferProvider World)
      → List (TransferProvider World)
      → List (TransferProvider World)
  with_found none ps = ps
  with_found (some p) ps = p ∷ ps

  -- The loop over the names.
  unfoldable pub fallbacks_named :
      String
      → (String → Option (TransferProvider World))
      → List String
      → List (TransferProvider World)
  fallbacks_named default_name providers [] = []
  fallbacks_named default_name providers (name ∷ names) =
      let rest = fallbacks_named default_name providers names in
      if same_text (trim name) default_name then rest else with_found (providers (trim name)) rest

  -- `parseFallbackProviders`
  unfoldable pub parse_fallback_providers :
      (fallback_order default_name : String)
      → (String → Option (TransferProvider World))
      → List (TransferProvider World)
  unfolding fallbacks_named
  parse_fallback_providers fallback_order default_name providers =
      if same_text fallback_order ""
      then []
      else fallbacks_named default_name providers (split (trim fallback_order))

  -- `NewTransferProviderManager`; its breakers start with an empty registry.
  unfoldable pub new_transfer_provider_manager :
      (default_name fallback_order : String)
      → (String → Option (TransferProvider World))
      → Result (TransferProviderManager World)
  unfolding parse_fallback_providers
  new_transfer_provider_manager default_name fallback_order providers =
      with_default (providers default_name)
    where
      with_default : Option (TransferProvider World) → Result (TransferProviderManager World)
      with_default none = err Error.other
      with_default (some p) = ok (record {
        default_provider = p;
        fallback_providers = parse_fallback_providers fallback_order default_name providers;
        all_providers = providers;
      })

module _ {World : Type 0} where
  -- `GetProvider`
  abbrev pub get_provider : TransferProviderManager World → String → Option (TransferProvider World)
  get_provider m name = m.all_providers name

  -- `getDefaultAndFallbackProviders`
  abbrev pub default_and_fallback_providers :
      TransferProviderManager World → List (TransferProvider World)
  default_and_fallback_providers m = m.default_provider ∷ m.fallback_providers

  -- The loop goes on with the next provider after an error.
  abbrev pub or_next :
      Result TransferResult × Live World
      → (Error → Live World → Result TransferResult × Live World)
      → Result TransferResult × Live World
  or_next (ok x, s) next = (ok x, s)
  or_next (err e, s) next = next e s

module _ {World : Type 0} (now : World → ℕ) where
  -- The answer of the provider is counted by its breaker.
  unfoldable pub answered :
      String
      → CircuitBreaker
      → Breakers
      → Result TransferResult × World
      → Result TransferResult × Live World
  unfolding record_failure record_success
  answered name cb bs (err e, w) = (
    err e,
    record {
      breakers = store name (record_failure default_circuit_breaker_config (now w) cb) bs;
      world = w;
    },
  )
  answered name cb bs (ok x, w) = (
    ok x,
    record {
      breakers = store name (record_success default_circuit_breaker_config cb) bs;
      world = w;
    },
  )

  unfoldable pub permitted :
      TransferProvider World
      → SingleTransferRequest
      → Breakers
      → World
      → Bool × CircuitBreaker
      → Result TransferResult × Live World
  unfolding answered
  permitted p req bs w (true, cb) = answered p.name cb bs (p.initiate_transfer req w)
  permitted p req bs w (false, cb) =
      (err Error.other, record { breakers = store p.name cb bs; world = w })

  -- `attemptTransfer`
  unfoldable pub attempt_transfer :
      TransferProvider World
      → SingleTransferRequest
      → Live World
      → Result TransferResult × Live World
  unfolding permitted get allow
  attempt_transfer p req s =
      let (cb, bs) = get p.name s.breakers in
      permitted p req bs s.world (allow default_circuit_breaker_config (now s.world) cb)

  -- `tryTransfer`: `last` is the error of the attempt before.
  unfoldable pub try_transfer :
      List (TransferProvider World)
      → SingleTransferRequest
      → (last : Error) → Live World
      → Result TransferResult × Live World
  unfolding attempt_transfer
  try_transfer [] req last s = (err last, s)
  try_transfer (p ∷ ps) req last s = or_next (attempt_transfer p req s) (λ e. try_transfer ps req e)

  -- `InitiateTransfer`
  unfoldable pub initiate_transfer_op :
      TransferProviderManager World
      → SingleTransferRequest
      → Live World
      → Result TransferResult × Live World
  unfolding try_transfer
  initiate_transfer_op m req s = try_transfer (default_and_fallback_providers m) req Error.other s
