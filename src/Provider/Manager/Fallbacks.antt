-- ===== src/Provider/Manager/Fallbacks.antt =====
-- The configured order of the fallback providers.
use Prim.Native.String.{String}
use payflow_backend.Common.{
  ◌≡◌, refl, ap, ◌∙◌, inl, inr, false, Option, none, some, List, [], ◌∷◌, All, Bool-cases, if-holds,
}
use payflow_backend.Common.Texts.{same_text}
use payflow_backend.Provider.Manager.{
  TransferProvider, with_found, fallbacks_named, parse_fallback_providers,
}

module _ {World : Type 0} (split : String → List String) (trim : String → String) where
  -- A fallback provider is registered, and it is not the default one.
  abbrev pub IsFallback :
      String → (String → Option (TransferProvider World)) → TransferProvider World → Type 0
  IsFallback default_name providers p =
      (providers p.name ≡ some p) × (same_text p.name default_name ≡ false)

  module _ (default_name : String) (providers : String → Option (TransferProvider World))
      (keyed : (name : String) (p : TransferProvider World)
        → providers name ≡ some p
        → p.name ≡ name) where
    with_found-IsFallback :
        (name : String) (o : Option (TransferProvider World)) (ps : List (TransferProvider World))
        → providers name ≡ o
        → same_text name default_name ≡ false
        → All (IsFallback default_name providers) ps
        → All (IsFallback default_name providers) (with_found split trim o ps)
    with_found-IsFallback name none ps q d h = h
    with_found-IsFallback name (some p) ps q d h =
        let same = keyed name p q in
        ((ap providers same ∙ q, ap (λ n. same_text n default_name) same ∙ d), h)

    named-IsFallback :
        (names : List String)
        → All
            (IsFallback default_name providers)
            (fallbacks_named split trim default_name providers names)
    unfolding fallbacks_named
    named-IsFallback [] = tt
    named-IsFallback (name ∷ names) = elim (Bool-cases (same_text (trim name) default_name)) [
      | inl h ↦ rw h (named-IsFallback names)
      | inr h ↦ rw h (
          with_found-IsFallback (trim name) (providers (trim name)) _ refl h
            (named-IsFallback names))
    ]

    -- Whatever the configured order says, when providers are registered under their own names, each
    -- fallback provider is a registered one and none is the default provider, so that one attempt at
    -- a transfer never asks the default provider twice.
    pub parse_fallback_providers-IsFallback :
        (fallback_order : String)
        → All
            (IsFallback default_name providers)
            (parse_fallback_providers split trim fallback_order default_name providers)
    unfolding parse_fallback_providers
    parse_fallback_providers-IsFallback fallback_order =
        if-holds (All (IsFallback default_name providers)) (same_text fallback_order "") [] _ tt
          (named-IsFallback (split (trim fallback_order)))
