-- ===== src/App/Errors.antt =====
-- The error values of internal/app/types.go. A Go `error` is a chain: `fmt.Errorf` with `%w` and a
-- ProviderError with an inner error wrap the next link, which `errors.As` walks.
use orchestrator_cli.Common.{
  String, Bool, true, false, Option, none, some, ◌==◌, if◌then◌else◌, ◌≡◌, refl, ◌⊎◌, inl, inr,
}

pub data ProviderErrorKind : Type 0 where
  auth capacity quota invalid_spec network internal runtime unknown : ProviderErrorKind

-- `provider` is a *ProviderError with a nil inner error, `provider_of` one with an inner error.
pub data Error : Type 0 where
  plain : String → Error
  wrapped : String → Error → Error
  provider : ProviderErrorKind → String → Error
  provider_of : ProviderErrorKind → String → Error → Error

abbrev pub kind_text : ProviderErrorKind → String
kind_text ProviderErrorKind.auth = "auth_error"
kind_text ProviderErrorKind.capacity = "capacity_error"
kind_text ProviderErrorKind.quota = "quota_error"
kind_text ProviderErrorKind.invalid_spec = "invalid_spec_error"
kind_text ProviderErrorKind.network = "network_error"
kind_text ProviderErrorKind.internal = "provider_internal_error"
kind_text ProviderErrorKind.runtime = "runtime_error"
kind_text ProviderErrorKind.unknown = "unknown_provider_error"

-- err.Error()
unfoldable pub error_text : Error → String
error_text (plain m) = m
error_text (wrapped m e) = m
error_text (provider k m) = if m == "" then kind_text k else m
error_text (provider_of k m e) = let inner = error_text e in if m == "" then inner else m

-- the kind of the ProviderError that `errors.As` finds
unfoldable pub as_provider_error : Error → Option ProviderErrorKind
as_provider_error (plain m) = none
as_provider_error (wrapped m e) = as_provider_error e
as_provider_error (provider k m) = some k
as_provider_error (provider_of k m e) = some k

unfoldable pub retryable : ProviderErrorKind → Bool
retryable ProviderErrorKind.capacity = true
retryable ProviderErrorKind.quota = true
retryable ProviderErrorKind.network = true
retryable ProviderErrorKind.internal = true
retryable _ = false

abbrev pub kind_or_unknown : Option ProviderErrorKind → ProviderErrorKind
kind_or_unknown none = ProviderErrorKind.unknown
kind_or_unknown (some k) = k

unfoldable pub provider_error_kind_of : Error → ProviderErrorKind
unfolding as_provider_error
provider_error_kind_of e = kind_or_unknown (as_provider_error e)

abbrev pub found_retryable : Option ProviderErrorKind → Bool
found_retryable none = false
found_retryable (some k) = retryable k

unfoldable pub is_retryable_provider_error : Error → Bool
unfolding as_provider_error retryable
is_retryable_provider_error e = found_retryable (as_provider_error e)

-- `(value, error)`
pub data Result {ℓ} (A : Type ℓ) : Type ℓ where
  ok : A → Result A
  err : Error → Result A

pub Result-cases {ℓ} :
    {A : Type ℓ} (r : Result A) → ((a : A) × (r ≡ ok a)) ⊎ ((e : Error) × (r ≡ err e))
Result-cases (ok a) = inl (a, refl)
Result-cases (err e) = inr (e, refl)
