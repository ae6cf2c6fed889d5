-- ===== src/Vm/Codes.antt =====
-- The references and the exit codes of internal/provider/chinacloud/vm_runtime.go.
use Prim.Native.String.{◌++◌ as str_append}
use text.Mathlib.TextLemmas.{nil-append, cons-append, append_assoc}
use orchestrator_cli.Common.{
  String, true, ◌≡◌, refl, sym, ◌∙◌, ap, eq_refl, ◌↔◌, Option, none, some, arith,
}
use orchestrator_cli.Common.Int.{pos}
use orchestrator_cli.App.Errors.{
  Error, ProviderErrorKind, as_provider_error, retryable, provider_error_kind_of,
  is_retryable_provider_error, kind_or_unknown, found_retryable,
}
use orchestrator_cli.Vm.Runtime.{
  vm_provider_ref, vm_id_from_provider_ref, strip_prefix, exit_code_for_provider_error,
  exit_code_of_kind, normalize_runtime_error,
}

strip_prefix-append : (p s : String) → strip_prefix p (str_append p s) ≡ some s
unfolding strip_prefix
strip_prefix-append String.[] s = rw (nil-append s) refl
strip_prefix-append (String.◌∷◌ c p) s =
    rw (cons-append c p s, strip_prefix)
      (rw (eq_refl (String.◌∷◌ c String.[])) (strip_prefix-append p s))

-- The machine's id is read back from the reference that is made of it, for every provider's name.
pub vm_id-of_ref : (name id : String) → vm_id_from_provider_ref name (vm_provider_ref name id) ≡ id
unfolding vm_id_from_provider_ref vm_provider_ref
vm_id-of_ref name id =
    rw
      (ap (strip_prefix (str_append name ":")) (sym (append_assoc name ":" id))
        ∙ strip_prefix-append (str_append name ":") id)
      refl

kind-code : (k : ProviderErrorKind) → (exit_code_of_kind k ≡ pos 40) ↔ (retryable k ≡ true)
unfolding retryable
kind-code ProviderErrorKind.auth = ground arith
kind-code ProviderErrorKind.capacity = ground arith
kind-code ProviderErrorKind.quota = ground arith
kind-code ProviderErrorKind.invalid_spec = ground arith
kind-code ProviderErrorKind.network = ground arith
kind-code ProviderErrorKind.internal = ground arith
kind-code ProviderErrorKind.runtime = ground arith
kind-code ProviderErrorKind.unknown = ground arith

found-code :
    (k : Option ProviderErrorKind)
    → (exit_code_of_kind (kind_or_unknown k) ≡ pos 40) ↔ (found_retryable k ≡ true)
found-code none = ground arith
found-code (some k) = kind-code k

-- The exit code of an error of the cloud is 40 exactly when a run may go on with another provider
-- after it; an error without a kind is first made a network error.
pub exit_code-retryable :
    (e : Error)
    → let x = normalize_runtime_error e in
      (exit_code_for_provider_error x ≡ pos 40) ↔ (is_retryable_provider_error x ≡ true)
unfolding exit_code_for_provider_error is_retryable_provider_error provider_error_kind_of
exit_code-retryable e = found-code (as_provider_error (normalize_runtime_error e))
