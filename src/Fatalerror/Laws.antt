-- ===== src/Fatalerror/Laws.antt =====
-- That the error types that are passed on are valid ones.
use lambda_runtime_init.Base.{ℕ, ◌≡◌, refl, inl, inr, true, List, Bool-cases}
use lambda_runtime_init.Fatalerror.{
  matches, has_prefix, function_prefix, function_unknown, runtime_unknown,
  get_valid_runtime_or_function_error_type,
}

matches-function_unknown : matches function_unknown ≡ true
unfolding matches function_unknown
matches-function_unknown = refl

matches-runtime_unknown : matches runtime_unknown ≡ true
unfolding matches runtime_unknown
matches-runtime_unknown = refl

pub get-matches : (t : List ℕ) → matches (get_valid_runtime_or_function_error_type t) ≡ true
unfolding get_valid_runtime_or_function_error_type
get-matches t = elim (Bool-cases (matches t)) [
  | inl h ↦ rw (get_valid_runtime_or_function_error_type, h) h
  | inr h ↦ elim (Bool-cases (has_prefix t function_prefix)) [
    | inl p ↦ rw (get_valid_runtime_or_function_error_type, h, p) matches-function_unknown
    | inr p ↦ rw (get_valid_runtime_or_function_error_type, h, p) matches-runtime_unknown
  ]
]

-- Whatever error type is reported, the one that is passed on contains a name after `Runtime.` or
-- `Function.`; and a type that passed once passes again unchanged.
pub get_valid-idempotent :
    (t : List ℕ)
    → let valid = get_valid_runtime_or_function_error_type t in
      (matches valid ≡ true) × (get_valid_runtime_or_function_error_type valid ≡ valid)
unfolding get_valid_runtime_or_function_error_type
get_valid-idempotent t =
    (get-matches t, rw (get_valid_runtime_or_function_error_type, get-matches t) refl)
