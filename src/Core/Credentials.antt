-- ===== src/Core/Credentials.antt =====
-- internal/lambda/core/credentials.go: the credentials of the sandbox, by token. The
-- field `currentState`, which no method changes, is left out.
pub mod Laws
use lambda_runtime_init.Base.{
  ℕ, zero, suc, ◌≡◌, refl, ◌⊎◌, inl, inr, Bool, true, false, Option, none, some, List, [], ◌∷◌,
  String, str_eq, if◌then◌else◌, length, arith,
}
use lambda_runtime_init.Base.Int.{ℤ}
use lambda_runtime_init.Base.Dict.{lookup, insert}

pub record Credentials : Type 0 where
  pub aws_key : String
  pub aws_secret : String
  pub aws_session : String
  pub expiration : ℤ

pub record CredentialsService : Type 0 where
  pub credentials : List (String × Credentials)

pub data CredentialsError : Type 0 where
  credentials_not_found : CredentialsError
  sets_of_credentials : ℕ → CredentialsError

unfoldable pub new_credentials_service : CredentialsService
new_credentials_service = record { credentials = [] }

unfoldable pub set_credentials : String → Credentials → CredentialsService → CredentialsService
unfolding insert
set_credentials token c s = record { credentials = insert token c s.credentials }

-- What `GetCredentials` returns: the credentials, or the error.
unfoldable pub get_credentials :
    String → CredentialsService → Option Credentials × Option CredentialsError
unfolding lookup
get_credentials token s = elim (lookup token s.credentials) [
  | some c ↦ (some c, none)
  | none ↦ (none, some credentials_not_found)
]

-- The only token, if there is one.
abbrev pub only_token : List (String × Credentials) → Option String
only_token ((token, c) ∷ []) = some token
only_token _ = none

unfoldable pub update_credentials :
    Credentials → CredentialsService → CredentialsService × Option CredentialsError
unfolding set_credentials
update_credentials c s = elim (only_token s.credentials) [
  | some token ↦ (set_credentials token c s, none)
  | none ↦ (s, some (sets_of_credentials (length s.credentials)))
]
