-- ===== src/Core/Credentials/Laws.antt =====
-- What a token gets, after its credentials were set or updated.
use lambda_runtime_init.Base.{
  ◌≡◌, ◌≢◌, refl, ◌⊎◌, inl, inr, none, some, List, [], ◌∷◌, String, str_eq, if◌then◌else◌, length,
  arith,
}
use lambda_runtime_init.Base.Dict.{lookup-insert}
use lambda_runtime_init.Core.Credentials.{
  Credentials, CredentialsService, credentials_not_found, sets_of_credentials, set_credentials,
  get_credentials, update_credentials,
}

-- Credentials that were set are what their token gets, and no other token gets anything else than
-- before.
pub get-set :
    (token asked : String) (c : Credentials) (s : CredentialsService)
    → get_credentials asked (set_credentials token c s)
      ≡ (if str_eq token asked then (some c, none) else get_credentials asked s)
unfolding get_credentials set_credentials
get-set token asked c s = ground (arith, lookup-insert token asked c s.credentials)

-- What becomes of an update: see `update-get`.
abbrev pub Updated : Credentials → CredentialsService → Type 0
Updated c s =
    ((token : String) × (old : Credentials) × (s.credentials ≡ (token, old) ∷ [])
      × ((update_credentials c s).1 ≡ none)
      × ((asked : String)
          → get_credentials asked (update_credentials c s).0
            ≡ (if str_eq token asked then (some c, none) else (none, some credentials_not_found))))
    ⊎ ((length s.credentials ≢ 1)
        × (update_credentials c s ≡ (s, some (sets_of_credentials (length s.credentials)))))

update-get-of :
    (l : List (String × Credentials)) (c : Credentials) → Updated c (record { credentials = l })
unfolding update_credentials get_credentials
update-get-of [] c = inr ((λ h. omega (arith, h)), refl)
update-get-of ((token, old) ∷ []) c = inl (
  token,
  old,
  refl,
  refl,
  λ asked. ground (arith, get-set token asked c (record { credentials = (token, old) ∷ [] })),
)
update-get-of (x ∷ y ∷ l) c = inr ((λ h. omega (arith, h)), refl)

-- An update where there is exactly one set of credentials succeeds: its token then gets the new
-- ones, and no other token gets any. Where there is any other number of sets it is refused with
-- that number, and nothing changes.
pub update-get : (c : Credentials) (s : CredentialsService) → Updated c s
update-get c s = update-get-of s.credentials c
