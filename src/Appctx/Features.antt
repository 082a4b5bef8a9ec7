-- ===== src/Appctx/Features.antt =====
-- internal/lambda/appctx/appctxutil.go: the runtime release that a request announces, by its headers.
-- A text is the list of its bytes.
use lambda_runtime_init.Base.{
  ℕ, zero, suc, ◌+◌, Bool, true, false, not, ◌&&◌, ◌||◌, Option, none, some, List, [], ◌∷◌, ◌++◌,
  if◌then◌else◌, leb, ltb, ◌==◌, length,
}
use lambda_runtime_init.Appctx.{
  ApplicationContext, Loaded, absent, mistyped, found, runtime_release_key, text, get_or_default,
  store,
}

abbrev pub max_runtime_release_length : ℕ
max_runtime_release_length = 128

abbrev is_ascii_space : ℕ → Bool
is_ascii_space c = (leb 9 c && leb c 13) || c == 32

abbrev is_wide_tail : ℕ → ℕ → ℕ → Bool
is_wide_tail a b c =
    (a == 225 && b == 154 && c == 128)
    || (a == 226 && b == 128 && ((leb 128 c && leb c 138) || c == 168 || c == 169 || c == 175))
    || (a == 226 && b == 129 && c == 159)
    || (a == 227 && b == 128 && c == 128)

abbrev space3 : List ℕ → Bool
space3 (a ∷ b ∷ c ∷ rest) = is_wide_tail a b c
space3 _ = false

abbrev space2 : List ℕ → Bool
space2 (a ∷ b ∷ rest) = a == 194 && (b == 133 || b == 160)
space2 _ = false

-- The bytes after the first that belong to the white space at the front; `none` when the first
-- byte is not that of a white space.
abbrev space_tail : List ℕ → Option ℕ
space_tail [] = none
space_tail (c ∷ rest) =
    if is_ascii_space c
    then some 0
    else if space2 (c ∷ rest)
    then some 1
    else if space3 (c ∷ rest)
    then some 2
    else none

abbrev push_field : List ℕ → List (List ℕ) → List (List ℕ)
push_field [] fs = fs
push_field (c ∷ cs) fs = (c ∷ cs) ∷ fs

-- `strings.Fields`: `current` is the field under way, `skip` counts the bytes of a white space
-- that are still to come.
unfoldable pub fields_from : List ℕ → ℕ → List ℕ → List (List ℕ)
fields_from current skip [] = push_field current []
fields_from current (suc skip) (c ∷ rest) = fields_from current skip rest
fields_from current zero (c ∷ rest) =
    let white = fields_from [] 0 rest in
    let white2 = fields_from [] 1 rest in
    let white3 = fields_from [] 2 rest in
    let black = fields_from (current ++ c ∷ []) 0 rest in
    elim (space_tail (c ∷ rest)) [
      | none ↦ black
      | some zero ↦ push_field current white
      | some (suc zero) ↦ push_field current white2
      | some (suc (suc n)) ↦ push_field current white3
    ]

unfoldable pub fields : List ℕ → List (List ℕ)
unfolding fields_from
fields s = fields_from [] 0 s

-- `strings.ReplaceAll(s, c, "")`, of a single byte.
unfoldable pub remove_all : ℕ → List ℕ → List ℕ
remove_all c [] = []
remove_all c (x ∷ xs) = let rest = remove_all c xs in if x == c then rest else x ∷ rest

-- `strings.Join(…, " ")`.
unfoldable pub join : List (List ℕ) → List ℕ
join [] = []
join (f ∷ []) = f
join (f ∷ g ∷ more) = f ++ 32 ∷ join (g ∷ more)

-- The first token of the user agent.
unfoldable pub get_user_agent_from_request : List ℕ → List ℕ
unfolding fields
get_user_agent_from_request user_agent = elim (fields user_agent) [ [] ↦ [] | f ∷ more ↦ f ]

-- The loop over the features: `taken` is 128 less `availableLength`, an int, and `n` is
-- `numberOfAppendedFeatures`.
unfoldable pub select_features : ℕ → ℕ → List (List ℕ) → List (List ℕ)
select_features taken n [] = []
select_features taken n (feature ∷ more) =
    let chosen = select_features (taken + length feature) (n + 1) more in
    let passed = select_features taken n more in
    if leb (length feature + n + taken) max_runtime_release_length then feature ∷ chosen else passed

abbrev pub unknown : List ℕ
unknown = 85 ∷ 110 ∷ 107 ∷ 110 ∷ 111 ∷ 119 ∷ 110 ∷ []

abbrev pub or_unknown : List ℕ → List ℕ
or_unknown [] = unknown
or_unknown (c ∷ cs) = c ∷ cs

abbrev pub with_features : List ℕ → List (List ℕ) → List ℕ
with_features release [] = release
with_features release (f ∷ fs) = or_unknown release ++ (32 ∷ 40 ∷ (join (f ∷ fs) ++ (41 ∷ [])))

unfoldable pub create_runtime_release_from_request : List ℕ → List ℕ → List ℕ
unfolding remove_all fields select_features join
create_runtime_release_from_request features_header runtime_release =
    with_features runtime_release (
      select_features (length (or_unknown runtime_release) + 3) 0
        (fields (remove_all 41 (remove_all 40 features_header))))

unfoldable pub get_runtime_release : ApplicationContext → Loaded (List ℕ)
unfolding get_or_default
get_runtime_release a = elim (get_or_default runtime_release_key (text []) a) [
  | text t ↦ found t
  | _ ↦ mistyped
]

-- Whether the last byte is a closing bracket.
unfoldable pub ends_with_bracket : List ℕ → Bool
ends_with_bracket [] = false
ends_with_bracket (c ∷ []) = c == 41
ends_with_bracket (c ∷ d ∷ rest) = ends_with_bracket (d ∷ rest)

abbrev is_empty : List ℕ → Bool
is_empty [] = true
is_empty (_ ∷ _) = false

abbrev update_with : List ℕ → List ℕ → List ℕ → ApplicationContext → ApplicationContext × Bool
update_with user_agent features_header [] a =
    let release =
      create_runtime_release_from_request features_header
        (get_user_agent_from_request user_agent) in
    if is_empty release then (a, false) else (store runtime_release_key (text release) a, true)
update_with user_agent features_header (c ∷ cs) a =
    let release = create_runtime_release_from_request features_header (c ∷ cs) in
    if ltb (length (c ∷ cs)) (length release) && not (ends_with_bracket (c ∷ cs))
    then (store runtime_release_key (text release) a, true)
    else (a, false)

-- A value of another type under the key panics: `none`.
unfoldable pub update_app_ctx_with_runtime_release :
    List ℕ → List ℕ → ApplicationContext → Option (ApplicationContext × Bool)
unfolding get_runtime_release create_runtime_release_from_request get_user_agent_from_request
    ends_with_bracket store
update_app_ctx_with_runtime_release user_agent features_header a = elim (get_runtime_release a) [
  | found release ↦ some (update_with user_agent features_header release a)
  | absent ↦ none
  | mistyped ↦ none
]
