-- ===== src/Tests/Appctx.antt =====
-- Concrete inputs for internal/lambda/appctx.
use lambda_runtime_init.Base.{ℕ, ◌≤◌, ◌≡◌, refl, ◌⊎◌, true, some, List, [], ◌∷◌, length}
use lambda_runtime_init.Appctx.{ApplicationContext, runtime_release_key, text, found}
use lambda_runtime_init.Appctx.Features.{
  create_runtime_release_from_request, max_runtime_release_length, get_runtime_release,
  ends_with_bracket,
}
use lambda_runtime_init.Appctx.Release.{create_runtime_release-bound, update_all-frozen, update_all}

-- "a", and the features "b c".
create_runtime_release-bound_example :
    let release = create_runtime_release_from_request (98 ∷ 32 ∷ 99 ∷ []) (97 ∷ []) in
    (release ≡ 97 ∷ []) ⊎ (length release ≤ max_runtime_release_length)
create_runtime_release-bound_example = create_runtime_release-bound (98 ∷ 32 ∷ 99 ∷ []) (97 ∷ [])

-- "a (b c)"
appended :
    create_runtime_release_from_request (98 ∷ 32 ∷ 99 ∷ []) (97 ∷ [])
    ≡ 97 ∷ 32 ∷ 40 ∷ 98 ∷ 32 ∷ 99 ∷ 41 ∷ []
unfolding create_runtime_release_from_request
appended = refl

abbrev announced : List ℕ
announced = 97 ∷ 32 ∷ 40 ∷ 98 ∷ 41 ∷ []

abbrev with_release : ApplicationContext
with_release = (runtime_release_key, text announced) ∷ []

holds_release : get_runtime_release with_release ≡ found announced
unfolding get_runtime_release
holds_release = refl

ends_so : ends_with_bracket announced ≡ true
unfolding ends_with_bracket
ends_so = refl

update_all-frozen_example :
    update_all ((120 ∷ [], 121 ∷ []) ∷ ([], []) ∷ []) with_release ≡ some with_release
update_all-frozen_example =
    update_all-frozen ((120 ∷ [], 121 ∷ []) ∷ ([], []) ∷ []) announced with_release holds_release
      ends_so
