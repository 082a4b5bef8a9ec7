-- ===== src/Appctx/Release.antt =====
-- How long a runtime release grows, and that its features are appended once.
use lambda_runtime_init.Base.{
  ℕ, ◌+◌, ◌≤◌, ◌≡◌, refl, ◌⊎◌, inl, inr, true, false, Option, none, some, List, [], ◌∷◌, ◌++◌, leb,
  length, length-append, arith, Bool-cases, subst, ◌∙◌,
}
use lambda_runtime_init.Appctx.{ApplicationContext, found}
use lambda_runtime_init.Appctx.Features.{
  select_features, join, fields, remove_all, or_unknown, with_features,
  create_runtime_release_from_request, get_runtime_release, ends_with_bracket,
  update_app_ctx_with_runtime_release, max_runtime_release_length,
}

abbrev Bounded : ℕ → List (List ℕ) → Type 0
Bounded n [] = Unit {0}
Bounded n (f ∷ fs) = length (join (f ∷ fs)) + n ≤ max_runtime_release_length

join-Bounded :
    (f : List ℕ) (gs : List (List ℕ)) (taken n : ℕ)
    → length f + n + taken ≤ max_runtime_release_length
    → Bounded (n + 1 + (taken + length f)) gs
    → Bounded (n + taken) (f ∷ gs)
unfolding join
join-Bounded f [] taken n h b = omega arith
join-Bounded f (g ∷ gs) taken n h b = omega (arith, length-append f (32 ∷ join (g ∷ gs)))

select_features-Bounded :
    (fs : List (List ℕ)) (taken n : ℕ) → Bounded (n + taken) (select_features taken n fs)
unfolding select_features
select_features-Bounded [] taken n = tt
select_features-Bounded (f ∷ fs) taken n =
    elim (Bool-cases (leb (length f + n + taken) max_runtime_release_length)) [
      | inl fits ↦ rw fits (
          join-Bounded f (select_features (taken + length f) (n + 1) fs) taken n (ground arith)
            (select_features-Bounded fs (taken + length f) (n + 1)))
      | inr long ↦ rw long (select_features-Bounded fs taken n)
    ]

with_features-Bounded :
    (r : List ℕ) (gs : List (List ℕ))
    → Bounded (length (or_unknown r) + 3) gs
    → (with_features r gs ≡ r) ⊎ (length (with_features r gs) ≤ max_runtime_release_length)
unfolding join
with_features-Bounded r [] b = inl refl
with_features-Bounded r (g ∷ gs) b =
    let around = length-append (or_unknown r) (32 ∷ 40 ∷ (join (g ∷ gs) ++ (41 ∷ []))) in
    let inside = length-append (join (g ∷ gs)) (41 ∷ []) in inr (rw around (omega (arith, inside)))

-- Whatever features a request announces, its runtime release has 128 bytes at most, or it is the one
-- that was given, however long.
pub create_runtime_release-bound :
    (features_header r : List ℕ)
    → let release = create_runtime_release_from_request features_header r in
      (release ≡ r) ⊎ (length release ≤ max_runtime_release_length)
unfolding create_runtime_release_from_request
create_runtime_release-bound header r =
    let fs = fields (remove_all 41 (remove_all 40 header)) in
    with_features-Bounded r (select_features (length (or_unknown r) + 3) 0 fs) (
      subst (λ n. Bounded n (select_features (length (or_unknown r) + 3) 0 fs)) (omega arith)
        (select_features-Bounded fs (length (or_unknown r) + 3) 0))

ends-append :
    (xs : List ℕ) (y : ℕ) (ys : List ℕ)
    → ends_with_bracket (xs ++ y ∷ ys) ≡ ends_with_bracket (y ∷ ys)
unfolding ends_with_bracket
ends-append [] y ys = refl
ends-append (x ∷ []) y ys = refl
ends-append (x ∷ x' ∷ xs) y ys = ends-append (x' ∷ xs) y ys

with_features-ends :
    (r g : List ℕ) (gs : List (List ℕ)) → ends_with_bracket (with_features r (g ∷ gs)) ≡ true
unfolding ends_with_bracket
with_features-ends r g gs =
    ends-append (or_unknown r) 32 (40 ∷ (join (g ∷ gs) ++ (41 ∷ [])))
    ∙ ends-append (32 ∷ 40 ∷ join (g ∷ gs)) 41 []

-- The requests that come in, by their user agents and features.
abbrev pub update_all : List (List ℕ × List ℕ) → ApplicationContext → Option ApplicationContext
update_all [] a = some a
update_all ((user_agent, features_header) ∷ more) a =
    elim (update_app_ctx_with_runtime_release user_agent features_header a) [
      | none ↦ none
      | some r ↦ update_all more r.0
    ]

frozen-lem :
    (user_agent header r : List ℕ) (a : ApplicationContext)
    → get_runtime_release a ≡ found r
    → ends_with_bracket r ≡ true
    → update_app_ctx_with_runtime_release user_agent header a ≡ some (a, false)
unfolding update_app_ctx_with_runtime_release
frozen-lem user_agent header [] a h e = cc
frozen-lem user_agent header (c ∷ cs) a h e =
    rw (h, update_app_ctx_with_runtime_release) (ground arith)

-- Features are appended once: a runtime release that ends with a closing bracket is not changed by any
-- later requests, and none of them fails.
pub update_all-frozen :
    (requests : List (List ℕ × List ℕ)) (r : List ℕ) (a : ApplicationContext)
    → get_runtime_release a ≡ found r
    → ends_with_bracket r ≡ true
    → update_all requests a ≡ some a
update_all-frozen [] r a h e = refl
update_all-frozen ((ua, header) ∷ more) r a h e =
    rw (frozen-lem ua header r a h e, update_all) (update_all-frozen more r a h e)
