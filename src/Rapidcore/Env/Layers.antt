-- ===== src/Rapidcore/Env/Layers.antt =====
-- internal/lambda/rapidcore/env/environment.go: look-ups in what `mapUnion` and `mapExclude` build.
use text.Mathlib.TextEquality.{eq_iff}
use lambda_runtime_init.Base.{
  ◌≡◌, refl, ◌∙◌, Bool, false, Option, none, some, List, [], ◌∷◌, String, str_eq, arith,
  if◌then◌else◌, Bool-cases, Option-cases, inl, inr, subst,
}
use lambda_runtime_init.Base.Dict.{lookup, insert, lookup-insert}
use lambda_runtime_init.Rapidcore.Env.{
  Vars, has_key, lookup_env, add_all, add_maps, map_union, map_exclude,
}

-- A map has each key once.
abbrev pub Distinct : Vars → Type 0
Distinct [] = Unit {0}
Distinct ((key, val) ∷ m) = (lookup key m ≡ none) × Distinct m

abbrev pub AllDistinct : List Vars → Type 0
AllDistinct [] = Unit {0}
AllDistinct (m ∷ maps) = Distinct m × AllDistinct maps

-- A value of the first layer that has one.
abbrev pub over : Option String → Option String → Option String
over (some v) below = some v
over none below = below

-- What maps give for a key where later maps are over earlier ones, and all of them over `below`.
abbrev pub layered : String → List Vars → Option String → Option String
layered key [] below = below
layered key (m ∷ maps) below = layered key maps (over (lookup key m) below)

pub insert-Distinct : (key val : String) (m : Vars) → Distinct m → Distinct (insert key val m)
unfolding insert lookup
insert-Distinct key val [] d = (refl, tt)
insert-Distinct key val ((found, old) ∷ m) (fresh, d) = elim (Bool-cases (str_eq found key)) [
  | inl same ↦
      rw (insert, same) (subst (λ k. lookup k m ≡ none) ((eq_iff found key).0 same) fresh, d)
  | inr other ↦
      let apart : str_eq key found ≡ false =
        ground (arith, eq_iff key found, eq_iff found key, other) in
      rw (insert, other)
        (lookup-insert key found val m ∙ ground (arith, apart, fresh), insert-Distinct key val m d)
]

pub lookup_env-Distinct :
    (os : String → Option String) (keys : List String) → Distinct (lookup_env os keys)
unfolding lookup_env
lookup_env-Distinct os [] = tt
lookup_env-Distinct os (key ∷ keys) =
    let ih = lookup_env-Distinct os keys in
    elim (Option-cases (os key)) [
      | inl unset ↦ rw (lookup_env, unset) ih
      | inr (val, set) ↦ rw (lookup_env, set) (insert-Distinct key val (lookup_env os keys) ih)
    ]

-- What is looked up in the environment is among the keys.
pub lookup-lookup_env :
    (os : String → Option String) (keys : List String) (key : String)
    → has_key keys key ≡ false
    → lookup key (lookup_env os keys) ≡ none
unfolding lookup_env has_key lookup
lookup-lookup_env os [] key h = refl
lookup-lookup_env os (k ∷ keys) key h =
    let ih = lookup-lookup_env os keys key in
    elim (Option-cases (os k)) [
      | inl unset ↦ rw (lookup_env, unset) (ground (arith, ih))
      | inr (val, set) ↦
          rw (lookup_env, set) (ground (arith, ih, lookup-insert k key val (lookup_env os keys)))
    ]

lookup-add_all :
    (key : String) (m union : Vars)
    → Distinct m
    → lookup key (add_all m union) ≡ over (lookup key m) (lookup key union)
unfolding add_all lookup
lookup-add_all key [] union d = refl
lookup-add_all key ((k, v) ∷ m) union (fresh, d) =
    lookup-add_all key m (insert k v union) d
    ∙ ground (arith, lookup-insert k key v union, eq_iff k key, fresh)

pub add_all-Distinct : (m union : Vars) → Distinct union → Distinct (add_all m union)
unfolding add_all
add_all-Distinct [] union d = d
add_all-Distinct ((k, v) ∷ m) union d =
    add_all-Distinct m (insert k v union) (insert-Distinct k v union d)

lookup-add_maps :
    (key : String) (maps : List Vars) (union : Vars)
    → AllDistinct maps
    → lookup key (add_maps maps union) ≡ layered key maps (lookup key union)
unfolding add_maps
lookup-add_maps key [] union d = refl
lookup-add_maps key (m ∷ maps) union (d, ds) =
    rw (← lookup-add_all key m union d) (lookup-add_maps key maps (add_all m union) ds)

pub add_maps-Distinct :
    (maps : List Vars) (union : Vars) → Distinct union → Distinct (add_maps maps union)
unfolding add_maps
add_maps-Distinct [] union d = d
add_maps-Distinct (m ∷ maps) union d =
    add_maps-Distinct maps (add_all m union) (add_all-Distinct m union d)

pub map_union-Distinct : (maps : List Vars) → Distinct (map_union maps)
unfolding map_union
map_union-Distinct maps = add_maps-Distinct maps [] tt

-- A union gives for a key what the last map that has it gives.
pub lookup-map_union :
    (key : String) (maps : List Vars)
    → AllDistinct maps
    → lookup key (map_union maps) ≡ layered key maps none
unfolding map_union lookup
lookup-map_union key maps d = lookup-add_maps key maps [] d

pub lookup-map_exclude :
    (exclude : String → Bool) (key : String) (m : Vars)
    → lookup key (map_exclude exclude m) ≡ (if exclude key then none else lookup key m)
unfolding map_exclude lookup
lookup-map_exclude exclude key [] = ground arith
lookup-map_exclude exclude key ((k, v) ∷ m) = elim (Bool-cases (str_eq k key)) [
  | inl same ↦
      rw ((eq_iff k key).0 same) (ground (arith, lookup-map_exclude exclude key m, eq_iff key key))
  | inr other ↦ ground (arith, lookup-map_exclude exclude key m, other)
]
