-- ===== src/Appctx/Laws.antt =====
-- The application context as a map, and the fatal error that it keeps.
use lambda_runtime_init.Base.{
  ℕ, ◌≡◌, refl, true, false, none, some, List, [], ◌∷◌, if◌then◌else◌, ◌==◌, ==_iff, arith,
  Bool-cases, inl, inr,
}
use lambda_runtime_init.Appctx.{
  Key, Value, fatal_error, ApplicationContext, same_key, key_code, load, store, delete,
  store_first_fatal_error, load_first_fatal_error, found, absent, first_fatal_error_key,
}

module _ {X : Type 0} where
  replaced :
      (k key asked : ℕ) (v value rest : X)
      → (k == key) ≡ true
      → (if k == asked then value else rest)
        ≡ (if key == asked then value else (if k == asked then v else rest))
  replaced k key asked v value rest h =
      ground (arith, ==_iff k key, ==_iff k asked, ==_iff key asked)

  passed :
      (k key asked : ℕ) (v value rest rest' : X)
      → (k == key) ≡ false
      → rest' ≡ (if key == asked then value else rest)
      → (if k == asked then v else rest')
        ≡ (if key == asked then value else (if k == asked then v else rest))
  passed k key asked v value rest rest' h e =
      ground (arith, ==_iff k key, ==_iff k asked, ==_iff key asked)

  removed :
      (k key asked : ℕ) (v value rest rest' : X)
      → (k == key) ≡ true
      → rest' ≡ (if key == asked then value else rest)
      → rest' ≡ (if key == asked then value else (if k == asked then v else rest))
  removed k key asked v value rest rest' h e =
      ground (arith, ==_iff k key, ==_iff k asked, ==_iff key asked)

-- What is loaded after a store.
pub load-store :
    (asked key : Key) (value : Value) (a : ApplicationContext)
    → load asked (store key value a) ≡ (if same_key key asked then some value else load asked a)
unfolding load store
load-store asked key value [] = refl
load-store asked key value ((k, v) ∷ rest) = elim (Bool-cases (same_key k key)) [
  | inl h ↦
      rw (store, h, load)
        (replaced (key_code k) (key_code key) (key_code asked) (some v) (some value)
          (load asked rest) h)
  | inr h ↦
      rw (store, h, load)
        (passed (key_code k) (key_code key) (key_code asked) (some v) (some value) (load asked rest)
          (load asked (store key value rest)) h (load-store asked key value rest))
]

-- What is loaded after a deletion.
pub load-delete :
    (asked key : Key) (a : ApplicationContext)
    → load asked (delete key a) ≡ (if same_key key asked then none else load asked a)
unfolding load delete
load-delete asked key [] = elim (Bool-cases (same_key key asked)) [
  | inl h ↦ rw h refl
  | inr h ↦ rw h refl
]
load-delete asked key ((k, v) ∷ rest) = elim (Bool-cases (same_key k key)) [
  | inl h ↦
      rw (delete, h, load)
        (removed (key_code k) (key_code key) (key_code asked) (some v) none (load asked rest)
          (load asked (delete key rest)) h (load-delete asked key rest))
  | inr h ↦
      rw (delete, h, load)
        (passed (key_code k) (key_code key) (key_code asked) (some v) none (load asked rest)
          (load asked (delete key rest)) h (load-delete asked key rest))
]

-- Errors that are reported one after the other.
abbrev pub store_all : List (List ℕ) → ApplicationContext → ApplicationContext
store_all [] a = a
store_all (e ∷ es) a = store_all es (store_first_fatal_error e a)

pub store_first-kept :
    (e x : List ℕ) (a : ApplicationContext)
    → load first_fatal_error_key a ≡ some (fatal_error x)
    → store_first_fatal_error e a ≡ a
unfolding store_first_fatal_error
store_first-kept e x a h = rw (h, store_first_fatal_error) refl

pub store_all-kept :
    (es : List (List ℕ)) (x : List ℕ) (a : ApplicationContext)
    → load first_fatal_error_key a ≡ some (fatal_error x)
    → store_all es a ≡ a
store_all-kept [] x a h = refl
store_all-kept (e ∷ es) x a h = rw (store_first-kept e x a h) (store_all-kept es x a h)

pub store_first-stored :
    (e : List ℕ) (a : ApplicationContext)
    → load first_fatal_error_key a ≡ none
    → load first_fatal_error_key (store_first_fatal_error e a) ≡ some (fatal_error e)
unfolding store_first_fatal_error
store_first-stored e a h =
    rw (h, store_first_fatal_error)
      (load-store first_fatal_error_key first_fatal_error_key (fatal_error e) a)

pub loaded-of :
    (x : List ℕ) (a : ApplicationContext)
    → load first_fatal_error_key a ≡ some (fatal_error x)
    → load_first_fatal_error a ≡ found x
unfolding load_first_fatal_error
loaded-of x a h = rw (h, load_first_fatal_error) refl

pub absent-of :
    (a : ApplicationContext)
    → load first_fatal_error_key a ≡ none
    → load_first_fatal_error a ≡ absent
unfolding load_first_fatal_error
absent-of a h = rw (h, load_first_fatal_error) refl

-- Of all fatal errors that are reported the first is the one that is kept, if none was there before.
pub first_fatal_error-wins :
    (e : List ℕ) (es : List (List ℕ)) (a : ApplicationContext)
    → load first_fatal_error_key a ≡ none
    → load_first_fatal_error (store_all (e ∷ es) a) ≡ found e
first_fatal_error-wins e es a h =
    let stored = store_first-stored e a h in
    rw (store_all-kept es e (store_first_fatal_error e a) stored)
      (loaded-of e (store_first_fatal_error e a) stored)
