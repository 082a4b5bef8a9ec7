-- ===== src/Rapid/Names.antt =====
-- internal/lambda/rapid/handlers.go, `GetExtensionNames`: the names of the extensions in at most 127
-- bytes. A name is the list of its bytes.
use mathlib.Core.List.{append-nil}
use lambda_runtime_init.Base.{
  ℕ, zero, suc, ◌-◌, ◌≤◌, ◌≡◌, refl, ap, ◌∙◌, false, Option, none, some, List, [], ◌∷◌, ◌++◌, arith,
  if◌then◌else◌, ltb, leb, ◌==◌, length, take, length-append, Option-cases, Bool-cases, inl, inr,
}

abbrev pub max_extension_names_length : ℕ
max_extension_names_length = 127

abbrev pub semicolon : ℕ
semicolon = 59

-- `strings.Join(names, ";")`.
unfoldable pub join : List (List ℕ) → List ℕ
join [] = []
join (name ∷ []) = name
join (name ∷ next ∷ more) = name ++ semicolon ∷ join (next ∷ more)

-- `strings.LastIndex(s, ";")`; `none` is -1.
unfoldable pub last_index : List ℕ → Option ℕ
last_index [] = none
last_index (c ∷ s) = elim (last_index s) [
  | some i ↦ some (suc i)
  | none ↦ if c == semicolon then some 0 else none
]

-- A text before the last separator in its first `n` bytes.
unfoldable pub cut : ℕ → List ℕ → Option (List ℕ)
unfolding last_index
cut n s = elim (last_index (take n s)) [ none ↦ none | some i ↦ some (take i s) ]

unfoldable pub get_extension_names : List (List ℕ) → List ℕ
unfolding join cut
get_extension_names names =
    let s = join names in
    if ltb max_extension_names_length (length s)
    then elim (cut max_extension_names_length s) [ none ↦ [] | some t ↦ t ]
    else s

-- As many whole names from the front as fit in `n` bytes, each with its separator.
abbrev pub fitting : ℕ → List (List ℕ) → List (List ℕ)
fitting n [] = []
fitting n (name ∷ more) =
    let rest = fitting (n - length name - 1) more in if ltb (length name) n then name ∷ rest else []

abbrev pub NoSemicolon : List ℕ → Type 0
NoSemicolon [] = Unit {0}
NoSemicolon (c ∷ s) = ((c == semicolon) ≡ false) × NoSemicolon s

abbrev pub AllPlain : List (List ℕ) → Type 0
AllPlain [] = Unit {0}
AllPlain (name ∷ more) = NoSemicolon name × AllPlain more

abbrev cons_some : ℕ → Option (List ℕ) → Option (List ℕ)
cons_some c none = none
cons_some c (some t) = some (c ∷ t)

cut-zero : (s : List ℕ) → cut 0 s ≡ none
unfolding cut
cut-zero s = refl

cut-cons :
    (n c : ℕ) (s : List ℕ) → (c == semicolon) ≡ false → cut (suc n) (c ∷ s) ≡ cons_some c (cut n s)
unfolding cut
cut-cons n c s h = elim (Option-cases (last_index (take n s))) [
  | inl e ↦ rw (cut, last_index, e, h) refl
  | inr (i, e) ↦ rw (cut, last_index, e) refl
]

-- What is kept from a separator on.
abbrev from_semicolon : Option (List ℕ) → List ℕ
from_semicolon none = []
from_semicolon (some t) = semicolon ∷ t

cut-semicolon : (n : ℕ) (s : List ℕ) → cut (suc n) (semicolon ∷ s) ≡ some (from_semicolon (cut n s))
unfolding cut
cut-semicolon n s = elim (Option-cases (last_index (take n s))) [
  | inl e ↦ rw (cut, last_index, e) refl
  | inr (i, e) ↦ rw (cut, last_index, e) refl
]

cut-plain : (n : ℕ) (s : List ℕ) → NoSemicolon s → cut n s ≡ none
cut-plain zero s p = cut-zero s
cut-plain (suc n) [] p = unfold cut last_index in refl
cut-plain (suc n) (c ∷ s) (h, p) = cut-cons n c s h ∙ ap (cons_some c) (cut-plain n s p)

cut-append :
    (n : ℕ) (name s : List ℕ)
    → NoSemicolon name
    → cut n (name ++ semicolon ∷ s) ≡ (
        if ltb (length name) n
        then some (name ++ from_semicolon (cut (n - length name - 1) s))
        else none)
cut-append zero [] s p = cut-zero (semicolon ∷ s) ∙ ground arith
cut-append (suc n) [] s p = cut-semicolon n s ∙ ground arith
cut-append zero (c ∷ name) s p = cut-zero (c ∷ name ++ semicolon ∷ s) ∙ ground arith
cut-append (suc n) (c ∷ name) s (h, p) =
    cut-cons n c (name ++ semicolon ∷ s) h ∙ ap (cons_some c) (cut-append n name s p) ∙ ground arith

abbrev joined : List (List ℕ) → Option (List ℕ)
joined [] = none
joined (name ∷ more) = some (join (name ∷ more))

joined-cons :
    (name : List ℕ) (more : List (List ℕ))
    → some (name ++ from_semicolon (joined more)) ≡ joined (name ∷ more)
unfolding join
joined-cons name [] = ap some (append-nil name)
joined-cons name (next ∷ more) = refl

-- Cutting the text is keeping the names that fit.
cut-join :
    (n : ℕ) (names : List (List ℕ))
    → AllPlain names
    → n ≤ length (join names)
    → cut n (join names) ≡ joined (fitting n names)
unfolding join
cut-join n [] p h = cut-plain n [] tt
cut-join n (name ∷ []) (p, _) h = cut-plain n name p ∙ ground arith
cut-join n (name ∷ next ∷ more) (p, ps) h =
    let s = join (next ∷ more) in
    let l = length-append name (semicolon ∷ s) in
    cut-append n name s p ∙ elim (Bool-cases (ltb (length name) n)) [
      | inl fits ↦
          let ih = cut-join (n - length name - 1) (next ∷ more) ps (ground (arith, l, h)) in
          rw (fits, ih) (joined-cons name (fitting (n - length name - 1) (next ∷ more)))
      | inr over ↦ rw over refl
    ]

join-joined : (names : List (List ℕ)) → elim (joined names) [ none ↦ [] | some t ↦ t ] ≡ join names
unfolding join
join-joined [] = refl
join-joined (name ∷ more) = refl

-- Where no name has a semicolon: the names are joined, and where that is longer than 127 bytes, as
-- many whole names from the front as fit in 127 bytes with a separator each.
pub get_extension_names-fitting :
    (names : List (List ℕ))
    → AllPlain names
    → get_extension_names names ≡ (
        if leb (length (join names)) max_extension_names_length
        then join names
        else join (fitting max_extension_names_length names))
unfolding get_extension_names
get_extension_names-fitting names p =
    elim (Bool-cases (ltb max_extension_names_length (length (join names)))) [
      | inl long ↦
          rw (get_extension_names, long, cut-join max_extension_names_length names p (ground arith))
            (ground (arith, join-joined (fitting max_extension_names_length names)))
      | inr short ↦ ground arith
    ]
