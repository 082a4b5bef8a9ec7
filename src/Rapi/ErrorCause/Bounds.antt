-- ===== src/Rapi/ErrorCause/Bounds.antt =====
-- How large a cropped error cause is.
use lambda_runtime_init.Base.{
  ℕ, ◌-◌, ◌≤◌, ◌≡◌, refl, subst, ◌⊎◌, inl, inr, Bool, true, false, Option, none, some, List, [],
  ◌∷◌, if◌then◌else◌, leb, ltb, length, take, min, arith, Option-cases, Bool-cases, length-append,
  length-take,
}
use lambda_runtime_init.Rapi.ErrorCause.{
  ErrorCause, crop, crop_string, crop_length, crop_stack_traces, crop_message, crop_working_dir,
  crop_by, cropped_json, validated_error_cause_json, valid, not_encodable, malformed,
  invalid_format, max_error_cause_size_bytes, encode_valid, is_valid,
}

-- A cropped string has the length that is asked for at most, and is a short one as it was.
pub length-crop_string : (s : List ℕ) (n : ℕ) → 3 ≤ n → length (crop_string s n) ≡ min (length s) n
unfolding crop_string
length-crop_string s n h =
    ground (arith, length-take (n - 3) s, length-append (take (n - 3) s) (46 ∷ 46 ∷ 46 ∷ []))

-- What the smallest factor leaves.
pub record IsSmall (ec : ErrorCause) : Type 0 where
  pub no_exceptions : ec.exceptions ≡ []
  pub no_paths : ec.paths ≡ []
  pub message_bound : length ec.message ≤ crop_length
  pub working_dir_bound : length ec.working_dir ≤ crop_length

pub crop-IsSmall : (ec : ErrorCause) → IsSmall (crop 0 ec)
unfolding crop crop_stack_traces crop_message crop_working_dir
crop-IsSmall ec = record {
  no_exceptions = refl;
  no_paths = refl;
  message_bound = omega (arith, length-crop_string ec.message crop_length (omega arith));
  working_dir_bound = omega (arith, length-crop_string ec.working_dir crop_length (omega arith));
}

valid_inj : {a b : Option (List ℕ)} → valid a ≡ valid b → a ≡ b
valid_inj h = cc

not_valid : {a : Option (List ℕ)} → not_encodable ≡ valid a → ⊥
not_valid h = cc

malformed_valid : {a : Option (List ℕ)} → malformed ≡ valid a → ⊥
malformed_valid h = cc

invalid_valid : {a : Option (List ℕ)} → invalid_format ≡ valid a → ⊥
invalid_valid h = cc

module _ (encode : ErrorCause → Option (List ℕ)) where
  -- What is passed on fits, or it is the encoding of the smallest form of the cause.
  abbrev Fits : ErrorCause → Option (List ℕ) → Type 0
  Fits ec none = Unit {0}
  Fits ec (some json) =
      (length json ≤ max_error_cause_size_bytes) ⊎ (encode (crop 0 ec) ≡ some json)

  fitting :
      (ec : ErrorCause) (json : List ℕ) (rest : Option (List ℕ))
      → Fits ec rest
      → (b : Bool) → leb (length json) max_error_cause_size_bytes ≡ b
      → Fits ec (if leb (length json) max_error_cause_size_bytes then some json else rest)
  fitting ec json rest f true e = rw e (inl (ground arith))
  fitting ec json rest f false e = rw e f

  smallest-Fits : (ec : ErrorCause) (o : Option (List ℕ)) → encode (crop 0 ec) ≡ o → Fits ec o
  smallest-Fits ec none e = tt
  smallest-Fits ec (some json) e = inr e

  crop_by-Fits : (factors : List ℕ) (ec : ErrorCause) → Fits ec (crop_by encode factors ec)
  unfolding crop_by
  crop_by-Fits [] ec = smallest-Fits ec (encode (crop 0 ec)) refl
  crop_by-Fits (k ∷ ks) ec = elim (Option-cases (encode (crop k ec))) [
    | inl e ↦ rw (e, crop_by) (smallest-Fits ec (encode (crop 0 ec)) refl)
    | inr (json, e) ↦
        rw (e, crop_by)
          (fitting ec json (crop_by encode ks ec) (crop_by-Fits ks ec)
            (leb (length json) max_error_cause_size_bytes) refl)
  ]

  cropped_json-Fits : (ec : ErrorCause) → Fits ec (cropped_json encode ec)
  unfolding cropped_json
  cropped_json-Fits ec = crop_by-Fits (4 ∷ 3 ∷ 2 ∷ 1 ∷ []) ec

  encode_valid-Fits :
      (ec : ErrorCause) (json : List ℕ)
      → encode_valid encode ec ≡ valid (some json)
      → Fits ec (some json)
  encode_valid-Fits ec json h = elim (Option-cases (encode ec)) [
    | inl e ↦ absurd (not_valid (rw (e, encode_valid) at h))
    | inr (j, e) ↦ elim (Bool-cases (ltb max_error_cause_size_bytes (length j))) [
      | inl big ↦
          subst (Fits ec) (valid_inj (rw (e, encode_valid, big) at h)) (cropped_json-Fits ec)
      | inr small ↦
          subst (Fits ec) (valid_inj (rw (e, encode_valid, small) at h)) (inl (ground arith))
    ]
  ]

  -- Whatever cause a runtime reports, the one that is passed on has 64 KiB at most; or it is the
  -- encoding of the smallest form of the cause, which has no exceptions and no paths, and a message and a
  -- directory of 30 KiB at most.
  pub validated-Fits :
      (decode : List ℕ → Option ErrorCause) (body json : List ℕ)
      → validated_error_cause_json encode decode body ≡ valid (some json)
      → (length json ≤ max_error_cause_size_bytes)
        ⊎ ((ec : ErrorCause) × (decode body ≡ some ec)
            × (encode (crop 0 ec) ≡ some json)
            × IsSmall (crop 0 ec))
  unfolding validated_error_cause_json
  validated-Fits decode body json h = elim (Option-cases (decode body)) [
    | inl e ↦ absurd (malformed_valid (rw (e, validated_error_cause_json) at h))
    | inr (ec, e) ↦ elim (Bool-cases (is_valid ec)) [
      | inl v ↦ elim (encode_valid-Fits ec json (rw (e, validated_error_cause_json, v) at h)) [
        | inl fits ↦ inl fits
        | inr small ↦ inr (ec, e, small, crop-IsSmall ec)
      ]
      | inr n ↦ absurd (invalid_valid (rw (e, validated_error_cause_json, n) at h))
    ]
  ]
