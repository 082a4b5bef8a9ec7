-- ===== src/Rapi/ErrorCause.antt =====
-- internal/lambda/rapi/model/error_cause.go and error_cause_compactor.go: the cause of an error that a
-- runtime reports, cropped to fit into a trace. A string is the list of its bytes; a factor is a
-- number of fifths, and the product with a length rounds down, as the source's conversion to int.
-- What `json.Unmarshal` and `json.Marshal` answer is a parameter.
pub mod Bounds
use lambda_runtime_init.Base.{
  ℕ, zero, suc, ◌+◌, ◌-◌, ◌*◌, ◌/◌, Bool, true, false, not, ◌&&◌, Option, none, some, List, [], ◌∷◌,
  ◌++◌, String, if◌then◌else◌, leb, ltb, ◌==◌, length, take, min,
}
use lambda_runtime_init.Base.Int.{ℤ}

abbrev pub max_error_cause_size_bytes : ℕ
max_error_cause_size_bytes = 65_536

abbrev pub padding_for_field_names : ℕ
padding_for_field_names = 4_096

pub record ExceptionStackFrame : Type 0 where
  pub path : List ℕ
  pub line : ℤ
  pub label : List ℕ

pub record Exception : Type 0 where
  pub message : List ℕ
  pub type : List ℕ
  pub stack : List ExceptionStackFrame

pub record ErrorCause : Type 0 where
  pub exceptions : List Exception
  pub working_dir : List ℕ
  pub paths : List (List ℕ)
  pub message : List ℕ

abbrev is_empty {ℓ} : {A : Type ℓ} → List A → Bool
is_empty [] = true
is_empty (_ ∷ _) = false

unfoldable pub is_valid : ErrorCause → Bool
is_valid ec =
    not (
      is_empty ec.working_dir && is_empty ec.paths && is_empty ec.exceptions && is_empty ec.message)

-- Three dots take the place of what is cut off.
unfoldable pub crop_string : List ℕ → ℕ → List ℕ
crop_string str n = if leb (length str) n then str else take (n - 3) str ++ 46 ∷ 46 ∷ 46 ∷ []

abbrev pub crop_length : ℕ
crop_length = (max_error_cause_size_bytes - padding_for_field_names) / 2

unfoldable pub crop_stack_traces : ℕ → ErrorCause → ErrorCause
crop_stack_traces zero ec = record ec { exceptions = []; paths = [] }
crop_stack_traces (suc k) ec =
    let factor = min (suc k) 5 in
    record ec {
      exceptions = take (length ec.exceptions * factor / 5) ec.exceptions;
      paths = take (length ec.paths * factor / 5) ec.paths;
    }

unfoldable pub crop_message : ℕ → ErrorCause → ErrorCause
unfolding crop_string
crop_message zero ec = record ec { message = crop_string ec.message crop_length }
crop_message (suc k) ec = ec

unfoldable pub crop_working_dir : ℕ → ErrorCause → ErrorCause
unfolding crop_string
crop_working_dir zero ec = record ec { working_dir = crop_string ec.working_dir crop_length }
crop_working_dir (suc k) ec = ec

unfoldable pub crop : ℕ → ErrorCause → ErrorCause
unfolding crop_stack_traces crop_message crop_working_dir
crop factor ec = crop_working_dir factor (crop_message factor (crop_stack_traces factor ec))

-- The body and the error of a call that may refuse the cause.
pub data Validated : Type 0 where
  malformed not_encodable invalid_format : Validated
  valid : Option (List ℕ) → Validated

module _ (encode : ErrorCause → Option (List ℕ)) where
  -- The loop over the factors, and what follows it.
  unfoldable pub crop_by : List ℕ → ErrorCause → Option (List ℕ)
  unfolding crop
  crop_by [] ec = encode (crop 0 ec)
  crop_by (factor ∷ factors) ec =
      let rest = crop_by factors ec in
      elim (encode (crop factor ec)) [
        | none ↦ encode (crop 0 ec)
        | some json ↦ if leb (length json) max_error_cause_size_bytes then some json else rest
      ]

  unfoldable pub cropped_json : ErrorCause → Option (List ℕ)
  unfolding crop_by
  cropped_json ec = crop_by (4 ∷ 3 ∷ 2 ∷ 1 ∷ []) ec

  abbrev pub encode_valid : ErrorCause → Validated
  encode_valid ec = elim (encode ec) [
    | none ↦ not_encodable
    | some json ↦
        valid (if ltb max_error_cause_size_bytes (length json) then cropped_json ec else some json)
  ]

  unfoldable pub validated_error_cause_json : (List ℕ → Option ErrorCause) → List ℕ → Validated
  unfolding is_valid cropped_json
  validated_error_cause_json decode body = elim (decode body) [
    | none ↦ malformed
    | some ec ↦ if is_valid ec then encode_valid ec else invalid_format
  ]
