-- ===== src/Fatalerror.antt =====
-- internal/lambda/fatalerror/fatalerror.go: which error types are passed on. A type is the list of its
-- bytes.
pub mod Laws
use lambda_runtime_init.Base.{
  ℕ, Bool, true, false, ◌&&◌, ◌||◌, List, [], ◌∷◌, if◌then◌else◌, leb, ◌==◌, codes,
}

abbrev pub runtime_prefix : List ℕ
runtime_prefix = 82 ∷ 117 ∷ 110 ∷ 116 ∷ 105 ∷ 109 ∷ 101 ∷ 46 ∷ []

abbrev pub function_prefix : List ℕ
function_prefix = 70 ∷ 117 ∷ 110 ∷ 99 ∷ 116 ∷ 105 ∷ 111 ∷ 110 ∷ 46 ∷ []

unfoldable pub runtime_unknown : List ℕ
runtime_unknown =
    82 ∷ 117 ∷ 110 ∷ 116 ∷ 105 ∷ 109 ∷ 101 ∷ 46 ∷ 85 ∷ 110 ∷ 107 ∷ 110 ∷ 111 ∷ 119 ∷ 110 ∷ []

unfoldable pub function_unknown : List ℕ
function_unknown =
    70 ∷ 117 ∷ 110 ∷ 99 ∷ 116 ∷ 105 ∷ 111 ∷ 110 ∷ 46 ∷ 85 ∷ 110 ∷ 107 ∷ 110 ∷ 111 ∷ 119 ∷ 110 ∷ []

abbrev pub runtime_invalid_response_mode_header : List ℕ
runtime_invalid_response_mode_header =
    82 ∷ 117 ∷ 110 ∷ 116 ∷ 105 ∷ 109 ∷ 101 ∷ 46 ∷ 73 ∷ 110 ∷ 118 ∷ 97 ∷ 108 ∷ 105 ∷ 100 ∷ 82 ∷ 101
    ∷ 115 ∷ 112 ∷ 111 ∷ 110 ∷ 115 ∷ 101 ∷ 77 ∷ 111 ∷ 100 ∷ 101 ∷ 72 ∷ 101 ∷ 97 ∷ 100 ∷ 101 ∷ 114
    ∷ []

abbrev pub function_oversized_response : List ℕ
function_oversized_response =
    70 ∷ 117 ∷ 110 ∷ 99 ∷ 116 ∷ 105 ∷ 111 ∷ 110 ∷ 46 ∷ 82 ∷ 101 ∷ 115 ∷ 112 ∷ 111 ∷ 110 ∷ 115 ∷ 101
    ∷ 83 ∷ 105 ∷ 122 ∷ 101 ∷ 84 ∷ 111 ∷ 111 ∷ 76 ∷ 97 ∷ 114 ∷ 103 ∷ 101 ∷ []

abbrev pub agent_init_error : List ℕ
agent_init_error =
    69 ∷ 120 ∷ 116 ∷ 101 ∷ 110 ∷ 115 ∷ 105 ∷ 111 ∷ 110 ∷ 46 ∷ 73 ∷ 110 ∷ 105 ∷ 116 ∷ 69 ∷ 114 ∷ 114
    ∷ 111 ∷ 114 ∷ []

abbrev pub agent_exit_error : List ℕ
agent_exit_error =
    69 ∷ 120 ∷ 116 ∷ 101 ∷ 110 ∷ 115 ∷ 105 ∷ 111 ∷ 110 ∷ 46 ∷ 69 ∷ 120 ∷ 105 ∷ 116 ∷ 69 ∷ 114 ∷ 114
    ∷ 111 ∷ 114 ∷ []

abbrev is_upper : ℕ → Bool
is_upper c = leb 65 c && leb c 90

abbrev is_letter : ℕ → Bool
is_letter c = is_upper c || (leb 97 c && leb c 122)

-- `[A-Z][a-zA-Z]+`, at the front.
abbrev name_follows : List ℕ → Bool
name_follows (a ∷ b ∷ rest) = is_upper a && is_letter b
name_follows _ = false

abbrev pub has_prefix : List ℕ → List ℕ → Bool
has_prefix s [] = true
has_prefix [] (p ∷ ps) = false
has_prefix (c ∷ s) (p ∷ ps) = c == p && has_prefix s ps

abbrev drop_all : List ℕ → List ℕ → List ℕ
drop_all s [] = s
drop_all [] (p ∷ ps) = []
drop_all (c ∷ s) (p ∷ ps) = drop_all s ps

abbrev follows : List ℕ → List ℕ → Bool
follows s prefix = has_prefix s prefix && name_follows (drop_all s prefix)

-- The regular expression at one place, and at any: the source does not anchor it.
unfoldable pub matches_here : List ℕ → Bool
matches_here s = follows s runtime_prefix || follows s function_prefix

unfoldable pub matches : List ℕ → Bool
unfolding matches_here
matches [] = false
matches (c ∷ s) = let later = matches s in matches_here (c ∷ s) || later

unfoldable pub get_valid_runtime_or_function_error_type : List ℕ → List ℕ
unfolding matches runtime_unknown function_unknown
get_valid_runtime_or_function_error_type error_type =
    if matches error_type
    then error_type
    else if has_prefix error_type function_prefix
    then function_unknown
    else runtime_unknown

-- The types that the sandbox itself reports.
abbrev pub agent_crash : List ℕ
agent_crash = codes "Extension.Crash"

abbrev pub agent_launch_error : List ℕ
agent_launch_error = codes "Extension.LaunchError"

abbrev pub runtime_exit : List ℕ
runtime_exit = codes "Runtime.ExitError"

abbrev pub invalid_entrypoint : List ℕ
invalid_entrypoint = codes "Runtime.InvalidEntrypoint"

abbrev pub invalid_working_dir : List ℕ
invalid_working_dir = codes "Runtime.InvalidWorkingDir"

abbrev pub sandbox_failure : List ℕ
sandbox_failure = codes "Sandbox.Failure"
