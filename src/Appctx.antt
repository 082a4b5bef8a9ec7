-- ===== src/Appctx.antt =====
-- internal/lambda/appctx/appctx.go: the application context, a map under one mutex. Each method is a
-- step.
pub mod Release
pub mod Laws
pub mod Features
use lambda_runtime_init.Base.{
  ℕ, Bool, true, false, Option, none, some, List, [], ◌∷◌, if◌then◌else◌, ◌==◌, codes,
}

-- The keys, by their values.
pub data Key : Type 0 where
  invoke_error_trace_data_key runtime_release_key interop_server_key response_sender_key : Key
  first_fatal_error_key init_type_key sandbox_type_key : Key

abbrev pub key_code : Key → ℕ
key_code invoke_error_trace_data_key = 0
key_code runtime_release_key = 1
key_code interop_server_key = 2
key_code response_sender_key = 3
key_code first_fatal_error_key = 4
key_code init_type_key = 5
key_code sandbox_type_key = 6

pub data InitType : Type 0 where
  init_plain init_caching : InitType

-- An `interface{}`, by its dynamic type; a server is an address, a trace has its cause, a text is its
-- bytes.
pub data Value : Type 0 where
  trace_data : Option (List ℕ) → Value
  text fatal_error : List ℕ → Value
  interop_server response_sender : ℕ → Value
  init_type : InitType → Value
  sandbox_type : List ℕ → Value

abbrev pub ApplicationContext : Type 0
ApplicationContext = List (Key × Value)

abbrev pub same_key : Key → Key → Bool
same_key a b = key_code a == key_code b

unfoldable pub new_application_context : ApplicationContext
new_application_context = []

unfoldable pub load : Key → ApplicationContext → Option Value
load key [] = none
load key ((k, v) ∷ rest) = if same_key k key then some v else load key rest

unfoldable pub store : Key → Value → ApplicationContext → ApplicationContext
store key value [] = (key, value) ∷ []
store key value ((k, v) ∷ rest) =
    if same_key k key then (k, value) ∷ rest else (k, v) ∷ store key value rest

unfoldable pub delete : Key → ApplicationContext → ApplicationContext
delete key [] = []
delete key ((k, v) ∷ rest) = if same_key k key then delete key rest else (k, v) ∷ delete key rest

unfoldable pub get_or_default : Key → Value → ApplicationContext → Value
unfolding load
get_or_default key default_value a = elim (load key a) [ none ↦ default_value | some v ↦ v ]

-- The value that is there already, or `none`.
unfoldable pub store_if_not_exists :
    Key → Value → ApplicationContext → ApplicationContext × Option Value
unfolding load store
store_if_not_exists key value a = elim (load key a) [
  | some existing ↦ (a, some existing)
  | none ↦ (store key value a, none)
]

-- `StoreFirstFatalError` of appctxutil.go.
unfoldable pub store_first_fatal_error : List ℕ → ApplicationContext → ApplicationContext
unfolding store_if_not_exists
store_first_fatal_error err a = (store_if_not_exists first_fatal_error_key (fatal_error err) a).0

-- A load whose type assertion may panic.
pub data Loaded (A : Type 0) : Type 0 where
  absent mistyped : Loaded A
  found : A → Loaded A

unfoldable pub load_first_fatal_error : ApplicationContext → Loaded (List ℕ)
unfolding load
load_first_fatal_error a = elim (load first_fatal_error_key a) [
  | none ↦ absent
  | some v ↦ elim v [ fatal_error e ↦ found e | _ ↦ mistyped ]
]

unfoldable pub store_invoke_error_trace_data :
    Option (List ℕ) → ApplicationContext → ApplicationContext
unfolding store
store_invoke_error_trace_data cause a = store invoke_error_trace_data_key (trace_data cause) a

unfoldable pub load_invoke_error_trace_data : ApplicationContext → Loaded (Option (List ℕ))
unfolding load
load_invoke_error_trace_data a = elim (load invoke_error_trace_data_key a) [
  | none ↦ absent
  | some v ↦ elim v [ trace_data c ↦ found c | _ ↦ mistyped ]
]

unfoldable pub store_init_type : Bool → ApplicationContext → ApplicationContext
unfolding store
store_init_type init_caching_enabled a =
    store init_type_key (init_type (if init_caching_enabled then init_caching else init_plain)) a

unfoldable pub load_init_type : ApplicationContext → Loaded InitType
unfolding get_or_default
load_init_type a = elim (get_or_default init_type_key (init_type init_plain) a) [
  | init_type t ↦ found t
  | _ ↦ mistyped
]

unfoldable pub store_interop_server : ℕ → ApplicationContext → ApplicationContext
unfolding store
store_interop_server server a = store interop_server_key (interop_server server) a

unfoldable pub load_interop_server : ApplicationContext → Loaded ℕ
unfolding load
load_interop_server a = elim (load interop_server_key a) [
  | none ↦ absent
  | some v ↦ elim v [ interop_server s ↦ found s | _ ↦ mistyped ]
]

unfoldable pub store_response_sender : ℕ → ApplicationContext → ApplicationContext
unfolding store
store_response_sender server a = store response_sender_key (response_sender server) a

unfoldable pub load_response_sender : ApplicationContext → Loaded ℕ
unfolding load
load_response_sender a = elim (load response_sender_key a) [
  | none ↦ absent
  | some v ↦ elim v [ response_sender s ↦ found s | _ ↦ mistyped ]
]

unfoldable pub store_sandbox_type : List ℕ → ApplicationContext → ApplicationContext
unfolding store
store_sandbox_type t a = store sandbox_type_key (sandbox_type t) a

-- The default is `interop.SandboxClassic`.
unfoldable pub load_sandbox_type : ApplicationContext → Loaded (List ℕ)
unfolding get_or_default
load_sandbox_type a = elim (get_or_default sandbox_type_key (sandbox_type (codes "Classic")) a) [
  | sandbox_type t ↦ found t
  | _ ↦ mistyped
]
