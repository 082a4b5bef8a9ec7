-- ===== src/Tests/Rapi.antt =====
-- Concrete inputs for internal/lambda/rapi.
use lambda_runtime_init.Rapi.Extensions.Laws
use lambda_runtime_init.Core.Runtime
use lambda_runtime_init.Base.{
  ℕ, ◌≤◌, ◌≡◌, ◌≢◌, refl, ◌⊎◌, true, false, none, some, Option, List, [], ◌∷◌, length, String,
}
use lambda_runtime_init.Core.Gate.{walk_through}
use lambda_runtime_init.Core.InitFlow.{new_init_flow}
use lambda_runtime_init.Core.InvokeFlow.{new_invoke_flow}
use lambda_runtime_init.Core.Agent.{invoke_event}
use lambda_runtime_init.Core.AgentsMap.{insert_agent}
use lambda_runtime_init.Core.InternalAgent.{subscribe_all, subscribe_unsafe}
use lambda_runtime_init.Core.AgentsMap.Laws.{IsConsistent, new-IsConsistent}
use lambda_runtime_init.Core.Registrations.{new_registration_service, count_agents_unsafe}
use lambda_runtime_init.Rapidcore.Server.{new_server}
use lambda_runtime_init.Rapidcore.Server.Steps.{run, step}
use lambda_runtime_init.Rapidcore.Server.Spec.{phase, replied}
use lambda_runtime_init.Appctx.{
  response_sender_key, response_sender, load_response_sender, load, load_first_fatal_error, found,
  first_fatal_error_key,
}
use lambda_runtime_init.Rapi.ErrorCause.{
  ErrorCause, validated_error_cause_json, valid, max_error_cause_size_bytes, crop,
}
use lambda_runtime_init.Rapi.ErrorCause.Bounds.{IsSmall, validated-Fits}
use lambda_runtime_init.Rapi.Session.{
  Session, accepted, event, Times, Json, invalid_function_response_mode, invalid_state_transition,
}
use lambda_runtime_init.Rapi.Transitions.{invoke_renderer, serve_invocation_next}
use lambda_runtime_init.Rapi.Responses.{
  ResponseRequest, ErrorRequest, serve_invocation_response, serve_invocation_error, error_body,
}
use lambda_runtime_init.Rapi.Responses.Laws.{Stands, state_of, serve_invocation_response-Stands}
use lambda_runtime_init.Rapi.Responses.Stuck.{accepted-replied, invalid_mode-stuck}
use lambda_runtime_init.Rapi.Responses.Errors.{Errs, serve_invocation_error-Errs}
use lambda_runtime_init.Rapi.Extensions.{Extensions}
use lambda_runtime_init.Rapi.Extensions.Registration.{serve_agent_register, RegisterBody}
use lambda_runtime_init.Rapi.Extensions.Laws.{
  Report, init_report, exit_report, first_accepted, loaded, run-first_accepted,
}
use lambda_runtime_init.Rapi.Extensions.Called.{ExternallyRegistered, InternallyRegistered}
use lambda_runtime_init.Rapi.Extensions.Register.{serve_agent_register-Registered}
use lambda_runtime_init.Tests.Server.{body, invoked}
use lambda_runtime_init.Tests.Runtime.{at}

abbrev json : Json
json = record {
  encode_cause = λ c. some [];
  decode_cause = λ j. none;
  decode_request = λ j. none;
  encode_response = λ r. some [];
  encode_function_error = λ f. f.type;
  invalid_error_body = [];
  is_valid = λ j. false;
}

abbrev times : Times
times = record { first = 1; second = 2; third = 3 }

abbrev session : Session
session = record {
  runtime = (at Runtime.running [] 0).object;
  server = run 10 new_server invoked;
  app = (response_sender_key, response_sender 1) ∷ [];
}

abbrev response : String → ResponseRequest
response mode = record {
  invoke_id = "invoke-1";
  function_response_mode = mode;
  delivery = body;
  error_delivery = body;
}

abbrev message : ℕ → List ℕ
message n = []

has_sender : load_response_sender session.app ≡ found 1
unfolding load_response_sender
has_sender = refl

serve_invocation_response-Stands_example :
    let (s', answer) = serve_invocation_response json 10 message times (response "") session in
    ((state_of session ≡ Runtime.running) × Stands Runtime.invocation_response (s', answer))
    ⊎ ((state_of session ≢ Runtime.running) × (s' ≡ session) × (answer ≡ invalid_state_transition))
serve_invocation_response-Stands_example =
    serve_invocation_response-Stands json 10 message times (response "") session 1 has_sender

is_accepted : (serve_invocation_response json 10 message times (response "") session).1 ≡ accepted
unfolding serve_invocation_response run step new_server walk_through
is_accepted = refl

accepted-replied_example :
    phase (serve_invocation_response json 10 message times (response "") session).0.server
    ≡ replied "invoke-1"
accepted-replied_example =
    accepted-replied json 10 message times (response "") session 1 has_sender is_accepted

invalid_mode-stuck_example :
    let (s', answer) =
      serve_invocation_response json 10 message times (response "chunked") session in
    (answer ≡ invalid_function_response_mode)
    × ((serve_invocation_next (invoke_renderer true) times s').1 ≡ invalid_state_transition)
invalid_mode-stuck_example =
    invalid_mode-stuck json 10 message times (response "chunked") session 1 (invoke_renderer true)
      times has_sender refl refl

abbrev error_request : ErrorRequest
error_request = record {
  invoke_id = "invoke-1";
  content_type = "text/plain";
  function_response_mode = "";
  error_type = [];
  xray_error_cause = [];
  body = some (104 ∷ []);
  delivery = body;
}

serve_invocation_error-Errs_example :
    let (s', answer) = serve_invocation_error json 10 times error_request session in
    ((state_of session ≡ Runtime.running)
      × Errs "invoke-1" (error_body json error_request).cause (s', answer))
    ⊎ ((state_of session ≢ Runtime.running) × (s' ≡ session) × (answer ≡ invalid_state_transition))
serve_invocation_error-Errs_example =
    serve_invocation_error-Errs json 10 times error_request session 1 has_sender

abbrev extensions : Extensions
extensions = record {
  memory = record { runtimes = []; externals = []; internals = [] };
  service = new_registration_service new_init_flow new_invoke_flow;
  app = [];
}

abbrev registration : Option RegisterBody
registration = some (record { events = invoke_event ∷ []; configuration_keys = [] })

nobody : IsConsistent extensions.service.external_agents
unfolding new_registration_service
nobody = new-IsConsistent

is_registered : (serve_agent_register "a" "1" registration times extensions).1 ≡ event
unfolding serve_agent_register new_registration_service count_agents_unsafe insert_agent
    subscribe_all subscribe_unsafe
is_registered = refl

serve_agent_register-Registered_example :
    ExternallyRegistered "a" (serve_agent_register "a" "1" registration times extensions).0
    ⊎ InternallyRegistered "a" (serve_agent_register "a" "1" registration times extensions).0
serve_agent_register-Registered_example =
    serve_agent_register-Registered "a" "1" registration times extensions nobody is_registered

abbrev one_extension : Extensions
one_extension = (serve_agent_register "a" "1" registration times extensions).0

abbrev reports : List Report
reports =
    init_report "x" (some "9") times
    ∷ init_report "" (some "1") times
    ∷ init_report "x" (some "1") times
    ∷ exit_report "y" (some "1") times
    ∷ []

no_fatal : load first_fatal_error_key one_extension.app ≡ none
unfolding serve_agent_register load new_registration_service count_agents_unsafe insert_agent
    subscribe_all subscribe_unsafe
no_fatal = refl

run-first_accepted_example :
    load_first_fatal_error (Laws.run reports one_extension).app
    ≡ loaded (first_accepted reports one_extension)
run-first_accepted_example = run-first_accepted reports one_extension no_fatal

abbrev cause_json : List ℕ
cause_json = 104 ∷ []

abbrev some_cause : ErrorCause
some_cause = record { exceptions = []; working_dir = []; paths = []; message = 104 ∷ [] }

is_validated :
    validated_error_cause_json (λ c. some c.message) (λ b. some some_cause) []
    ≡ valid (some cause_json)
unfolding validated_error_cause_json
is_validated = refl

validated-Fits_example :
    (length cause_json ≤ max_error_cause_size_bytes)
    ⊎ ((ec : ErrorCause) × (some some_cause ≡ some ec)
        × (some (crop 0 ec).message ≡ some cause_json)
        × IsSmall (crop 0 ec))
validated-Fits_example =
    validated-Fits (λ c. some c.message) (λ b. some some_cause) [] cause_json is_validated
