-- ===== src/Tests/Requests.antt =====
-- Requests through all the layers of the application.
use fastapi_polyrepo_templat.Prelude.{
  arith, ◌++◌, ◌≡◌, refl, ap, ◌∙◌, true, some, List, [], ◌∷◌, map, Text, codes, lower, strip,
  is_space, is_empty, text_eq, text_eq_refl, if◌then◌else◌,
}
use fastapi_polyrepo_templat.Effects.{
  BaseException, is_exception, os_error, Result, ok, err, and_then,
}
use fastapi_polyrepo_templat.World.{
  World, App, text, Message, response_start, response_body, other_event,
}
use fastapi_polyrepo_templat.Asgi.{Script, Scope, Send, Asgi, server_send, scripted, send_all}
use fastapi_polyrepo_templat.Sample.{libraries, healthy, world, header_get}
use fastapi_polyrepo_templat.Middlewares.CorrelationId.{
  state_key, correlation_id_from_headers, header_value, first_usable,
}
use fastapi_polyrepo_templat.Middlewares.UnhandledException.{Response}
use fastapi_polyrepo_templat.Startup.Lifecycle.{create_app}
use fastapi_polyrepo_templat.Startup.Stack.{Layers, served, state_value}
use fastapi_polyrepo_templat.Startup.Unhandled.{ServerErrorContract, PassesBy, left, unhandled_call}
use fastapi_polyrepo_templat.Config.{local}
use fastapi_polyrepo_templat.Logger.{level_number}
use fastapi_polyrepo_templat.Logger.LogManager.{EventDict, get, resource_fields, update, set_item}
use fastapi_polyrepo_templat.Logger.Json.{dumps}
use fastapi_polyrepo_templat.Logger.Stream.{Writers, processed, emit_all, all_encodable}
use fastapi_polyrepo_templat.Logger.Stream.Lines.{WritersContract, read_records, is_written}
use fastapi_polyrepo_templat.Startup.UnhandledLine.{RecordContract, served_unhandled-line}
use fastapi_polyrepo_templat.Tests.Streams.{writers, structlog_contract}
use fastapi_polyrepo_templat.Tests.Processes.{registries, process, manager}

abbrev pub quiet : World (libraries healthy)
quiet = world healthy []

abbrev pub page : Scope
page = record {
  kind = codes "http";
  method = codes "GET";
  path = codes "/docs";
  headers = (codes "X-Request-ID", codes " ") ∷ (codes "X-Correlation-ID", codes " c ") ∷ [];
  body = [];
}

-- A library that sets the policy alone.
abbrev pub with_policy : Message → Message
with_policy (response_start status headers) =
    response_start status ((codes "Content-Security-Policy", codes "default-src") ∷ headers)
with_policy (response_body body) = response_body body
with_policy (other_event kind) = other_event kind

abbrev pub respond : Response → List Message
respond response =
    response_start response.status_code response.headers ∷ response_body response.body ∷ []

abbrev pub handled :
    (BaseException → App (libraries healthy) Response)
    → Send (libraries healthy)
    → Result (Unit {0}) × World (libraries healthy)
    → Result (Unit {0}) × World (libraries healthy)
handled handler send (ok u, w) = (ok u, w)
handled handler send (err exc, w) =
    if is_exception exc
    then and_then (handler exc w)
        (λ response. send_all (libraries healthy) (respond response) send (err exc))
    else (err exc, w)

abbrev pub layers : Layers (libraries healthy)
layers = record {
  Secure = Message → Message;
  with_default_headers = with_policy;
  secure = λ headers app scope send. app scope (λ m. send (headers m));
  instrumented = λ callbacks app. app;
  server_error = λ handler app scope send w. handled handler send (app scope send w);
  respond = respond;
}

abbrev pub sent : Script (List Message)
sent scope state = response_start 200 [] ∷ response_body (codes "b") ∷ []

abbrev pub sent_with_policy : Script (List Message)
sent_with_policy scope state = map with_policy (sent scope state)

abbrev pub end : Script (Result (Unit {0}))
end scope state = ok tt

pub inner :
    (scope : Scope) (send : Send (libraries healthy)) (w : World (libraries healthy))
    → scripted (libraries healthy) sent end scope (λ m. send (with_policy m)) w
      ≡ scripted (libraries healthy) sent_with_policy end scope send w
unfolding scripted send_all
inner scope send w = refl

pub chosen : correlation_id_from_headers (libraries healthy) page.headers (codes "u") ≡ codes "c"
unfolding correlation_id_from_headers first_usable header_value strip is_space lower is_empty
    text_eq header_get
chosen = refl

-- A route that fails.
abbrev pub failing : Asgi (libraries healthy)
failing scope send w = (err os_error, w)

handled-PassesBy :
    (handler : BaseException → App (libraries healthy) Response)
    (send : Send (libraries healthy)) (r : Result (Unit {0}) × World (libraries healthy))
    → PassesBy r.0
    → handled handler send r ≡ r
handled-PassesBy handler send (ok u, w) h = refl
handled-PassesBy handler send (err exc, w) h = rw h refl

pub server_errors : ServerErrorContract (libraries healthy) layers
unfolding header_get
server_errors = record {
  not_raised = λ handler app scope send w h. handled-PassesBy handler send (app scope send w) h;
  before_start = λ handler app scope send w after exc is_exc raises. rw (raises send, is_exc) refl;
  respond_header = λ response k v headers.
      (response.headers, (refl, ap (λ hs. header_get k hs) headers ∙ found k v));
}
  where
    found : (k v : Text) → header_get k ((k, v) ∷ []) ≡ some v
    found k v = rw (text_eq_refl (lower k)) refl

pub state_kept :
    state_value state_key (left (libraries healthy) (λ v. v) (codes "c") quiet).scope_state
    ≡ some (codes "c")
unfolding state_value text_eq
state_kept = refl

-- structlog with the keywords in front.
abbrev keywords_first : Writers (libraries healthy)
keywords_first = record writers {
  event_dict = λ bound event fields. (codes "event", text event) ∷ (fields ++ bound);
}

keywords_first_contract : WritersContract (libraries healthy) keywords_first
keywords_first_contract = record {
  is_enabled = λ min_level level. refl;
  write_line = λ line stream. refl;
}

get-append :
    (k v : Text) (d e : EventDict) → get k d ≡ some (text v) → get k (d ++ e) ≡ some (text v)
unfolding get
get-append k v [] e h = absurd (ground arith)
get-append k v ((j, u) ∷ d) e h = ground (arith, get-append k v d e)

keywords_first_record : RecordContract (libraries healthy) keywords_first
unfolding get
keywords_first_record = record {
  keyword = λ bound fields event k v other has. rw other (get-append k v fields bound has);
  merged = λ call d k v has. has;
}

is_written-unhandled :
    is_written (libraries healthy) keywords_first manager.log_manager (
      unhandled_call
        (libraries healthy)
        os_error
        (codes "c")
        (left (libraries healthy) (λ v. v) (codes "c") quiet))
    ≡ true
unfolding is_written all_encodable dumps processed level_number resource_fields update set_item
    text_eq
is_written-unhandled = refl

served_unhandled-line_example :
    (d : EventDict) × ((read_records (
          emit_all
            (libraries healthy)
            keywords_first
            manager.log_manager
            (served
              (libraries healthy)
              layers
              (create_app registries manager process).1.app.user_middleware
              failing
              page
              (server_send (libraries healthy))
              quiet).1.log
            [])
        ≡ read_records (emit_all (libraries healthy) keywords_first manager.log_manager [] [])
          ++ some d ∷ [])
      × (get state_key d ≡ some (text (codes "c"))))
unfolding is_exception
served_unhandled-line_example =
    served_unhandled-line (libraries healthy) layers server_errors registries manager process
      failing (λ name registry. refl) refl os_error (λ v. v) keywords_first keywords_first_contract
      keywords_first_record (λ call. structlog_contract) local (codes "pod") (codes "1.0") refl page
      quiet (codes "c") refl (λ e. cc) chosen (λ send. refl) refl state_kept is_written-unhandled
