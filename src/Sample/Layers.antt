-- ===== src/Sample/Layers.antt =====
-- The layers of the libraries around the routes: one security header, an instrumentator that hands
-- on, and a ServerErrorMiddleware as Starlette documents it.
use fastapi_polyrepo_templat.Prelude.{
  ◌≡◌, refl, ap, ◌∙◌, some, List, [], ◌∷◌, Text, codes, lower, text_eq_refl, if◌then◌else◌,
}
use fastapi_polyrepo_templat.Effects.{BaseException, is_exception, Result, ok, err, and_then}
use fastapi_polyrepo_templat.World.{World, App, HeaderList, Message, response_start, response_body}
use fastapi_polyrepo_templat.Asgi.{Send, send_all}
use fastapi_polyrepo_templat.Middlewares.UnhandledException.{Response}
use fastapi_polyrepo_templat.Startup.Stack.{Layers}
use fastapi_polyrepo_templat.Startup.Unhandled.{ServerErrorContract, PassesBy}
use fastapi_polyrepo_templat.Http.Application.{LayersContract, with_headers}
use fastapi_polyrepo_templat.Sample.{Health, libraries, header_get}

abbrev pub with_frames : HeaderList → HeaderList
with_frames headers = (codes "X-Frame-Options", codes "DENY") ∷ headers

abbrev plain_text : Response → List Message
plain_text response =
    response_start response.status_code response.headers ∷ response_body response.body ∷ []

header_get-head : (k v : Text) → header_get k ((k, v) ∷ []) ≡ some v
unfolding header_get
header_get-head k v = rw (text_eq_refl (lower k)) refl

module _ (servers : Health) where
  abbrev caught :
      (BaseException → App (libraries servers) Response)
      → Send (libraries servers)
      → Result (Unit {0}) × World (libraries servers)
      → Result (Unit {0}) × World (libraries servers)
  caught handler send (ok u, w) = (ok u, w)
  caught handler send (err exc, w) =
      if is_exception exc
      then and_then (handler exc w)
          (λ response. send_all (libraries servers) (plain_text response) send (err exc))
      else (err exc, w)

  abbrev pub plain_layers : Layers (libraries servers)
  plain_layers = record {
    Secure = HeaderList → HeaderList;
    with_default_headers = with_frames;
    secure = λ set app scope send. app scope (λ m. send (with_headers set m));
    instrumented = λ callbacks app. app;
    server_error = λ handler app scope send w. caught handler send (app scope send w);
    respond = plain_text;
  }

  abbrev pub plain_layer_laws : LayersContract (libraries servers) plain_layers
  plain_layer_laws = record {
    secured = with_frames;
    secure_sends = λ app scope send w http. refl;
    instrumented_sends = λ callbacks app. refl;
  }

  caught-PassesBy :
      (handler : BaseException → App (libraries servers) Response)
      (send : Send (libraries servers)) (r : Result (Unit {0}) × World (libraries servers))
      → PassesBy r.0
      → caught handler send r ≡ r
  caught-PassesBy handler send (ok u, w) h = refl
  caught-PassesBy handler send (err exc, w) h = rw h refl

  pub plain_server_errors : ServerErrorContract (libraries servers) plain_layers
  plain_server_errors = record {
    not_raised = λ handler app scope send w h. caught-PassesBy handler send (app scope send w) h;
    before_start =
        λ handler app scope send w after exc is_exc raises. rw (raises send, is_exc) refl;
    respond_header = λ response k v headers.
        (response.headers, (refl, ap (λ hs. header_get k hs) headers ∙ header_get-head k v));
  }
