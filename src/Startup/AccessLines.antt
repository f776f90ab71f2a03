-- ===== src/Startup/AccessLines.antt =====
-- The access lines of uvicorn, through the bridge of src/app/logger/uvicorn_access_log_handler.py.
use fastapi_polyrepo_templat.Prelude.{
  ℕ, ◌≡◌, refl, sym, ap, ◌∙◌, none, List, [], ◌∷◌, ◌++◌, map, Text, codes, append_assoc, append-nil,
}
use fastapi_polyrepo_templat.Effects.{Result, ok, and_then, ◌>>◌}
use fastapi_polyrepo_templat.World.{
  Libraries, World, App, LogCall, LogLevel, Message, response_start, response_body, other_event,
}
use fastapi_polyrepo_templat.Asgi.{Send, Asgi, server_send, send_all}
use fastapi_polyrepo_templat.Logger.{structlog_method_for_level, extra, emit}

module _ (lib : Libraries) (handle_error : App lib Unit) (line : ℕ → Text) where
  -- uvicorn's `send` with the bridge of `uvicorn.access`: an INFO record at each response start,
  -- whose sentence is `line` of the status.
  unfoldable pub accessed_send : Send lib
  unfolding emit
  accessed_send (response_start status headers) = do
    emit lib handle_error (codes "uvicorn.access")
        (record { levelno = 20; message = ok (line status); exc_info = none })
    server_send lib (response_start status headers)
  accessed_send (response_body body) = server_send lib (response_body body)
  accessed_send (other_event kind) = server_send lib (other_event kind)

  abbrev pub access_call : lib.Context → ℕ → LogCall lib
  access_call context status = record {
    logger = codes "uvicorn.access";
    level = LogLevel.info;
    event = line status;
    fields = [];
    context = context;
  }

  accessed_send-start :
      (status : ℕ) (headers : List (Text × Text)) (w : World lib)
      → accessed_send (response_start status headers) w ≡ (
        ok tt,
        record w {
          log = w.log ++ access_call w.context status ∷ [];
          sent = w.sent ++ response_start status headers ∷ [];
        },
      )
  unfolding accessed_send structlog_method_for_level extra
  accessed_send-start status headers w = refl

  abbrev access_of : lib.Context → Message → List (LogCall lib)
  access_of context (response_start status headers) = access_call context status ∷ []
  access_of context (response_body body) = []
  access_of context (other_event kind) = []

  -- One access line for each response start.
  unfoldable pub access_calls : lib.Context → List Message → List (LogCall lib)
  access_calls context [] = []
  access_calls context (m ∷ messages) = access_of context m ++ access_calls context messages

  abbrev pub after_sending : List Message → World lib → World lib
  after_sending messages w = record w {
    log = w.log ++ access_calls w.context messages;
    sent = w.sent ++ messages;
  }

  accessed_send-one :
      (m : Message) (w : World lib)
      → accessed_send m w
        ≡ (ok tt, record w { log = w.log ++ access_of w.context m; sent = w.sent ++ m ∷ [] })
  unfolding accessed_send
  accessed_send-one (response_start status headers) w = accessed_send-start status headers w
  accessed_send-one (response_body body) w =
      ap (λ l. (ok tt, record w { log = l; sent = w.sent ++ response_body body ∷ [] }))
        (sym (append-nil w.log))
  accessed_send-one (other_event kind) w =
      ap (λ l. (ok tt, record w { log = l; sent = w.sent ++ other_event kind ∷ [] }))
        (sym (append-nil w.log))

  pub send_all-accessed :
      (f : Message → Message) (messages : List Message) (end : Result (Unit {0})) (w : World lib)
      → send_all lib messages (λ m. accessed_send (f m)) end w
        ≡ (end, after_sending (map f messages) w)
  unfolding send_all access_calls
  send_all-accessed f [] end w =
      ap (λ l. (end, record w { log = l })) (sym (append-nil w.log))
      ∙ ap (λ s. (end, record w { log = w.log ++ []; sent = s })) (sym (append-nil w.sent))
  send_all-accessed f (m ∷ messages) end w =
      let w1 = record w { log = w.log ++ access_of w.context (f m); sent = w.sent ++ f m ∷ [] } in
      ap (λ r. and_then r (λ _. send_all lib messages (λ n. accessed_send (f n)) end))
        (accessed_send-one (f m) w)
      ∙ send_all-accessed f messages end w1
      ∙ ap (λ l. (end, record w { log = l; sent = w1.sent ++ map f messages }))
          (append_assoc w.log (access_of w.context (f m)) (access_calls w.context (map f messages)))
      ∙ ap
          (λ s. (
            end,
            record w {
              log = w.log ++ (access_of w.context (f m) ++ access_calls w.context (map f messages));
              sent = s;
            },
          ))
          (append_assoc w.sent (f m ∷ []) (map f messages))
