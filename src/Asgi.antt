-- ===== src/Asgi.antt =====
-- ASGI applications: a scope, and a `send` that hands an event on. An application that sends a
-- list of events and ends with a result is the general one for whoever only looks at what is sent.
use fastapi_polyrepo_templat.Prelude.{
  List, [], ◌∷◌, ◌++◌, map, append-nil, append_assoc, ◌≡◌, sym, ap, ◌∙◌, Text,
}
use fastapi_polyrepo_templat.Effects.{Result, ok, ◌>>◌, lift}
use fastapi_polyrepo_templat.World.{Libraries, World, App, HeaderList, Message}

-- `body` is what the request's `receive` gives.
pub record Scope : Type 0 where
  pub kind : Text
  pub method : Text
  pub path : Text
  pub headers : HeaderList
  pub body : Text

-- What an application does with a scope and the state dictionary of its request.
abbrev pub Script : Type 0 → Type 0
Script A = Scope → List (Text × Text) → A

module _ (lib : Libraries) where
  abbrev pub Send : Type 0
  Send = Message → App lib Unit

  abbrev pub Asgi : Type 0
  Asgi = Scope → Send → App lib Unit

  -- The server's own `send`.
  abbrev pub server_send : Send
  server_send message w = (ok tt, record w { sent = w.sent ++ message ∷ [] })

  unfoldable pub send_all : List Message → Send → Result (Unit {0}) → App lib Unit
  send_all [] send end = lift end
  send_all (message ∷ messages) send end =
      let rest = send_all messages send end in do send message; rest

  -- An application given by what it sends and how it ends, for each scope and state.
  unfoldable pub scripted : Script (List Message) → Script (Result (Unit {0})) → Asgi
  unfolding send_all
  scripted messages end scope send w =
      send_all (messages scope w.scope_state) send (end scope w.scope_state) w

  -- A `send` that rewrites each event before the server gets it.
  abbrev pub rewriting : (Message → Message) → Send
  rewriting f message = server_send (f message)

  pub send_all-rewriting :
      (f : Message → Message) (messages : List Message) (end : Result (Unit {0})) (w : World lib)
      → send_all messages (rewriting f) end w ≡ (end, record w { sent = w.sent ++ map f messages })
  unfolding send_all
  send_all-rewriting f [] end w = ap (λ s. (end, record w { sent = s })) (sym (append-nil w.sent))
  send_all-rewriting f (message ∷ messages) end w =
      send_all-rewriting f messages end (record w { sent = w.sent ++ f message ∷ [] })
      ∙ ap (λ s. (end, record w { sent = s }))
          (append_assoc w.sent (f message ∷ []) (map f messages))
