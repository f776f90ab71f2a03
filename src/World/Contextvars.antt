-- ===== src/World/Contextvars.antt =====
-- The names of `bound_contextvars`, inside and afterwards.
use fastapi_polyrepo_templat.Prelude.{◌≡◌, ◌∙◌, List, [], ◌∷◌, Option, none, some, Text, arith}
use fastapi_polyrepo_templat.World.{Libraries, World, App, bound_contextvars}
use fastapi_polyrepo_templat.Contracts.{ContextContract, find, restore}

pub restore_bound :
    (k v : Text) (pairs : List (Text × Text)) (before after : Option Text)
    → find k pairs none ≡ some v
    → restore k pairs before after ≡ before
restore_bound k v [] before after e = ground arith
restore_bound k v ((j, u) ∷ pairs) before after e =
    ground (arith, restore_bound k v pairs before after)

module _ (lib : Libraries) (context : ContextContract lib) where
  -- Whatever the body does, and whether it returns or raises.
  pub bound_contextvars_restores :
      {A : Type 0} (pairs : List (Text × Text)) (body : App lib A) (w : World lib) (k v : Text)
      → find k pairs none ≡ some v
      → lib.context_get (bound_contextvars lib pairs body w).1.context k
        ≡ lib.context_get w.context k
  bound_contextvars_restores pairs body w k v e =
      context.get-reset w.context pairs
        (body (record w { context = lib.bind_contextvars pairs w.context })).1.context k
      ∙ restore_bound k v pairs _ _ e
