-- ===== src/Http/Refused.antt =====
-- A request of a flag that does not name its caller, by the headers of
-- src/app/routes/get_user_details.py.
use fastapi_polyrepo_templat.Prelude.{◌≡◌, ◌⊎◌, codes}
use fastapi_polyrepo_templat.Effects.{BaseException, request_validation_error, Result, err, ok}
use fastapi_polyrepo_templat.World.{Libraries, World, HeaderList}
use fastapi_polyrepo_templat.Asgi.{Scope}
use fastapi_polyrepo_templat.Middlewares.RequestIds.{IsUnusable}
use fastapi_polyrepo_templat.Http.Fastapi.{Fastapi, json_response}
use fastapi_polyrepo_templat.Http.Table.{tenant_id_header, user_id_header}

-- One of the two headers is not there, or blank.
abbrev pub IsUnnamed : (lib : Libraries) → HeaderList → Type 0
IsUnnamed lib headers =
    IsUnusable lib headers tenant_id_header ⊎ IsUnusable lib headers user_id_header

module _ (lib : Libraries) (fastapi : Fastapi lib) where
  -- What a request without a caller is refused with, given what parsing its body gave.
  abbrev refused : Result fastapi.Json → BaseException
  refused (ok json) = request_validation_error
  refused (err exc) = exc

  -- The refusal of a GET, and of a PUT, whose body FastAPI parses first.
  abbrev pub IsRefusal : Scope → BaseException → Type 0
  IsRefusal scope exc =
      ((scope.method ≡ codes "GET") × (exc ≡ request_validation_error))
      ⊎ ((scope.method ≡ codes "PUT") × (exc ≡ refused (fastapi.parse_body scope.body)))
