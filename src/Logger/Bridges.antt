-- ===== src/Logger/Bridges.antt =====
-- The bridges of src/app/logger: what reaches the log from uvicorn, and at which level.
use fastapi_polyrepo_templat.Prelude.{
  ℕ, ◌≤◌, ◌≡◌, ◌↔◌, ◌⊎◌, inl, inr, refl, Bool, true, false, Option, [], ◌∷◌, ◌++◌, Text, codes,
  starts_with, starts_with_iff, arith,
}
use fastapi_polyrepo_templat.Effects.{BaseException, ok}
use fastapi_polyrepo_templat.World.{Libraries, World, App, LogLevel}
use fastapi_polyrepo_templat.Logger.{
  level_number, structlog_method_for_level, extra, asgi_exception_prefix, emit,
  asgi_exception_filter, uvicorn_error,
}

-- The level of a bridged record reaches a minimum level exactly if its own number does, or if
-- that minimum is debug.
pub structlog_method_for_level_iff :
    (minimum : LogLevel) (levelno : ℕ)
    → (level_number minimum ≤ level_number (structlog_method_for_level levelno))
      ↔ ((level_number minimum ≤ levelno) ⊎ (minimum ≡ LogLevel.debug))
unfolding level_number structlog_method_for_level
structlog_method_for_level_iff LogLevel.debug levelno = (λ h. inr refl, λ h. ground arith)
structlog_method_for_level_iff LogLevel.info levelno = ground arith
structlog_method_for_level_iff LogLevel.warning levelno = ground arith
structlog_method_for_level_iff LogLevel.error levelno = ground arith
structlog_method_for_level_iff LogLevel.critical levelno = ground arith

module _ (lib : Libraries) (handle_error : App lib Unit) where
  -- A record of uvicorn.error whose message can be formatted is dropped if its message starts as
  -- the report of an exception in the ASGI application; every other one is logged once, on the
  -- uvicorn child, at its level.
  pub uvicorn_error_lem :
      (levelno : ℕ) (message : Text) (exc_info : Option BaseException) (w : World lib)
      → (((rest : Text) × (message ≡ asgi_exception_prefix ++ rest))
          × (uvicorn_error lib handle_error
                (record { levelno = levelno; message = ok message; exc_info = exc_info })
                w
              ≡ (ok tt, w)))
        ⊎ ((¬ ((rest : Text) × (message ≡ asgi_exception_prefix ++ rest)))
            × (uvicorn_error lib handle_error
                  (record { levelno = levelno; message = ok message; exc_info = exc_info })
                  w
                ≡ (
                  ok tt,
                  record w {
                    log =
                        w.log
                        ++ record {
                          logger = codes "uvicorn";
                          level = structlog_method_for_level levelno;
                          event = message;
                          fields = extra exc_info;
                          context = w.context;
                        }
                          ∷ [];
                  },
                )))
  unfolding uvicorn_error emit asgi_exception_filter
  uvicorn_error_lem levelno message exc_info w =
      by_start (starts_with asgi_exception_prefix message) refl
    where
      by_start :
          (b : Bool)
          → starts_with asgi_exception_prefix message ≡ b
          → (((rest : Text) × (message ≡ asgi_exception_prefix ++ rest))
              × (uvicorn_error lib handle_error
                    (record { levelno = levelno; message = ok message; exc_info = exc_info })
                    w
                  ≡ (ok tt, w)))
            ⊎ ((¬ ((rest : Text) × (message ≡ asgi_exception_prefix ++ rest)))
                × (uvicorn_error lib handle_error
                      (record { levelno = levelno; message = ok message; exc_info = exc_info })
                      w
                    ≡ (
                      ok tt,
                      record w {
                        log =
                            w.log
                            ++ record {
                              logger = codes "uvicorn";
                              level = structlog_method_for_level levelno;
                              event = message;
                              fields = extra exc_info;
                              context = w.context;
                            }
                              ∷ [];
                      },
                    )))
      by_start true e = inl ((starts_with_iff asgi_exception_prefix message).0 e, rw e refl)
      by_start false e = inr (
        λ starts. ground (arith, (starts_with_iff asgi_exception_prefix message).1 starts),
        rw e refl,
      )
