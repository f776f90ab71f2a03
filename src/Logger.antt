-- ===== src/Logger.antt =====
-- src/app/logger: the bridges from uvicorn, the interpreter and asyncio, and the processors.
pub mod Json
pub mod LogManager
pub mod ResourceFields
pub mod Stream
pub mod Bridges
use fastapi_polyrepo_templat.Prelude.{
  ℕ, ◌≤◌, ◌≡◌, Bool, true, false, not, leb, Option, none, some, List, [], ◌∷◌, Text, codes,
  starts_with, if◌then◌else◌,
}
use fastapi_polyrepo_templat.Effects.{
  BaseException, recursion_error, keyboard_interrupt, system_exit, Result, lift, pure, raise,
  try_except, ◌>>=◌, ◌>>◌,
}
use fastapi_polyrepo_templat.World.{
  Libraries, World, App, log, LogLevel, LogValue, exception, text, null,
}

-- `logging`'s numbers, and structlog's
unfoldable pub level_number : LogLevel → ℕ
level_number LogLevel.debug = 10
level_number LogLevel.info = 20
level_number LogLevel.warning = 30
level_number LogLevel.error = 40
level_number LogLevel.critical = 50

-- `_structlog_method_for_level`
unfoldable pub structlog_method_for_level : ℕ → LogLevel
structlog_method_for_level levelno =
    if leb 50 levelno
    then LogLevel.critical
    else (if leb 40 levelno
        then LogLevel.error
        else (if leb 30 levelno
            then LogLevel.warning
            else (if leb 20 levelno then LogLevel.info else LogLevel.debug)))

-- `message` is what `getMessage()` gives or raises.
pub record LogRecord : Type 0 where
  pub levelno : ℕ
  pub message : Result Text
  pub exc_info : Option BaseException

unfoldable pub extra : Option BaseException → List (Text × LogValue)
extra none = []
extra (some exc) = (codes "exc_info", exception exc) ∷ []

is_recursion_error : BaseException → Bool
is_recursion_error recursion_error = true
is_recursion_error _ = false

abbrev pub asgi_exception_prefix : Text
asgi_exception_prefix = codes "Exception in ASGI application"

is_interrupt : BaseException → Bool
is_interrupt keyboard_interrupt = true
is_interrupt system_exit = true
is_interrupt _ = false

text_or_null : Option Text → LogValue
text_or_null none = null
text_or_null (some message) = text message

module _ (lib : Libraries) where
  -- `UvicornLogHandler.emit`, with the child logger's name; `handle_error` is `logging`'s own.
  unfoldable pub emit : App lib Unit → Text → LogRecord → App lib Unit
  unfolding structlog_method_for_level extra is_recursion_error
  emit handle_error logger record_ =
      try_except
        (do
          message ← lift record_.message
          log lib logger (structlog_method_for_level record_.levelno) message
              (extra record_.exc_info))
        (λ exc. if is_recursion_error exc then raise exc else handle_error)

  -- `UvicornAsgiExceptionFilter.filter`
  unfoldable pub asgi_exception_filter : LogRecord → App lib Bool
  asgi_exception_filter record_ = do
    message ← lift record_.message
    pure (not (starts_with asgi_exception_prefix message))

  -- A record of `uvicorn.error`, once the filter and the handler are installed.
  unfoldable pub uvicorn_error : App lib Unit → LogRecord → App lib Unit
  unfolding emit asgi_exception_filter
  uvicorn_error handle_error record_ = do
    kept ← asgi_exception_filter record_
    if kept then emit handle_error (codes "uvicorn") record_ else pure tt

  -- The hook of `make_sys_excepthook`.
  unfoldable pub sys_excepthook : (BaseException → App lib Unit) → BaseException → App lib Unit
  unfolding is_interrupt
  sys_excepthook fallback exc =
      if is_interrupt exc
      then fallback exc
      else log lib (codes "sys.excepthook") LogLevel.error (codes "process.unhandled_exception")
          ((codes "exc_info", exception exc) ∷ [])

  -- The handler of `make_asyncio_exception_handler`, on the context's exception and its message.
  unfoldable pub asyncio_exception_handler : Option BaseException → Option Text → App lib Unit
  unfolding text_or_null
  asyncio_exception_handler (some exc) message =
      log lib (codes "asyncio") LogLevel.error (codes "asyncio.unhandled_exception")
        ((codes "exc_info", exception exc) ∷ [])
  asyncio_exception_handler none message =
      log lib (codes "asyncio") LogLevel.error (codes "asyncio.unhandled_exception")
        ((codes "asyncio_message", text_or_null message) ∷ [])
