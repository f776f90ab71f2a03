-- ===== src/Logger/Stream.antt =====
-- src/app/logger/log_manager.py: from a call of a child logger to bytes on the stream. structlog's
-- bound logger, its filter, its processors and `BytesLogger` are parameters.
pub mod Encoded
pub mod Lines
pub mod Identity
use fastapi_polyrepo_templat.Prelude.{
  ℕ, ltb, leb, ◌&&◌, ◌||◌, Bool, true, false, List, [], ◌∷◌, Text, codes, if◌then◌else◌,
}
use fastapi_polyrepo_templat.Effects.{BaseException, value_error, Result, ok, err, and_then}
use fastapi_polyrepo_templat.World.{Libraries, LogCall, LogLevel, LogValue, text}
use fastapi_polyrepo_templat.Utf8.{encode}
use fastapi_polyrepo_templat.Config.{Environment}
use fastapi_polyrepo_templat.Logger.LogManager.{
  EventDict, Structlog, logger_name_key, resource_fields, process,
}
use fastapi_polyrepo_templat.Logger.Json.{dumps}

-- A Python character that UTF-8 has: a code point that is no surrogate.
unfoldable pub is_encodable : ℕ → Bool
is_encodable c = ltb c 55296 || (leb 57344 c && ltb c 1114112)

unfoldable pub all_encodable : Text → Bool
unfolding is_encodable
all_encodable [] = true
all_encodable (c ∷ s) = is_encodable c && all_encodable s

-- `LogManager._serialize`. A surrogate makes `str.encode` raise a UnicodeEncodeError, which is a
-- ValueError.
unfoldable pub serialize : (BaseException → Text) → EventDict → Result (List ℕ)
unfolding dumps encode all_encodable
serialize fallback event_dict =
    let s = dumps fallback event_dict in
    if all_encodable s then ok (encode s) else err (value_error (codes "surrogates not allowed"))

-- What structlog brings besides the processors. `processors` are those at a call: they read its
-- context variables, its method and the clock.
pub record Writers (lib : Libraries) : Type 0 where
  -- Whether the class of `make_filtering_bound_logger(min_level)` lets a call of the method pass.
  pub is_enabled : LogLevel → LogLevel → Bool
  -- The record of a logger that is bound to the first fields, called with an event and keywords.
  pub event_dict : EventDict → Text → EventDict → EventDict
  pub processors : LogCall lib → Structlog
  -- JSONRenderer's text of a value that json cannot print
  pub fallback : BaseException → Text
  -- `BytesLogger.msg`: what stands on the stream after it
  pub write_line : List ℕ → List ℕ → List ℕ

-- What a LogManager keeps of its arguments.
pub record LogManager : Type 0 where
  pub min_level : LogLevel
  pub resource : EventDict

-- `LogManager.__init__`, given the host's name
unfoldable pub new_log_manager : LogLevel → Environment → Text → Text → LogManager
unfolding resource_fields
new_log_manager min_level env app_version hostname = record {
  min_level = min_level;
  resource = resource_fields env hostname app_version;
}

module _ (lib : Libraries) (structlog : Writers lib) (manager : LogManager) where
  -- The record of a call, in front of the renderer. `get_child_logger` binds its name to `context`.
  unfoldable pub processed : LogCall lib → EventDict
  unfolding process
  processed call =
      process (structlog.processors call) manager.resource
        (structlog.event_dict ((logger_name_key, text call.logger) ∷ []) call.event call.fields)

  -- A call of a child logger: its outcome and what stands on the stream after it.
  unfoldable pub emit : LogCall lib → List ℕ → Result (Unit {0}) × List ℕ
  unfolding processed serialize
  emit call stream =
      if structlog.is_enabled manager.min_level call.level
      then and_then (serialize structlog.fallback (processed call), stream)
          (λ line s. (ok tt, structlog.write_line line s))
      else (ok tt, stream)

  -- The stream after calls, whatever became of what they raised.
  unfoldable pub emit_all : List (LogCall lib) → List ℕ → List ℕ
  unfolding emit
  emit_all [] stream = stream
  emit_all (call ∷ calls) stream = emit_all calls (emit call stream).1
