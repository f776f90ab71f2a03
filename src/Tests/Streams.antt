-- ===== src/Tests/Streams.antt =====
-- Calls of child loggers, and what stands on the stream.
use fastapi_polyrepo_templat.Prelude.{
  ◌≡◌, refl, ◌∙◌, true, false, leb, none, List, [], ◌∷◌, ◌++◌, Text, codes, text_eq, All,
}
use fastapi_polyrepo_templat.Effects.{os_error}
use fastapi_polyrepo_templat.World.{LogCall, LogLevel, LogValue, text, boolean, exception}
use fastapi_polyrepo_templat.Sample.{libraries, healthy}
use fastapi_polyrepo_templat.Config.{local}
use fastapi_polyrepo_templat.Logger.{level_number}
use fastapi_polyrepo_templat.Logger.LogManager.{EventDict, get, set_item, update, Structlog}
use fastapi_polyrepo_templat.Logger.ResourceFields.{StructlogContract, get-set_item}
use fastapi_polyrepo_templat.Logger.Stream.{Writers, LogManager, new_log_manager, emit_all}
use fastapi_polyrepo_templat.Logger.Stream.Lines.{
  WritersContract, read_records, records, read_records-emit_all,
}
use fastapi_polyrepo_templat.Logger.Stream.Identity.{IsIdentified, emit_all-IsIdentified}

-- The level and the time are written, and nothing else happens.
abbrev pub structlog : Structlog
structlog = record {
  merge_contextvars = λ d. d;
  add_log_level = set_item (codes "level") (text (codes "info"));
  stack_info_renderer = λ d. d;
  format_exc_info = λ d. d;
  unicode_decoder = λ d. d;
  time_stamper = λ key. set_item key (text (codes "now"));
  event_renamer = λ key d. d;
}

pub set_item-keeps :
    (key : Text) (v : LogValue) (k : Text) (d : EventDict)
    → text_eq k key ≡ false
    → get k (set_item key v d) ≡ get k d
set_item-keeps key v k d e = get-set_item k key v d ∙ rw e refl

pub structlog_contract : StructlogContract structlog
structlog_contract = record {
  add_log_level = λ k d (e, z). set_item-keeps (codes "level") (text (codes "info")) k d e;
  stack_info_renderer = λ k d e. refl;
  format_exc_info = λ k d e. refl;
  unicode_decoder = λ k d e. refl;
  time_stamper = λ key k d (e, z). set_item-keeps key (text (codes "now")) k d e;
  event_renamer = λ key k d e. refl;
}

-- structlog as it documents itself: the event is a key of the record, and lines end with a line feed.
abbrev pub writers : Writers (libraries healthy)
writers = record {
  is_enabled = λ min_level level. leb (level_number min_level) (level_number level);
  event_dict = λ bound event fields. set_item (codes "event") (text event) (update bound fields);
  processors = λ call. structlog;
  fallback = λ exc. codes "OSError()";
  write_line = λ line stream. stream ++ (line ++ 10 ∷ []);
}

writers_contract : WritersContract (libraries healthy) writers
writers_contract = record { is_enabled = λ min_level level. refl; write_line = λ line stream. refl }

abbrev manager : LogManager
manager = new_log_manager LogLevel.info local (codes "1.0") (codes "pod")

abbrev call : LogLevel → Text → LogCall (libraries healthy)
call level event = record {
  logger = codes "RedisClient";
  level = level;
  event = event;
  fields = (codes "exc_info", exception os_error) ∷ (codes "retry", boolean true) ∷ [];
  context = λ k. none;
}

-- One below the level, one with a quote and a line feed, and one with a surrogate.
abbrev calls : List (LogCall (libraries healthy))
calls =
    call LogLevel.debug (codes "quiet")
    ∷ call LogLevel.info (codes "a\"b\n")
    ∷ call LogLevel.error (55296 ∷ [])
    ∷ []

read_records-emit_all_example :
    read_records (emit_all (libraries healthy) writers manager calls [])
    ≡ records (libraries healthy) writers manager calls
read_records-emit_all_example =
    read_records-emit_all (libraries healthy) writers writers_contract manager calls

emit_all-IsIdentified_example :
    All
      (IsIdentified local (codes "1.0") (codes "pod"))
      (read_records (emit_all (libraries healthy) writers manager calls []))
emit_all-IsIdentified_example =
    emit_all-IsIdentified (libraries healthy) writers writers_contract (λ c. structlog_contract)
      LogLevel.info local (codes "1.0") (codes "pod") calls
