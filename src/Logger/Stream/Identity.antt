-- ===== src/Logger/Stream/Identity.antt =====
-- The identity of the process in the lines that src/app/logger/log_manager.py writes.
use fastapi_polyrepo_templat.Prelude.{
  ◌≡◌, Bool, true, false, Option, none, some, List, [], ◌∷◌, Text, codes, arith, if◌then◌else◌, All,
}
use fastapi_polyrepo_templat.Effects.{BaseException}
use fastapi_polyrepo_templat.World.{Libraries, LogCall, LogLevel, text}
use fastapi_polyrepo_templat.Config.{Environment, env_value}
use fastapi_polyrepo_templat.Logger.LogManager.{EventDict, get, app_name, process, resource_fields}
use fastapi_polyrepo_templat.Logger.ResourceFields.{StructlogContract, resource_fields_survive}
use fastapi_polyrepo_templat.Logger.Json.Values.{as_read, all_as_read}
use fastapi_polyrepo_templat.Logger.Stream.{Writers, new_log_manager, processed, emit_all}
use fastapi_polyrepo_templat.Logger.Stream.Lines.{
  WritersContract, read_records, records, is_written, read_records-emit_all,
}

pub get-all_as_read :
    (fallback : BaseException → Text) (k t : Text) (d : EventDict)
    → get k d ≡ some (text t)
    → get k (all_as_read fallback d) ≡ some (text t)
unfolding get all_as_read as_read
get-all_as_read fallback k t [] h = absurd (ground arith)
get-all_as_read fallback k t ((j, v) ∷ d) h = ground (arith, get-all_as_read fallback k t d)

-- A record that was read and that names the process.
unfoldable pub IsIdentified : Environment → Text → Text → Option EventDict → Type 0
IsIdentified env app_version hostname none = ⊥
IsIdentified env app_version hostname (some d) =
    (get (codes "env") d ≡ some (text (env_value env)))
    × (get (codes "app") d ≡ some (text app_name))
    × (get (codes "instance") d ≡ some (text hostname))
    × (get (codes "app.version") d ≡ some (text app_version))

All-if :
    {A : Type 0} (P : A → Type 0) (b : Bool) (x : A) (xs : List A)
    → P x
    → All P xs
    → All P (if b then x ∷ xs else xs)
All-if P true x xs h hs = (h, hs)
All-if P false x xs h hs = hs

module _ (lib : Libraries) (structlog : Writers lib) (contract : WritersContract lib structlog)
    (processors : (call : LogCall lib) → StructlogContract (structlog.processors call))
    (min_level : LogLevel) (env : Environment) (app_version hostname : Text) where
  processed-IsIdentified :
      (call : LogCall lib)
      → IsIdentified env app_version hostname (
          some (
            all_as_read structlog.fallback
              (processed lib structlog (new_log_manager min_level env app_version hostname) call)))
  unfolding IsIdentified processed new_log_manager
  processed-IsIdentified call =
      let bound : EventDict = (codes "context", text call.logger) ∷ [] in
      let record_of = structlog.event_dict bound call.event call.fields in
      let d =
        process (structlog.processors call) (resource_fields env hostname app_version) record_of in
      let (e, a, i, v) =
        resource_fields_survive (structlog.processors call) (processors call) env hostname
          app_version record_of in
      (
        get-all_as_read structlog.fallback (codes "env") (env_value env) d e,
        get-all_as_read structlog.fallback (codes "app") app_name d a,
        get-all_as_read structlog.fallback (codes "instance") hostname d i,
        get-all_as_read structlog.fallback (codes "app.version") app_version d v,
      )

  records-IsIdentified :
      (calls : List (LogCall lib))
      → All
          (IsIdentified env app_version hostname)
          (records lib structlog (new_log_manager min_level env app_version hostname) calls)
  unfolding records
  records-IsIdentified [] = tt
  records-IsIdentified (call ∷ calls) =
      let manager = new_log_manager min_level env app_version hostname in
      All-if (IsIdentified env app_version hostname) (is_written lib structlog manager call)
        (some (all_as_read structlog.fallback (processed lib structlog manager call)))
        (records lib structlog manager calls) (processed-IsIdentified call)
        (records-IsIdentified calls)

  -- If the filter, the writer and the processors of structlog do what they document, every line
  -- that the child loggers wrote on an empty stream is read back as a record with the manager's
  -- env, app, instance and app.version, whatever the call sites and the context variables gave
  -- for these keys.
  pub emit_all-IsIdentified :
      (calls : List (LogCall lib))
      → All (IsIdentified env app_version hostname) (
          read_records
            (emit_all lib structlog (new_log_manager min_level env app_version hostname) calls []))
  emit_all-IsIdentified calls =
      rw
        (read_records-emit_all lib structlog contract
          (new_log_manager min_level env app_version hostname) calls)
        (records-IsIdentified calls)
