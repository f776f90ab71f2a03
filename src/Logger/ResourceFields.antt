-- ===== src/Logger/ResourceFields.antt =====
-- The keys of the identity of the process in a record of src/app/logger/log_manager.py, behind
-- all processors.
use fastapi_polyrepo_templat.Prelude.{
  ◌≡◌, refl, ◌∙◌, some, List, [], ◌∷◌, false, Text, codes, text_eq, text_eq_iff, All, if◌then◌else◌,
  arith,
}
use fastapi_polyrepo_templat.World.{LogValue, text}
use fastapi_polyrepo_templat.Config.{Environment, env_value}
use fastapi_polyrepo_templat.Logger.LogManager.{
  EventDict, get, set_item, update, app_name, Structlog, resource_fields, add_resource_fields,
  process,
}

-- A processor leaves every key but some as it is.
abbrev pub Keeps : (EventDict → EventDict) → List Text → Type 0
Keeps f keys =
    (k : Text) (d : EventDict) → All (λ j. text_eq k j ≡ false) keys → get k (f d) ≡ get k d

-- The keys that structlog documents for its processors.
pub record StructlogContract (structlog : Structlog) : Type 0 where
  pub add_log_level : Keeps structlog.add_log_level (codes "level" ∷ [])
  pub stack_info_renderer :
      Keeps structlog.stack_info_renderer (codes "stack_info" ∷ codes "stack" ∷ [])
  pub format_exc_info : Keeps structlog.format_exc_info (codes "exc_info" ∷ codes "exception" ∷ [])
  pub unicode_decoder : Keeps structlog.unicode_decoder []
  pub time_stamper : (key : Text) → Keeps (structlog.time_stamper key) (key ∷ [])
  pub event_renamer : (key : Text) → Keeps (structlog.event_renamer key) (codes "event" ∷ key ∷ [])

pub get-set_item :
    (k j : Text) (v : LogValue) (d : EventDict)
    → get k (set_item j v d) ≡ (if text_eq k j then some v else get k d)
unfolding get set_item
get-set_item k j v [] = ground arith
get-set_item k j v ((i, u) ∷ d) =
    ground (arith, get-set_item k j v d, text_eq_iff k j, text_eq_iff k i, text_eq_iff j i)

-- The key is none of those that the later processors write.
abbrev pub IsFree : Text → Type 0
IsFree k =
    (text_eq k (codes "level") ≡ false)
    × (text_eq k (codes "stack_info") ≡ false)
    × (text_eq k (codes "stack") ≡ false)
    × (text_eq k (codes "exc_info") ≡ false)
    × (text_eq k (codes "exception") ≡ false)
    × (text_eq k (codes "ts") ≡ false)
    × (text_eq k (codes "event") ≡ false)
    × (text_eq k (codes "msg") ≡ false)

pub get-add_resource_fields :
    (k : Text) (env : Environment) (hostname app_version : Text) (d : EventDict)
    → get k (add_resource_fields (resource_fields env hostname app_version) d) ≡ (
        if text_eq k (codes "app.version")
        then some (text app_version)
        else (if text_eq k (codes "instance")
            then some (text hostname)
            else (if text_eq k (codes "app")
                then some (text app_name)
                else (if text_eq k (codes "env") then some (text (env_value env)) else get k d))))
unfolding add_resource_fields update resource_fields
get-add_resource_fields k env hostname app_version d =
    rw (get-set_item, get-set_item, get-set_item, get-set_item) refl

-- No later processor changes a key that is none of theirs.
pub get-process :
    (structlog : Structlog) (contract : StructlogContract structlog) (fields event_dict : EventDict)
    (k : Text)
    → IsFree k
    → get k (process structlog fields event_dict)
      ≡ get k (add_resource_fields fields (structlog.merge_contextvars event_dict))
unfolding process
get-process structlog contract fields event_dict k
      (level, stack_info, stack, exc_info, exc, ts, event, msg) =
    contract.event_renamer (codes "msg") k _ (event, (msg, tt))
    ∙ contract.time_stamper (codes "ts") k _ (ts, tt)
    ∙ contract.unicode_decoder k _ tt
    ∙ contract.format_exc_info k _ (exc_info, (exc, tt))
    ∙ contract.stack_info_renderer k _ (stack_info, (stack, tt))
    ∙ contract.add_log_level k _ (level, tt)

-- If the processors of structlog change only their own keys, the record that is rendered has the
-- manager's env, app, instance and app.version, even if the call site or a context variable gave
-- a value for one of these keys.
pub resource_fields_survive :
    (structlog : Structlog) (contract : StructlogContract structlog) (env : Environment)
    (hostname app_version : Text) (event_dict : EventDict)
    → (get (codes "env") (process structlog (resource_fields env hostname app_version) event_dict)
        ≡ some (text (env_value env)))
      × (get (codes "app") (process structlog (resource_fields env hostname app_version) event_dict)
          ≡ some (text app_name))
      × (get
            (codes "instance")
            (process structlog (resource_fields env hostname app_version) event_dict)
          ≡ some (text hostname))
      × (get
            (codes "app.version")
            (process structlog (resource_fields env hostname app_version) event_dict)
          ≡ some (text app_version))
unfolding text_eq
resource_fields_survive structlog contract env hostname app_version event_dict =
    let fields = resource_fields env hostname app_version in
    let d = structlog.merge_contextvars event_dict in
    (
      get-process structlog contract fields event_dict (codes "env")
            (refl, refl, refl, refl, refl, refl, refl, refl)
          ∙ get-add_resource_fields (codes "env") env hostname app_version d,
      get-process structlog contract fields event_dict (codes "app")
            (refl, refl, refl, refl, refl, refl, refl, refl)
          ∙ get-add_resource_fields (codes "app") env hostname app_version d,
      get-process structlog contract fields event_dict (codes "instance")
            (refl, refl, refl, refl, refl, refl, refl, refl)
          ∙ get-add_resource_fields (codes "instance") env hostname app_version d,
      get-process structlog contract fields event_dict (codes "app.version")
            (refl, refl, refl, refl, refl, refl, refl, refl)
          ∙ get-add_resource_fields (codes "app.version") env hostname app_version d,
    )
