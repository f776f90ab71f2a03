-- ===== src/Logger/LogManager.antt =====
-- src/app/logger/log_manager.py: the chain of processors of a record. Those of structlog are a
-- parameter. `LogManager.get_child_logger` and `flush` are with the lifecycle that calls them.
use fastapi_polyrepo_templat.Prelude.{
  Option, none, some, List, [], ◌∷◌, Text, codes, text_eq, if◌then◌else◌,
}
use fastapi_polyrepo_templat.World.{LogValue, text}
use fastapi_polyrepo_templat.Config.{Environment, env_value}

-- A dictionary in insertion order.
abbrev pub EventDict : Type 0
EventDict = List (Text × LogValue)

unfoldable pub get : Text → EventDict → Option LogValue
get k [] = none
get k ((j, v) ∷ d) = let rest = get k d in if text_eq k j then some v else rest

-- `d[k] = v`
unfoldable pub set_item : Text → LogValue → EventDict → EventDict
set_item k v [] = (k, v) ∷ []
set_item k v ((j, u) ∷ d) =
    let rest = set_item k v d in if text_eq k j then (j, v) ∷ d else (j, u) ∷ rest

-- `d.update(fields)`
unfoldable pub update : EventDict → EventDict → EventDict
unfolding set_item
update d [] = d
update d ((k, v) ∷ fields) = update (set_item k v d) fields

abbrev pub app_name : Text
app_name = codes "fastapi-polyrepo-template"

-- The keys that the pipeline writes.
abbrev pub timestamp_key : Text
timestamp_key = codes "ts"

abbrev pub message_key : Text
message_key = codes "msg"

abbrev pub logger_name_key : Text
logger_name_key = codes "context"

abbrev pub env_key : Text
env_key = codes "env"

abbrev pub app_key : Text
app_key = codes "app"

abbrev pub instance_key : Text
instance_key = codes "instance"

abbrev pub app_version_key : Text
app_version_key = codes "app.version"

-- The processors that structlog brings.
pub record Structlog : Type 0 where
  pub merge_contextvars : EventDict → EventDict
  pub add_log_level : EventDict → EventDict
  pub stack_info_renderer : EventDict → EventDict
  pub format_exc_info : EventDict → EventDict
  pub unicode_decoder : EventDict → EventDict
  pub time_stamper : Text → EventDict → EventDict
  pub event_renamer : Text → EventDict → EventDict

-- `_resource_fields`
unfoldable pub resource_fields : Environment → Text → Text → EventDict
resource_fields env hostname app_version =
    (env_key, text (env_value env))
    ∷ (app_key, text app_name)
    ∷ (instance_key, text hostname)
    ∷ (app_version_key, text app_version)
    ∷ []

unfoldable pub add_resource_fields : EventDict → EventDict → EventDict
unfolding update
add_resource_fields fields event_dict = update event_dict fields

-- The processors in front of the renderer, in their order.
unfoldable pub process : Structlog → EventDict → EventDict → EventDict
unfolding add_resource_fields
process structlog fields event_dict = structlog.event_renamer message_key (
    structlog.time_stamper timestamp_key (
      structlog.unicode_decoder (
        structlog.format_exc_info (
          structlog.stack_info_renderer (
            structlog.add_log_level
              (add_resource_fields fields (structlog.merge_contextvars event_dict)))))))
