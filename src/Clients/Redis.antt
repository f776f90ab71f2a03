-- ===== src/Clients/Redis.antt =====
-- src/app/clients/redis/redis_client.py
use fastapi_polyrepo_templat.Prelude.{ℕ, Option, [], ◌∷◌, Text, codes, if◌then◌else◌}
use fastapi_polyrepo_templat.Effects.{connection_error, pure, raise, ◌>>=◌, ◌>>◌, try_except}
use fastapi_polyrepo_templat.World.{Libraries, App, log, on_cache, LogLevel, LogValue, exception}

abbrev pub logger_name : Text
logger_name = codes "RedisClient"

module _ (lib : Libraries) where
  unfoldable pub ping : App lib Unit
  ping = do
    pong ← try_except (on_cache lib lib.redis_ping) (λ exc. do
      log lib logger_name LogLevel.error (codes "redis.ping.failed")
          ((codes "exc_info", exception exc) ∷ [])
      raise exc)
    if pong then pure tt else do
      log lib logger_name LogLevel.error (codes "redis.ping.unexpected_result")
          ((codes "result", LogValue.boolean pong) ∷ [])
      raise (connection_error (codes "Redis PING did not return True."))

  unfoldable pub start : App lib Unit
  unfolding ping
  start = do
    log lib logger_name LogLevel.info (codes "redis.starting") []
    ping
    log lib logger_name LogLevel.info (codes "redis.started") []

  unfoldable pub stop : App lib Unit
  stop = do
    log lib logger_name LogLevel.info (codes "redis.stopping") []
    on_cache lib lib.redis_aclose
    log lib logger_name LogLevel.info (codes "redis.stopped") []

  -- `decode_responses` makes a present value a `str`, so nothing is converted.
  unfoldable pub get_string : Text → App lib (Option Text)
  get_string key = on_cache lib (lib.redis_get key)

  unfoldable pub set_string : Text → Text → ℕ → App lib Unit
  set_string key value ttl_seconds = on_cache lib (lib.redis_set key value ttl_seconds)
