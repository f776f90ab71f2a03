-- ===== src/Config/Credentials.antt =====
-- src/app/config/postgres_config.py and redis_config.py: the connection URLs. pydantic's `build`
-- is a parameter.
use fastapi_polyrepo_templat.Prelude.{
  ℕ, ◌≡◌, refl, sym, ◌∙◌, Option, none, some, ◌∷◌, ◌++◌, Text, codes, str, All, is_empty,
  if◌then◌else◌, append-cancel, arith, false,
}
use fastapi_polyrepo_templat.Config.{
  RedisConfig, PostgresConfig, SslMode, disable, require, verify_full,
}
use fastapi_polyrepo_templat.Utf8.{IsCodePoint}
use fastapi_polyrepo_templat.Config.Quote.{
  quote, is_unreserved, quote-injective, quote-IsQuoted, IsQuoted-split,
}

-- The arguments of `PostgresDsn.build` and `RedisDsn.build`.
pub record DsnParts : Type 0 where
  pub scheme : Text
  pub host : Text
  pub port : ℕ
  pub path : Text
  pub username : Option Text
  pub password : Option Text
  pub query : Option Text

ssl_mode_text : SslMode → Text
ssl_mode_text disable = codes "disable"
ssl_mode_text require = codes "require"
ssl_mode_text verify_full = codes "verify-full"

unfoldable pub postgres_dsn_parts : PostgresConfig → DsnParts
unfolding ssl_mode_text
postgres_dsn_parts postgres = record {
  scheme = codes "postgresql+psycopg";
  host = postgres.host;
  port = postgres.port;
  path = postgres.database;
  username = some (quote postgres.user);
  password = some (quote postgres.password);
  query = some (codes "sslmode=" ++ ssl_mode_text postgres.ssl_mode);
}

-- No password, or an empty one, leaves the credentials out.
quoted_password : Option Text → Option Text
unfolding is_empty
quoted_password none = none
quoted_password (some password) = if is_empty password then none else some (quote password)

unfoldable pub redis_dsn_parts : RedisConfig → DsnParts
unfolding quoted_password
redis_dsn_parts redis = record {
  scheme = if redis.use_tls then codes "rediss" else codes "redis";
  host = redis.host;
  port = redis.port;
  path = str redis.db;
  username = none;
  password = quoted_password redis.password;
  query = none;
}

-- The documented form of a URL with credentials; the part behind the `@` does not depend on them.
pub record DsnContract (build : DsnParts → Text) : Type 0 where
  pub location : Text → ℕ → Text → Option Text → Text
  pub build_lem :
      (scheme host path username password : Text) (port : ℕ) (query : Option Text)
      → build (record {
        scheme = scheme;
        host = host;
        port = port;
        path = path;
        username = some username;
        password = some password;
        query = query;
      })
        ≡ scheme
          ++ (codes "://"
              ++ (username ++ b':' ∷ (password ++ b'@' ∷ location host port path query)))

colon_separates : (is_unreserved b':' ≡ false) × (is_unreserved b'@' ≡ false)
unfolding is_unreserved
colon_separates = (refl, refl)

-- If the URL has its documented form and the user names and passwords are code points, two
-- configurations with the same URL have the same user and the same password, and the part of the
-- URL behind the credentials is the same.
pub postgres_dsn-injective :
    (build : DsnParts → Text) (contract : DsnContract build) (p q : PostgresConfig)
    → All IsCodePoint p.user
    → All IsCodePoint q.user
    → All IsCodePoint p.password
    → All IsCodePoint q.password
    → build (postgres_dsn_parts p) ≡ build (postgres_dsn_parts q)
    → (p.user ≡ q.user)
      × (p.password ≡ q.password)
      × (contract.location p.host p.port p.database (postgres_dsn_parts p).query
          ≡ contract.location q.host q.port q.database (postgres_dsn_parts q).query)
unfolding postgres_dsn_parts
postgres_dsn-injective build contract p q pu qu pp qp e =
    let at : Text × Text = (
      contract.location p.host p.port p.database (postgres_dsn_parts p).query,
      contract.location q.host q.port q.database (postgres_dsn_parts q).query,
    ) in
    let urls =
      sym (
        contract.build_lem (codes "postgresql+psycopg") p.host p.database (quote p.user)
          (quote p.password) p.port (postgres_dsn_parts p).query)
      ∙ e
      ∙ contract.build_lem (codes "postgresql+psycopg") q.host q.database (quote q.user)
          (quote q.password) q.port (postgres_dsn_parts q).query in
    let credentials =
      (append-cancel (codes "postgresql+psycopg://") (codes "postgresql+psycopg://") refl urls).1 in
    let (user, behind) =
      IsQuoted-split b':' (quote p.user) (quote q.user) (quote p.password ++ b'@' ∷ at.0)
        (quote q.password ++ b'@' ∷ at.1) colon_separates.0 (λ z. ground arith)
        (quote-IsQuoted p.user pu) (quote-IsQuoted q.user qu) credentials in
    let (password, location) =
      IsQuoted-split b'@' (quote p.password) (quote q.password) at.0 at.1 colon_separates.1
        (λ z. ground arith) (quote-IsQuoted p.password pp) (quote-IsQuoted q.password qp) behind in
    (
      quote-injective p.user q.user pu qu user,
      quote-injective p.password q.password pp qp password,
      location,
    )
