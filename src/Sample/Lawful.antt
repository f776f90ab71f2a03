-- ===== src/Sample/Lawful.antt =====
-- The libraries in memory meet the contracts.
use fastapi_polyrepo_templat.Prelude.{
  ℕ, ◌-◌, ltb, ◌≡◌, ◌≢◌, refl, sym, ap, ◌∙◌, inl, inr, Bool, true, false, none, some, List, [], ◌∷◌,
  ◌++◌, append_assoc, append-nil, Text, text_eq_iff, length, if◌then◌else◌, arith,
}
use fastapi_polyrepo_templat.Effects.{ok, ok-injective, ok-ne-err}
use fastapi_polyrepo_templat.Models.{FeatureFlag, make_feature_flag, FeatureFlagRow}
use fastapi_polyrepo_templat.World.{PrimaryKey}
use fastapi_polyrepo_templat.Contracts.{
  RedisContract, PostgresContract, Contracts, ExpiryContract, IsUp, overlay,
}
use fastapi_polyrepo_templat.Sample.{
  Health, healthy, read_only, down, libraries, nothing, dump, parse_from, parse, bit,
}

abbrev pub redis_contract : (servers : Health) → RedisContract (libraries servers)
redis_contract healthy = record {
  stored = λ r k. r.entries k;
  get_value = λ k r v e. sym (ok-injective e);
  get_keeps = λ k r j. refl;
  set_stores = λ k v ttl r j e. refl;
  set_failed = λ k v ttl r j x e. inr refl;
}
redis_contract read_only = record {
  stored = λ r k. r.entries k;
  get_value = λ k r v e. sym (ok-injective e);
  get_keeps = λ k r j. refl;
  set_stores = λ k v ttl r j e. absurd (ok-ne-err (sym e));
  set_failed = λ k v ttl r j x e. inl refl;
}
redis_contract down = record {
  stored = λ r k. r.entries k;
  get_value = λ k r v e. absurd (ok-ne-err (sym e));
  get_keeps = λ k r j. refl;
  set_stores = λ k v ttl r j e. absurd (ok-ne-err (sym e));
  set_failed = λ k v ttl r j x e. inl refl;
}

pub overlay-append :
    (new rows : List FeatureFlagRow) (key : PrimaryKey)
    → overlay (new ++ rows) nothing key ≡ overlay new (overlay rows nothing) key
unfolding overlay
overlay-append [] rows key = refl
overlay-append (row ∷ new) rows key = ground (arith, overlay-append new rows key)

pub overlay-primary_key :
    (rows : List FeatureFlagRow) (tenant name : Text) (row : FeatureFlagRow)
    → overlay rows nothing (tenant, name) ≡ some row
    → (row.tenant_id ≡ tenant) × (row.name ≡ name)
unfolding overlay
overlay-primary_key [] tenant name row e = cc
overlay-primary_key (r ∷ rows) tenant name row e = ground (
  arith,
  text_eq_iff r.tenant_id tenant,
  text_eq_iff r.name name,
  overlay-primary_key rows tenant name row,
)

abbrev pub postgres_contract : (servers : Health) → PostgresContract (libraries servers)
postgres_contract servers = record {
  committed = λ p key. overlay p.rows nothing key;
  pending = λ p. p.pending;
  committed_key =
      λ p key row e. let (t, n) = overlay-primary_key p.rows key.0 key.1 row e in λ i. (t i, n i);
  open_committed = λ p key. refl;
  open_pending = λ p. refl;
  get_value = λ key p row n e. sym (ok-injective e);
  get_committed = λ key p k. refl;
  get_pending = λ key p. refl;
  add_committed = λ row p k. refl;
  add_pending = λ row p. refl;
  assign_committed = λ row p k. refl;
  assign_pending = λ row p. refl;
  commit_writes = λ p k e. overlay-append p.pending p.rows k;
  commit_failed = λ p k x e. absurd (ok-ne-err e);
  close_committed = λ p k. refl;
}

parse_from_lem :
    (name front : Text) (b : Bool) (at : ℕ) (user : Text)
    → parse_from (length name) front (name ++ bit b ∷ at ∷ user)
      ≡ make_feature_flag (front ++ name) b at user
unfolding parse_from
parse_from_lem [] front true at user = rw append-nil refl
parse_from_lem [] front false at user = rw append-nil refl
parse_from_lem (c ∷ name) front b at user =
    parse_from_lem name (front ++ c ∷ []) b at user
    ∙ ap (λ n. make_feature_flag n b at user) (append_assoc front (c ∷ []) name)

make_feature_flag_named :
    (name : Text) (b : Bool) (at : ℕ) (user : Text)
    → name ≢ []
    → user ≢ []
    → make_feature_flag name b at user
      ≡ ok (record { name = name; enabled = b; updated_at = at; updated_by_user_id = user })
unfolding make_feature_flag
make_feature_flag_named [] b at user n u = absurd (n refl)
make_feature_flag_named (c ∷ name) b at [] n u = absurd (u refl)
make_feature_flag_named (c ∷ name) b at (d ∷ user) n u = refl

pub parse-dump :
    (flag : FeatureFlag)
    → flag.name ≢ []
    → flag.updated_by_user_id ≢ []
    → parse (dump flag) ≡ ok flag
unfolding parse dump
parse-dump flag n u =
    parse_from_lem flag.name [] flag.enabled flag.updated_at flag.updated_by_user_id
    ∙ make_feature_flag_named flag.name flag.enabled flag.updated_at flag.updated_by_user_id n u

abbrev pub contracts : (servers : Health) → Contracts (libraries servers)
contracts servers = record {
  redis = redis_contract servers;
  postgres = postgres_contract servers;
  json = record { validate-dump = parse-dump };
}

abbrev pub expiry : ExpiryContract (libraries healthy) (contracts healthy).redis
expiry = record {
  elapse = λ n r. record {
    entries = λ k. if ltb n (r.left k) then r.entries k else none;
    left = λ k. r.left k - n;
  };
  ttl_left = λ r k. r.left k;
  elapse_stored = λ n r j. refl;
  elapse_left = λ n r j. refl;
  get_left = λ k r j. refl;
  set_left = λ k v ttl r j. inr refl;
}

pub IsUp-healthy : IsUp (libraries healthy)
IsUp-healthy = record {
  redis_get = λ k r. (r.entries k, refl);
  redis_set = λ k v ttl r. refl;
  session_get = λ key p. (overlay p.rows nothing key, refl);
  session_commit = λ p. refl;
}
