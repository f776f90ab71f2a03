-- ===== src/Migrations/CreateFeatureFlags.antt =====
-- src/alembic/versions/04befa978a2d_create_feature_flags.py, and the columns that
-- src/src/app/clients/postgres/feature_flag_table.py maps.
use fastapi_polyrepo_templat.Prelude.{true, false, none, some, List, [], ◌∷◌, Text, Option, codes}
use fastapi_polyrepo_templat.Effects.{Exec}
use fastapi_polyrepo_templat.Migrations.{
  text_type, boolean_type, datetime_type, Table, MappedColumn, Operations,
}

abbrev pub revision : Text
revision = codes "04befa978a2d"

abbrev pub down_revision : Option Text
down_revision = none

-- The arguments of `op.create_table` in `upgrade`.
unfoldable pub created_table : Table
created_table = record {
  name = codes "feature_flags";
  columns =
      record { name = codes "tenant_id"; column_type = text_type; nullable = false }
      ∷ record { name = codes "name"; column_type = text_type; nullable = false }
      ∷ record { name = codes "value"; column_type = boolean_type; nullable = false }
      ∷ record { name = codes "updated_at"; column_type = datetime_type true; nullable = false }
      ∷ record { name = codes "updated_by_user_id"; column_type = text_type; nullable = false }
      ∷ [];
  primary_key = codes "tenant_id" ∷ codes "name" ∷ [];
}

module _ (op : Operations) where
  unfoldable pub upgrade : Exec op.Database (Unit {0})
  unfolding created_table
  upgrade = op.create_table created_table

  unfoldable pub downgrade : Exec op.Database (Unit {0})
  downgrade = op.drop_table (codes "feature_flags")

-- `FeatureFlagRow.__tablename__`
abbrev pub tablename : Text
tablename = codes "feature_flags"

-- The `mapped_column` calls of FeatureFlagRow.
unfoldable pub mapped_columns : List MappedColumn
mapped_columns =
    record {
      name = codes "tenant_id";
      column_type = text_type;
      admits_none = false;
      primary_key = true;
      nullable = none;
    }
    ∷ record {
      name = codes "name";
      column_type = text_type;
      admits_none = false;
      primary_key = true;
      nullable = none;
    }
    ∷ record {
      name = codes "value";
      column_type = boolean_type;
      admits_none = false;
      primary_key = false;
      nullable = some false;
    }
    ∷ record {
      name = codes "updated_at";
      column_type = datetime_type true;
      admits_none = false;
      primary_key = false;
      nullable = some false;
    }
    ∷ record {
      name = codes "updated_by_user_id";
      column_type = text_type;
      admits_none = false;
      primary_key = false;
      nullable = some false;
    }
    ∷ []
