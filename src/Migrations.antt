-- ===== src/Migrations.antt =====
-- src/alembic: the schema of a table, the revision that creates it, the ORM's view of it and the
-- environment that runs revisions. Alembic, SQLAlchemy and PostgreSQL are parameters.
pub mod CreateFeatureFlags
pub mod SameSchema
pub mod Env
pub mod Resources
pub mod Modes
use fastapi_polyrepo_templat.Prelude.{Bool, Option, List, Text, text_eq}
use fastapi_polyrepo_templat.Effects.{Exec}

-- `sa.Text()`, `sa.Boolean()` and `sa.DateTime(timezone=…)`
pub data ColumnType : Type 0 where
  text_type boolean_type : ColumnType
  datetime_type : Bool → ColumnType

pub record Column : Type 0 where
  pub name : Text
  pub column_type : ColumnType
  pub nullable : Bool

pub record Table : Type 0 where
  pub name : Text
  pub columns : List Column
  pub primary_key : List Text

-- The arguments of `mapped_column`, and whether its `Mapped[…]` annotation admits `None`.
pub record MappedColumn : Type 0 where
  pub name : Text
  pub column_type : ColumnType
  pub admits_none : Bool
  pub primary_key : Bool
  pub nullable : Option Bool

-- `alembic.op` on a database. `table` is what a reflection finds under a name.
pub record Operations : Type 1 where
  pub Database : Type 0
  pub table : Text → Database → Option Table
  pub create_table : Table → Exec Database (Unit {0})
  pub drop_table : Text → Exec Database (Unit {0})
