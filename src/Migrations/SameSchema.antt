-- ===== src/Migrations/SameSchema.antt =====
-- What the revision of src/alembic/versions does to a database, beside the table of FeatureFlagRow.
use fastapi_polyrepo_templat.Prelude.{
  ◌≡◌, refl, ◌∙◌, Bool, false, none, some, List, [], ◌∷◌, ◌||◌, not, ◌&&◌, Text, text_eq,
  text_eq_iff, text_eq_refl, sym, ap, Bool-cases, inl, inr, if◌then◌else◌,
}
use fastapi_polyrepo_templat.Effects.{BaseException, ok, err}
use fastapi_polyrepo_templat.Migrations.{Column, Table, MappedColumn, Operations}
use fastapi_polyrepo_templat.Migrations.CreateFeatureFlags.{
  created_table, upgrade, downgrade, tablename, mapped_columns,
}

abbrev has_name : Text → List Text → Bool
has_name n [] = false
has_name n (m ∷ names) = text_eq n m || has_name n names

-- A column of a primary key is NOT NULL in PostgreSQL, whatever its definition says.
unfoldable pub stored_columns : List Text → List Column → List Column
stored_columns key [] = []
stored_columns key (c ∷ columns) =
    record c { nullable = c.nullable && not (has_name c.name key) } ∷ stored_columns key columns

unfoldable pub stored : Table → Table
unfolding stored_columns
stored t = record t { columns = stored_columns t.primary_key t.columns }

-- What PostgreSQL documents of CREATE TABLE and DROP TABLE: each fails if there is, or is not,
-- such a table, and changes this table alone.
pub record OperationsContract (op : Operations) : Type 0 where
  pub created :
      (t : Table) (db : op.Database)
      → op.table t.name db ≡ none
      → ((op.create_table t db).0 ≡ ok tt)
        × ((n : Text)
            → op.table n (op.create_table t db).1
              ≡ (if text_eq n t.name then some (stored t) else op.table n db))
  pub create_present :
      (t u : Table) (db : op.Database)
      → op.table t.name db ≡ some u
      → (exc : BaseException) × (op.create_table t db ≡ (err exc, db))
  pub dropped :
      (n : Text) (t : Table) (db : op.Database)
      → op.table n db ≡ some t
      → ((op.drop_table n db).0 ≡ ok tt)
        × ((m : Text)
            → op.table m (op.drop_table n db).1 ≡ (if text_eq m n then none else op.table m db))

-- What SQLAlchemy documents of a declarative class: a column's `nullable` is the one that is given,
-- else false in a primary key, else what the annotation says.
abbrev is_nullable : MappedColumn → Bool
is_nullable c = elim c.nullable [
  | some given ↦ given
  | none ↦ if c.primary_key then false else c.admits_none
]

pub declared : List MappedColumn → List Column
declared [] = []
declared (c ∷ columns) =
    record { name = c.name; column_type = c.column_type; nullable = is_nullable c }
    ∷ declared columns

pub declared_key : List MappedColumn → List Text
declared_key [] = []
declared_key (c ∷ columns) =
    let rest = declared_key columns in if c.primary_key then c.name ∷ rest else rest

unfoldable pub DeclarativeContract : (Text → List MappedColumn → Table) → Type 0
unfolding declared declared_key
DeclarativeContract declarative =
    (name : Text) (columns : List MappedColumn)
    → declarative name columns
      ≡ record { name = name; columns = declared columns; primary_key = declared_key columns }

-- If PostgreSQL and SQLAlchemy do what they document, then on a database without the table the
-- upgrade succeeds, and a reflection finds the table that FeatureFlagRow maps, and under every
-- other name what it found before.
pub upgrade-same_as_orm :
    (op : Operations) (contract : OperationsContract op)
    (declarative : Text → List MappedColumn → Table) (sqlalchemy : DeclarativeContract declarative)
    (db : op.Database)
    → op.table tablename db ≡ none
    → ((upgrade op db).0 ≡ ok tt)
      × ((n : Text)
          → op.table n (upgrade op db).1 ≡ (
              if text_eq n tablename
              then some (declarative tablename mapped_columns)
              else op.table n db))
unfolding upgrade created_table DeclarativeContract declared declared_key mapped_columns stored
    stored_columns text_eq
upgrade-same_as_orm op contract declarative sqlalchemy db absent =
    let (succeeds, tables) = contract.created created_table db absent in
    (succeeds, λ n. tables n ∙ rw (sqlalchemy tablename mapped_columns) refl)

upgraded_tables :
    (op : Operations) (contract : OperationsContract op) (db : op.Database)
    → op.table tablename db ≡ none
    → (n : Text)
    → op.table n (upgrade op db).1
      ≡ (if text_eq n tablename then some (stored created_table) else op.table n db)
unfolding upgrade created_table
upgraded_tables op contract db absent = (contract.created created_table db absent).1

restored :
    (op : Operations) (before after : op.Database) (n : Text)
    → op.table tablename before ≡ none
    → op.table n after
      ≡ (if text_eq n tablename then some (stored created_table) else op.table n before)
    → (if text_eq n tablename then none else op.table n after) ≡ op.table n before
restored op before after n absent e = elim (Bool-cases (text_eq n tablename)) [
  | inl same ↦
      rw same (sym absent ∙ ap (λ m. op.table m before) (sym ((text_eq_iff n tablename).0 same)))
  | inr other ↦ rw other (e ∙ rw other refl)
]

-- If PostgreSQL does what it documents, then after an upgrade of a database without the table the
-- downgrade succeeds and a reflection finds what it found before the upgrade; and a second
-- upgrade fails and changes nothing.
pub downgrade-upgrade :
    (op : Operations) (contract : OperationsContract op) (db : op.Database)
    → op.table tablename db ≡ none
    → (((downgrade op (upgrade op db).1).0 ≡ ok tt)
        × ((n : Text) → op.table n (downgrade op (upgrade op db).1).1 ≡ op.table n db))
      × ((exc : BaseException) × (upgrade op (upgrade op db).1 ≡ (err exc, (upgrade op db).1)))
unfolding upgrade downgrade
downgrade-upgrade op contract db absent =
    let after = (upgrade op db).1 in
    let tables = upgraded_tables op contract db absent in
    let present : op.table tablename after ≡ some (stored created_table) =
      tables tablename ∙ rw (text_eq_refl tablename) refl in
    let (succeeds, others) = contract.dropped tablename (stored created_table) after present in
    (
      (succeeds, λ n. others n ∙ restored op db after n absent (tables n)),
      contract.create_present created_table (stored created_table) after present,
    )
