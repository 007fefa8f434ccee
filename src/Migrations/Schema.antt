-- ===== src/Migrations/Schema.antt =====
-- The arguments of the Alembic operations that the revisions call, and the operations as an interface.
use football_prediction_craw.Prelude.{
  ℕ, ◌≡◌, Bool, false, ◌&&◌, ◌||◌, Option, List, String, str_eq, any,
}

pub data ColumnType : Type 0 where
  uuid boolean jsonb date_time integer : ColumnType
  string : ℕ → ColumnType

-- `sa.Column`
pub record Column : Type 0 where
  pub name : String
  pub type : ColumnType
  pub nullable : Bool
  pub server_default : Option String

-- the constraints of a table: columns, and for a foreign key the table and column that it names
pub data Constraint : Type 0 where
  primary_key unique_key : String → List String → Constraint
  foreign_key : String → String → String → String → Constraint

-- What a database does on `create_table`, `drop_table`, `create_index`, `drop_index`, `add_column`,
-- `drop_column` and `alter_column` of a server default: an operation that undoes another right after
-- it, where the name was free before, leaves the schema as it was, and creating something adds its name.
pub record Database : Type 1 where
  pub Schema : Type 0
  pub has_table : String → Schema → Bool
  pub has_index : String → Schema → Bool
  pub has_column : String → String → Schema → Bool
  pub create_table : String → List Column → List Constraint → Schema → Schema
  pub drop_table : String → Schema → Schema
  pub create_index : String → String → List String → Schema → Schema
  pub drop_index : String → Schema → Schema
  pub add_column : String → Column → Schema → Schema
  pub drop_column : String → String → Schema → Schema
  pub alter_default : String → String → Option String → Schema → Schema
  pub table_undone :
      (t : String) (columns : List Column) (constraints : List Constraint) (s : Schema)
      → has_table t s ≡ false
      → drop_table t (create_table t columns constraints s) ≡ s
  pub index_undone :
      (i t : String) (columns : List String) (s : Schema)
      → has_index i s ≡ false
      → drop_index i (create_index i t columns s) ≡ s
  pub column_undone :
      (t : String) (c : Column) (s : Schema)
      → has_column t c.name s ≡ false
      → drop_column t c.name (add_column t c s) ≡ s
  pub default_undone :
      (t c : String) (d : Option String) (s : Schema)
      → drop_column t c (alter_default t c d s) ≡ drop_column t c s
  pub tables_after_table :
      (u t : String) (columns : List Column) (constraints : List Constraint) (s : Schema)
      → has_table u (create_table t columns constraints s) ≡ (str_eq t u || has_table u s)
  pub tables_after_index :
      (u i t : String) (columns : List String) (s : Schema)
      → has_table u (create_index i t columns s) ≡ has_table u s
  pub indexes_after_index :
      (j i t : String) (columns : List String) (s : Schema)
      → has_index j (create_index i t columns s) ≡ (str_eq i j || has_index j s)
  pub indexes_after_table :
      (j t : String) (columns : List Column) (constraints : List Constraint) (s : Schema)
      → has_index j (create_table t columns constraints s) ≡ has_index j s
  pub columns_after_table :
      (u c t : String) (columns : List Column) (constraints : List Constraint) (s : Schema)
      → str_eq t u ≡ false
      → has_column u c (create_table t columns constraints s) ≡ has_column u c s
  pub columns_of_table :
      (t c : String) (columns : List Column) (constraints : List Constraint) (s : Schema)
      → has_table t s ≡ false
      → has_column t c (create_table t columns constraints s)
        ≡ any (λ column. str_eq column.name c) columns
  pub columns_after_index :
      (u c i t : String) (columns : List String) (s : Schema)
      → has_column u c (create_index i t columns s) ≡ has_column u c s
  pub columns_after_default :
      (u c t k : String) (d : Option String) (s : Schema)
      → has_column u c (alter_default t k d s) ≡ has_column u c s
  pub columns_after_column :
      (u c t : String) (column : Column) (s : Schema)
      → (str_eq t u && str_eq column.name c) ≡ false
      → has_column u c (add_column t column s) ≡ has_column u c s
