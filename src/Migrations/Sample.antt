-- ===== src/Migrations/Sample.antt =====
-- A value of `Database`: the list of the tables with their columns, and the list of the indexes.
use football_prediction_craw.Prelude.{
  ◌≡◌, refl, sym, ap, subst, fun_ext, ◌∙◌, Bool, true, false, ◌&&◌, ◌||◌, Option, List, [], ◌∷◌,
  String, str_eq, eq_iff, if◌then◌else◌, any, arith, Bool-cases, inl, inr,
}
use football_prediction_craw.Migrations.Schema.{Column, Constraint, Database}

pub record Table : Type 0 where
  pub name : String
  pub columns : List Column
  pub constraints : List Constraint

abbrev pub Index : Type 0
Index = String × (String × List String)

abbrev pub Tables : Type 0
Tables = List Table

unfoldable pub without : {A : Type 0} → (A → Bool) → List A → List A
without p [] = []
without p (x ∷ xs) = let rest = without p xs in if p x then rest else x ∷ rest

without-none : {A : Type 0} (p : A → Bool) (xs : List A) → any p xs ≡ false → without p xs ≡ xs
unfolding without
without-none p [] h = refl
without-none p (x ∷ xs) h =
    let first : p x ≡ false = ground (arith, h) in
    rw first (ap (λ r. x ∷ r) (without-none p xs (ground (arith, h))))

abbrev pub has_table : String → Tables × List Index → Bool
has_table t (tables, indexes) = any (λ x. str_eq x.name t) tables

abbrev pub has_index : String → Tables × List Index → Bool
has_index i (tables, indexes) = any (λ x. str_eq x.0 i) indexes

abbrev pub lists : String → List Column → Bool
lists c columns = any (λ x. str_eq x.name c) columns

abbrev pub has_column : String → String → Tables × List Index → Bool
has_column t c (tables, indexes) = any (λ x. str_eq x.name t && lists c x.columns) tables

abbrev pub create_table :
    String → List Column → List Constraint → Tables × List Index → Tables × List Index
create_table t columns constraints (tables, indexes) =
    (record { name = t; columns = columns; constraints = constraints } ∷ tables, indexes)

abbrev pub drop_table : String → Tables × List Index → Tables × List Index
drop_table t (tables, indexes) = (without (λ x. str_eq x.name t) tables, indexes)

abbrev pub create_index : String → String → List String → Tables × List Index → Tables × List Index
create_index i t columns (tables, indexes) = (tables, (i, (t, columns)) ∷ indexes)

abbrev pub drop_index : String → Tables × List Index → Tables × List Index
drop_index i (tables, indexes) = (tables, without (λ x. str_eq x.0 i) indexes)

-- a change of the columns of one table
unfoldable pub in_table : String → (List Column → List Column) → Tables → Tables
in_table t f [] = []
in_table t f (x ∷ xs) =
    let rest = in_table t f xs in
    if str_eq x.name t then record x { columns = f x.columns } ∷ rest else x ∷ rest

abbrev pub add_column : String → Column → Tables × List Index → Tables × List Index
add_column t c (tables, indexes) = (in_table t (λ columns. c ∷ columns) tables, indexes)

abbrev pub drop_column : String → String → Tables × List Index → Tables × List Index
drop_column t c (tables, indexes) = (in_table t (without (λ x. str_eq x.name c)) tables, indexes)

unfoldable pub with_default : String → Option String → List Column → List Column
with_default c d [] = []
with_default c d (x ∷ xs) =
    let rest = with_default c d xs in
    if str_eq x.name c then record x { server_default = d } ∷ rest else x ∷ rest

abbrev pub alter_default :
    String → String → Option String → Tables × List Index → Tables × List Index
alter_default t c d (tables, indexes) = (in_table t (with_default c d) tables, indexes)

pub same_text : (t : String) → str_eq t t ≡ true
same_text t = ground (arith, eq_iff t t)

-- two changes of a table's columns that undo each other on it
pub in_table-in_table :
    (t : String) (f g : List Column → List Column) (xs : Tables)
    → in_table t g (in_table t f xs) ≡ in_table t (λ columns. g (f columns)) xs
unfolding in_table
in_table-in_table t f g [] = refl
in_table-in_table t f g (x ∷ xs) = elim (Bool-cases (str_eq x.name t)) [
  | inl e ↦
      rw e
        (rw e (ap (λ r. record x { columns = g (f x.columns) } ∷ r) (in_table-in_table t f g xs)))
  | inr e ↦ rw e (rw e (ap (λ r. x ∷ r) (in_table-in_table t f g xs)))
]

column_removed :
    (c : Column) (columns : List Column)
    → lists c.name columns ≡ false
    → without (λ x. str_eq x.name c.name) (c ∷ columns) ≡ columns
unfolding without
column_removed c columns h =
    rw (same_text c.name) (without-none (λ x. str_eq x.name c.name) columns h)

pub column_gone :
    (t : String) (c : Column) (xs : Tables)
    → any (λ x. str_eq x.name t && lists c.name x.columns) xs ≡ false
    → in_table t (λ columns. without (λ x. str_eq x.name c.name) (c ∷ columns)) xs ≡ xs
unfolding in_table
column_gone t c [] h = refl
column_gone t c (x ∷ xs) h =
    let rest = column_gone t c xs (ground (arith, h)) in
    elim (Bool-cases (str_eq x.name t)) [
      | inl e ↦ rw (e, column_removed c x.columns (ground (arith, h, e))) (ap (λ r. x ∷ r) rest)
      | inr e ↦ rw e (ap (λ r. x ∷ r) rest)
    ]

pub default_gone :
    (c : String) (d : Option String) (xs : List Column)
    → without (λ x. str_eq x.name c) (with_default c d xs) ≡ without (λ x. str_eq x.name c) xs
unfolding without with_default
default_gone c d [] = refl
default_gone c d (x ∷ xs) = elim (Bool-cases (str_eq x.name c)) [
  | inl e ↦ rw e (rw e (default_gone c d xs))
  | inr e ↦ rw e (rw e (ap (λ r. x ∷ r) (default_gone c d xs)))
]

pub with_default-lists :
    (c k : String) (d : Option String) (xs : List Column)
    → lists c (with_default k d xs) ≡ lists c xs
unfolding with_default
with_default-lists c k d [] = refl
with_default-lists c k d (x ∷ xs) = elim (Bool-cases (str_eq x.name k)) [
  | inl e ↦ rw e (ap (λ b. str_eq x.name c || b) (with_default-lists c k d xs))
  | inr e ↦ rw e (ap (λ b. str_eq x.name c || b) (with_default-lists c k d xs))
]

-- a change of one table's columns that keeps what the other tables and names have
pub columns-in_table :
    (u c t : String) (f : List Column → List Column) (xs : Tables)
    → ((columns : List Column)
        → (str_eq t u && lists c (f columns)) ≡ (str_eq t u && lists c columns))
    → any (λ x. str_eq x.name u && lists c x.columns) (in_table t f xs)
      ≡ any (λ x. str_eq x.name u && lists c x.columns) xs
unfolding in_table
columns-in_table u c t f [] h = refl
columns-in_table u c t f (x ∷ xs) h = elim (Bool-cases (str_eq x.name t)) [
  | inl e ↦
      let same : x.name ≡ t = ground (arith, eq_iff x.name t) in
      rw e (
        ground (
          arith,
          subst (λ n. (str_eq n u && lists c (f x.columns)) ≡ (str_eq n u && lists c x.columns))
              (sym same) (h x.columns),
          columns-in_table u c t f xs h,
        ))
  | inr e ↦
      rw e (ap (λ b. (str_eq x.name u && lists c x.columns) || b) (columns-in_table u c t f xs h))
]

pub created_columns :
    (t c : String) (tables : Tables)
    → any (λ x. str_eq x.name t) tables ≡ false
    → any (λ x. str_eq x.name t && lists c x.columns) tables ≡ false
created_columns t c [] h = refl
created_columns t c (x ∷ xs) h = ground (arith, h, created_columns t c xs)

pub table_gone :
    (t : String) (columns : List Column) (constraints : List Constraint) (s : Tables × List Index)
    → has_table t s ≡ false
    → drop_table t (create_table t columns constraints s) ≡ s
unfolding without
table_gone t columns constraints (tables, indexes) h =
    rw (same_text t) (ap (λ x. (x, indexes)) (without-none (λ x. str_eq x.name t) tables h))

pub index_gone :
    (i t : String) (columns : List String) (s : Tables × List Index)
    → has_index i s ≡ false
    → drop_index i (create_index i t columns s) ≡ s
unfolding without
index_gone i t columns (tables, indexes) h =
    rw (same_text i) (ap (λ x. (tables, x)) (without-none (λ x. str_eq x.0 i) indexes h))

pub listed_columns :
    (t c : String) (columns : List Column) (constraints : List Constraint) (s : Tables × List Index)
    → has_table t s ≡ false
    → has_column t c (create_table t columns constraints s) ≡ lists c columns
listed_columns t c columns constraints (tables, indexes) h =
    ground (arith, same_text t, created_columns t c tables h)

pub longer-lists :
    (u c t : String) (column : Column)
    → (str_eq t u && str_eq column.name c) ≡ false
    → (columns : List Column)
    → (str_eq t u && lists c (column ∷ columns)) ≡ (str_eq t u && lists c columns)
longer-lists u c t column h columns = ground (arith, h)

abbrev pub sample : Database
sample = record {
  Schema = Tables × List Index;
  has_table = has_table;
  has_index = has_index;
  has_column = has_column;
  create_table = create_table;
  drop_table = drop_table;
  create_index = create_index;
  drop_index = drop_index;
  add_column = add_column;
  drop_column = drop_column;
  alter_default = alter_default;
  table_undone = table_gone;
  index_undone = index_gone;
  column_undone =
      λ t c s h. ap (λ x. (x, s.1)) (in_table-in_table t _ _ s.0 ∙ column_gone t c s.0 h);
  default_undone = λ t c d s.
      ap (λ x. (x, s.1))
        (in_table-in_table t (with_default c d) (without (λ x. str_eq x.name c)) s.0
          ∙ ap (λ f. in_table t f s.0) (fun_ext (default_gone c d)));
  tables_after_table = λ u t columns constraints s. refl;
  tables_after_index = λ u i t columns s. refl;
  indexes_after_index = λ j i t columns s. refl;
  indexes_after_table = λ j t columns constraints s. refl;
  columns_after_table = λ u c t columns constraints s h. rw h refl;
  columns_of_table = λ t c columns constraints s h. listed_columns t c columns constraints s h;
  columns_after_index = λ u c i t columns s. refl;
  columns_after_default = λ u c t k d s.
      columns-in_table u c t (with_default k d) s.0
        (λ columns. ap (λ b. str_eq t u && b) (with_default-lists c k d columns));
  columns_after_column = λ u c t column s h.
      columns-in_table u c t (λ columns. column ∷ columns) s.0 (longer-lists u c t column h);
}
