-- ===== src/Catalogue/Selection.antt =====
-- The models that infra/repository/repo/model/sys_model_impl.go lists by the filters of pkg/query/query.go are
-- those that pass them.
use Prim.Native.String.{◌++◌}
use agent_runtime_client.Base.{
  String, Bool, true, Option, none, some, List, [], ◌∷◌, map, ◌≡◌, ◌==◌, any, All, if◌then◌else◌,
}
use agent_runtime_client.Protocol.Error.{ok}
use agent_runtime_client.Runtime.Values.{SysModel}
use agent_runtime_client.Catalogue.Query.{
  Scalar, Operand, one, Query, checked_clause, clauses, joined, bound_values,
}
use agent_runtime_client.Catalogue.Models.{ModelDatabase}
use agent_runtime_client.Catalogue.Filters.{column, columns, equality, single}

-- A comparison of a column with a value, for equality or for its opposite.
pub record Condition : Type 0 where
  pub key : String
  pub equal : Bool
  pub value : Scalar

-- Its text and its value in a WHERE.
abbrev pub written : Condition → String × List Operand
written c = (c.key ++ (if c.equal then " = ?" else " <> ?"), one c.value ∷ [])

-- A test for equality or for its opposite, by the database's own comparison of two values.
abbrev pub Compared :
    (Scalar → Scalar → Bool) → Option Bool → Option Scalar → Option Scalar → Type 0
Compared same (some equal) (some v) (some c) = same c v ≡ equal
Compared same (some equal) (some v) none = ⊥
Compared same (some equal) none c = Unit
Compared same none v c = Unit

-- A model that passes a filter under this comparison.
abbrev pub PassesBy : (Scalar → Scalar → Bool) → SysModel → Query → Type 0
PassesBy same m q = Compared same (equality q.operator) (single q.value) (column q.key m)

abbrev pub Meets : (Scalar → Scalar → Bool) → Condition → SysModel → Type 0
Meets same c m = Compared same (some c.equal) (some c.value) (column c.key m)

abbrev pub OfColumn : Condition → Type 0
OfColumn c = any (λ k. k == c.key) columns ≡ true

-- A `SELECT` whose WHERE is a conjunction of comparisons of columns returns rows that meet each of them,
-- as the database compares values: its collation, its case and its conversions are in `same`.
pub record Selects {D : Type 0} (same : Scalar → Scalar → Bool) (db : ModelDatabase D)
    : Type 0 where
  pub selected :
      (cs : List Condition) (order : String) (d : D) (ms : List SysModel)
      → All OfColumn cs
      → (db.select_models (joined (map written cs)) (bound_values (map written cs)) order d).0
        ≡ ok ms
      → All (λ m. All (λ c. Meets same c m) cs) ms

-- What a simple filter is in the text: a comparison of a column, with the filter's meaning.
record Translated (same : Scalar → Scalar → Bool) (shown : Operand → String) (q : Query)
    : Type 0 where
  condition : Condition
  text : checked_clause shown q ≡ ok (written condition)
  of_column : OfColumn condition
  meaning : (m : SysModel) → Meets same condition m → PassesBy same m q

-- The same for a list of filters.
record AllTranslated (same : Scalar → Scalar → Bool) (shown : Operand → String) (qs : List Query)
    : Type 0 where
  conditions : List Condition
  text : clauses shown (map (λ q. some q) qs) ≡ ok (map written conditions)
  of_columns : All OfColumn conditions
  meaning : (m : SysModel) → All (λ c. Meets same c m) conditions → All (PassesBy same m) qs
