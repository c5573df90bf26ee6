-- ===== src/Catalogue/Filters.antt =====
-- What the filters of pkg/query/query.go that compare a column with a value mean, and what a service that
-- lists models by them promises.
use agent_runtime_client.Base.{
  String, Bool, true, false, ◌&&◌, Option, none, some, List, [], ◌∷◌, ◌≡◌, ◌≢◌, ◌==◌, any, All,
  if◌then◌else◌,
}
use agent_runtime_client.Protocol.Error.{ok}
use agent_runtime_client.Catalogue.Query.{
  Scalar, number, word, truth, Operand, one, several, Operator, op_eq, op_ne1, op_ne2, op_in,
  op_not_in, op_gt, op_gte, op_lt, op_lte, op_like, op_not_like, op_between, op_not_between,
  op_null, op_like_percent, unknown, Query,
}
use agent_runtime_client.Runtime.Values.{SysModel}
use agent_runtime_client.Runtime.Models.{ModelService}

-- The columns of a model that a filter may name.
unfoldable pub column : String → SysModel → Option Scalar
column key m =
    if key == "deleted_at"
    then some (number m.deleted_at)
    else if key == "name"
    then some (word m.name)
    else if key == "created_by"
    then some (word m.created_by)
    else if key == "provider"
    then some (word m.provider)
    else if key == "model_type"
    then some (word m.model_type)
    else if key == "category"
    then some (word m.category)
    else if key == "runtime_mode"
    then some (word m.runtime_mode)
    else if key == "enabled"
    then some (truth m.enabled)
    else none

abbrev pub columns : List String
columns =
    "deleted_at" ∷ "name" ∷ "created_by" ∷ "provider" ∷ "model_type" ∷ "category" ∷ "runtime_mode"
    ∷ "enabled" ∷ []

-- An operator that tests for equality, or for its opposite.
abbrev pub equality : Operator → Option Bool
equality op_eq = some true
equality op_ne1 = some false
equality op_ne2 = some false
equality op_in = none
equality op_not_in = none
equality op_gt = none
equality op_gte = none
equality op_lt = none
equality op_lte = none
equality op_like = none
equality op_not_like = none
equality op_between = none
equality op_not_between = none
equality op_null = none
equality op_like_percent = none
equality (unknown n) = none

abbrev pub single : Operand → Option Scalar
single (one v) = some v
single (several vs) = none

abbrev pub is_some : {A : Type 0} → Option A → Bool
is_some none = false
is_some (some a) = true

-- A filter that compares one of the columns with one value.
abbrev pub Simple : Query → Type 0
Simple q =
    (is_some (equality q.operator) && is_some (single q.value) && any (λ c. c == q.key) columns)
    ≡ true

abbrev pub Test : Option Bool → Option Scalar → Option Scalar → Type 0
Test (some true) (some v) c = c ≡ some v
Test (some false) (some v) c = c ≢ some v
Test (some b) none c = Unit
Test none v c = Unit

-- A model that passes a filter.
abbrev pub Passes : SysModel → Query → Type 0
Passes m q = Test (equality q.operator) (single q.value) (column q.key m)

-- Models that are listed by simple filters pass every one of them.
pub record Filtered {S : Type 0} (svc : ModelService S) : Type 0 where
  pub passes :
      (qs : List Query) (st : S) (ms : List SysModel)
      → All Simple qs
      → (svc.find_all qs st).0 ≡ ok ms
      → All (λ m. All (Passes m) qs) ms
