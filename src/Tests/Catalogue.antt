-- ===== src/Tests/Catalogue.antt =====
-- Filters of pkg/query/query.go on small inputs.
use Prim.Native.String.{◌++◌}
use agent_runtime_client.Base.{
  pos, String, Bool, true, false, not, ◌&&◌, ◌||◌, ◌==◌, int_eq, keep, some, List, [], ◌∷◌, ◌≡◌,
  refl, if◌then◌else◌, trim_space,
}
use agent_runtime_client.Protocol.Error.{ok}
use agent_runtime_client.Runtime.Values.{SysModel}
use agent_runtime_client.Catalogue.Query.{
  Scalar, Operand, one, several, word, number, truth, Query, op_eq, build_where, checked_clause,
  clause, clauses, joined, bound_values,
}
use agent_runtime_client.Catalogue.Models.{ModelDatabase, no_model}

abbrev shown : Operand → String
shown v = "v"

abbrev own_models : List Query
own_models =
    record { key = "deleted_at"; operator = op_eq; value = one (number (pos 0)) }
    ∷ record { key = "created_by"; operator = op_eq; value = one (word "u1") }
    ∷ []

-- The key of a filter is written into the text as it is.
build_where-key :
    build_where shown (
      some (record { key = "1=1 OR ulid"; operator = op_eq; value = one (word "m1") })
      ∷ some (record { key = "created_by"; operator = op_eq; value = one (word "u1") })
      ∷ [])
    ≡ ok ("1=1 OR ulid = ? AND created_by = ?", one (word "m1") ∷ one (word "u1") ∷ [])
unfolding build_where clauses checked_clause clause joined bound_values trim_space
build_where-key = refl

-- Values are compared as they are.
abbrev exactly : Scalar → Scalar → Bool
exactly (word a) (word b) = a == b
exactly (number a) (number b) = int_eq a b
exactly (truth a) (truth b) = a && b || not a && not b
exactly (word a) (number b) = false
exactly (word a) (truth b) = false
exactly (number a) (word b) = false
exactly (number a) (truth b) = false
exactly (truth a) (word b) = false
exactly (truth a) (number b) = false

-- The rows that one statement selects.
abbrev by_creator : String → List Operand → List SysModel → List SysModel
by_creator text [] ms = []
by_creator text (several vs ∷ rest) ms = []
by_creator text (one v ∷ w ∷ rest) ms = []
by_creator text (one v ∷ []) ms =
    if text == "created_by = ?" then keep (λ m. exactly (word m.created_by) v) ms else []

-- A database of models that answers one statement, and nothing to any other.
abbrev creators : ModelDatabase (List SysModel)
creators = record {
  select_models = λ where_text values order d. (ok (by_creator where_text values d), d);
  models_by_ulid = λ id d. (ok [], d);
  keys_by_ulid = λ id d. (ok [], d);
}

abbrev TextOf : String → Bool → Type 0
TextOf key equal = ((key ++ (if equal then " = ?" else " <> ?")) == "created_by = ?") ≡ true

abbrev model_of : String → SysModel
model_of user = record no_model { ulid = "m1"; created_by = user }

abbrev created_by_u1 : List Query
created_by_u1 = record { key = "created_by"; operator = op_eq; value = one (word "u1") } ∷ []
