-- ===== src/Catalogue/Query.antt =====
-- pkg/query/query.go: filters as the text of a WHERE and its values, pages and orders.
use Prim.Native.String.{◌++◌}
use agent_runtime_client.Base.{
  ℕ, zero, suc, ◌+◌, ◌-◌, ◌*◌, ◌/◌, ℤ, pos, negsuc, exceeds, String, Bool, Option, none, some, List,
  [], ◌∷◌, ◌==◌, eqb, if◌then◌else◌, trim_space,
}
use mathlib.Core.List
use agent_runtime_client.Protocol.Error.{Error, Result, ok, err, external, ◌>>=◌}

-- A value of a filter: one, or a slice of several.
pub data Scalar : Type 0 where
  number : ℤ → Scalar
  word : String → Scalar
  truth : Bool → Scalar

pub data Operand : Type 0 where
  one : Scalar → Operand
  several : List Scalar → Operand

-- `Operator`; `unknown` is a number that none of the constants has.
pub data Operator : Type 0 where
  op_eq op_ne1 op_ne2 op_in op_not_in op_gt op_gte op_lt op_lte op_like op_not_like : Operator
  op_between op_not_between op_null op_like_percent : Operator
  unknown : ℤ → Operator

pub record Query : Type 0 where
  pub key : String
  pub operator : Operator
  pub value : Operand

abbrev compared : String → String → Operand → Result (String × List Operand)
compared key comparison value = ok (key ++ comparison, value ∷ [])

no_pair : Error
no_pair = external "query: BETWEEN value must be a 2-element slice"

-- `betweenPair`
unfoldable pub between_pair : Operand → Result (Operand × Operand)
unfolding no_pair
between_pair (several (lo ∷ hi ∷ [])) = ok (one lo, one hi)
between_pair (several []) = err no_pair
between_pair (several (a ∷ [])) = err no_pair
between_pair (several (a ∷ b ∷ c ∷ rest)) = err no_pair
between_pair (one v) = err no_pair

abbrev between : String → Operand → Result (String × List Operand)
between text value = between_pair value >>= λ bounds. ok (text, bounds.0 ∷ bounds.1 ∷ [])

-- The `switch` of `BuildWhere`; `shown` is `fmt.Sprintf("%v", …)`.
unfoldable pub clause :
    (Operand → String) → String → Operator → Operand → Result (String × List Operand)
clause shown key op_eq value = compared key " = ?" value
clause shown key op_ne1 value = compared key " <> ?" value
clause shown key op_ne2 value = compared key " <> ?" value
clause shown key op_gt value = compared key " > ?" value
clause shown key op_gte value = compared key " >= ?" value
clause shown key op_lt value = compared key " < ?" value
clause shown key op_lte value = compared key " <= ?" value
clause shown key op_like value = compared key " LIKE ?" value
clause shown key op_like_percent value =
    compared key " LIKE ?" (one (word ("%" ++ shown value ++ "%")))
clause shown key op_not_like value = compared key " NOT LIKE ?" value
clause shown key op_in value = compared key " IN ?" value
clause shown key op_not_in value = compared key " NOT IN ?" value
clause shown key op_between value = between (key ++ " BETWEEN ? AND ?") value
clause shown key op_not_between value = between (key ++ " NOT BETWEEN ? AND ?") value
clause shown key op_null value = ok (key ++ " IS NULL", [])
clause shown key (unknown n) value = err (external "query: unsupported operator")

unfoldable pub checked_clause : (Operand → String) → Query → Result (String × List Operand)
checked_clause shown q =
    if trim_space q.key == ""
    then err (external "query: empty key")
    else clause shown q.key q.operator q.value

-- The loop of `BuildWhere`, which passes over nil entries.
unfoldable pub clauses :
    (Operand → String) → List (Option Query) → Result (List (String × List Operand))
clauses shown [] = ok []
clauses shown (none ∷ rest) = clauses shown rest
clauses shown (some q ∷ rest) =
    checked_clause shown q >>= λ c. clauses shown rest >>= λ cs. ok (c ∷ cs)

-- `strings.Join(clauses, " AND ")`
unfoldable pub joined : List (String × List Operand) → String
joined [] = ""
joined (c ∷ []) = c.0
joined (c ∷ d ∷ rest) = c.0 ++ " AND " ++ joined (d ∷ rest)

unfoldable pub bound_values : List (String × List Operand) → List Operand
bound_values [] = []
bound_values (c ∷ rest) = List.◌++◌ c.1 (bound_values rest)

-- `BuildWhere`. For no queries it is the same empty text.
unfoldable pub build_where :
    (Operand → String) → List (Option Query) → Result (String × List Operand)
build_where shown queries = clauses shown queries >>= λ cs. ok (joined cs, bound_values cs)

-- `Paginate`, the offset and the limit. A product is not beyond 64 bits for a page below 2 ^ 56.
unfoldable pub page_size : ℤ → ℕ
page_size (pos n) = if exceeds (pos n) 100 then 100 else if eqb n 0 then 10 else n
page_size (negsuc n) = 10

unfoldable pub page_offset : ℤ → ℤ → ℕ
page_offset (pos n) size = (n - 1) * page_size size
page_offset (negsuc n) size = 0

-- `CeilPageNum` for a total below 2 ^ 53, where the quotient of the floats rounds up to the same number.
unfoldable pub ceil_page_num : ℕ → ℤ → ℕ
ceil_page_num total (pos zero) = 0
ceil_page_num total (pos (suc n)) = (total + n) / suc n
ceil_page_num total (negsuc n) = 0

-- `SelectFields` for the groups of one call.
unfoldable pub select_fields : List (List String) → List String
select_fields groups = elim (flattened groups) [ [] ↦ "*" ∷ [] | x ∷ xs ↦ x ∷ xs ]
  where
    flattened : List (List String) → List String
    flattened [] = []
    flattened (g ∷ rest) = List.◌++◌ g (flattened rest)

pub record SortData : Type 0 where
  pub sort : String
  pub direction : String

-- `OrderBy`, with nil for no sort.
unfoldable pub order_by : Option SortData → String → String
order_by none default_sort = default_sort ++ " desc"
order_by (some s) default_sort =
    (if trim_space s.sort == "" then default_sort else s.sort)
    ++ " "
    ++ (if trim_space s.direction == "" then "desc" else s.direction)
