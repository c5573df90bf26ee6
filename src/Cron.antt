-- ===== src/Cron.antt =====
-- application/service/scheduledtask/cron.go: five-field cron expressions.
-- `strings.Fields`, `strings.Split` and `strconv.Atoi` are written out; a 64-bit integer is a
-- number below 2 ^ 64 where the code adds, with the sign in its top bit.
pub mod Spread
pub mod Fields
use Prim.Native.Char.{Char, code}
use Prim.Native.String
use agent_runtime_client.Base.{
  ℕ, zero, suc, ◌+◌, ◌-◌, ◌*◌, ◌%◌, ◌^◌, ℤ, pos, negsuc, is_pos, String, Bool, true, false, not,
  ◌&&◌, ◌||◌, Option, none, some, List, [], ◌∷◌, ◌++◌, ◌==◌, eqb, ltb, leb, any, length, is_space,
  if◌then◌else◌,
}
unfoldable pub use agent_runtime_client.Base.{split}

pub data CronError : Type 0 where
  five_fields invalid_step invalid_step_expression invalid_range : CronError
  invalid_range_start invalid_range_end invalid_number empty_field : CronError
  out_of_bounds : ℕ → ℕ → CronError
  invalid_field : ℕ → CronError → CronError

pub data Parsed (A : Type 0) : Type 0 where
  good : A → Parsed A
  bad : CronError → Parsed A

infixl 5 ◌>>=◌
abbrev pub ◌>>=◌ : {A B : Type 0} → Parsed A → (A → Parsed B) → Parsed B
good a >>= f = f a
bad e >>= f = bad e

abbrev pub refuse : Bool → CronError → Parsed (Unit {0})
refuse true e = bad e
refuse false e = good tt

not_empty : List String → List String
not_empty [] = []
not_empty (w ∷ ws) = let rest = not_empty ws in if w == "" then rest else w ∷ rest

-- `strings.Fields`
unfoldable pub fields : String → List String
unfolding not_empty
fields s = not_empty (split is_space s)

-- `strings.Contains` of one character.
unfoldable pub contains : ℕ → String → Bool
contains k String.[] = false
contains k (String.◌∷◌ c s) = eqb (code c) k || contains k s

unfoldable pub digits_from : ℕ → String → Option ℕ
digits_from acc String.[] = some acc
digits_from acc (String.◌∷◌ c s) =
    let rest = digits_from (acc * 10 + (code c - b'0')) s in
    if leb b'0' (code c) && leb (code c) b'9' then rest else none

unfoldable pub unsigned : String → Option ℕ
unsigned String.[] = none
unsigned (String.◌∷◌ c s) = digits_from 0 (String.◌∷◌ c s)

unfoldable pub negated : ℕ → ℤ
negated zero = pos 0
negated (suc n) = negsuc n

unfoldable pub positive_number : Option ℕ → Option ℤ
positive_number none = none
positive_number (some n) = if ltb n (2 ^ 63) then some (pos n) else none

unfoldable pub negative_number : Option ℕ → Option ℤ
negative_number none = none
negative_number (some n) = if leb n (2 ^ 63) then some (negated n) else none

-- `strconv.Atoi`
unfoldable pub atoi : String → Option ℤ
unfolding unsigned digits_from negated positive_number negative_number
atoi String.[] = none
atoi (String.◌∷◌ c s) =
    if eqb (code c) b'-'
    then negative_number (unsigned s)
    else if eqb (code c) b'+'
    then positive_number (unsigned s)
    else positive_number (unsigned (String.◌∷◌ c s))

-- The 64 bits of an integer.
abbrev pub word : ℤ → ℕ
word (pos n) = n
word (negsuc n) = 2 ^ 64 - suc n

-- `a <= b` on 64-bit integers.
abbrev pub signed_le : ℕ → ℕ → Bool
signed_le a b = leb ((a + 2 ^ 63) % 2 ^ 64) ((b + 2 ^ 63) % 2 ^ 64)

-- The loop `for value := start; value <= end; value += step`.
unfoldable pub spread : ℕ → ℕ → ℕ → ℕ → List ℕ
spread zero value last step = []
spread (suc fuel) value last step =
    let rest = spread fuel ((value + step) % 2 ^ 64) last step in
    if signed_le value last then value ∷ rest else []

-- The loop ends within this many tests, as the theorem on it shows.
abbrev pub spread_fuel : ℕ
spread_fuel = 128

unfoldable pub step_value : String → Option ℤ → Parsed (String × ℕ)
step_value base none = bad invalid_step
step_value base (some z) = if is_pos z then good (base, word z) else bad invalid_step

unfoldable pub read_pieces : String → List String → Parsed (String × ℕ)
unfolding step_value
read_pieces token [] = good (token, 1)
read_pieces token (base ∷ []) = good (token, 1)
read_pieces token (base ∷ step ∷ []) = step_value base (atoi step)
read_pieces token (base ∷ step ∷ x ∷ xs) = bad invalid_step_expression

-- The part of a token before its step, and the step.
unfoldable pub read_step : String → Parsed (String × ℕ)
unfolding read_pieces
read_step token = read_pieces token (split (λ c. eqb c b'/') token)

abbrev read_number : CronError → String → Parsed ℤ
read_number e s = elim (atoi s) [ none ↦ bad e | some z ↦ good z ]

read_bounds : List String → Parsed (ℤ × ℤ)
read_bounds [] = bad invalid_range
read_bounds (from ∷ []) = bad invalid_range
read_bounds (from ∷ to ∷ []) = read_number invalid_range_start from >>= λ start.
    read_number invalid_range_end to >>= λ last. good (start, last)
read_bounds (from ∷ to ∷ x ∷ xs) = bad invalid_range

-- The bounds of a token.
unfoldable pub read_range : String → ℕ → ℕ → Parsed (ℤ × ℤ)
unfolding read_bounds
read_range base min max =
    if base == "*"
    then good (pos min, pos max)
    else if contains b'-' base
    then read_bounds (split (λ c. eqb c b'-') base)
    else read_number invalid_number base >>= λ value. good (value, value)

-- `start < min`, `end > max`, `start > end`
abbrev pub int_lt : ℤ → ℤ → Bool
int_lt (pos m) (pos n) = ltb m n
int_lt (pos m) (negsuc n) = false
int_lt (negsuc m) (pos n) = true
int_lt (negsuc m) (negsuc n) = ltb n m

pub record Token : Type 0 where
  pub start : ℤ
  pub last : ℤ
  pub step : ℕ

unfoldable pub check_bounds : ℕ → ℕ → Token → Parsed Token
check_bounds min max t =
    if int_lt t.start (pos min) || int_lt (pos max) t.last || int_lt t.last t.start
    then bad (out_of_bounds min max)
    else good t

-- A token of a field, up to its loop.
unfoldable pub read_token : ℕ → ℕ → String → Parsed Token
read_token min max token = read_step token >>= λ (base, step).
    read_range base min max >>= λ (start, last).
    check_bounds min max (record { start = start; last = last; step = step })

abbrev pub token_values : Token → List ℕ
token_values t = spread spread_fuel (word t.start) (word t.last) t.step

unfoldable pub expand_tokens : ℕ → ℕ → List String → Parsed (List ℕ)
expand_tokens min max [] = good []
expand_tokens min max (t ∷ ts) = read_token min max t >>= λ token.
    expand_tokens min max ts >>= λ rest. good (token_values token ++ rest)

-- `expandCronField`: the keys of the map.
unfoldable pub expand_cron_field : String → ℕ → ℕ → Parsed (List ℕ)
expand_cron_field raw min max = expand_tokens min max (split (λ c. eqb c b',') raw) >>= λ values.
    refuse (eqb (length values) 0) empty_field >>= λ _. good values

abbrev pub has : ℕ → List ℕ → Bool
has v vs = any (λ x. eqb x v) vs

abbrev named : {A : Type 0} → ℕ → Parsed A → Parsed A
named n (good a) = good a
named n (bad e) = bad (invalid_field n e)

-- The loop of `parseCron` over the fields and their ranges.
unfoldable pub parse_fields : ℕ → List String → List (ℕ × ℕ) → Parsed (List (List ℕ))
parse_fields n [] ranges = good []
parse_fields n (part ∷ parts) [] = good []
parse_fields n (part ∷ parts) ((min, max) ∷ ranges) =
    named (n + 1) (expand_cron_field part min max) >>= λ allowed.
    parse_fields (n + 1) parts ranges >>= λ rest. good (allowed ∷ rest)

abbrev pub ranges : List (ℕ × ℕ)
ranges = (0, 59) ∷ (0, 23) ∷ (1, 31) ∷ (1, 12) ∷ (0, 6) ∷ []

-- `parseCron`
unfoldable pub parse_cron : String → Parsed (List (List ℕ))
parse_cron expr =
    let parts = fields expr in
    refuse (not (eqb (length parts) 5)) five_fields >>= λ _. parse_fields 0 parts ranges

-- `validateCron`
unfoldable pub validate_cron : String → Parsed (Unit {0})
validate_cron expr = parse_cron expr >>= λ _. good tt

all_allowed : List (List ℕ) → List ℕ → Bool
all_allowed (f ∷ fs) (v ∷ vs) = has v f && all_allowed fs vs
all_allowed [] vs = true
all_allowed (f ∷ fs) [] = true

-- `cronMatches` at a minute, an hour, a day, a month and a weekday.
unfoldable pub cron_matches : String → ℕ → ℕ → ℕ → ℕ → ℕ → Bool
unfolding all_allowed
cron_matches expr minute hour day month weekday = elim (parse_cron expr) [
  | bad e ↦ false
  | good allowed ↦ all_allowed allowed (minute ∷ hour ∷ day ∷ month ∷ weekday ∷ [])
]
