-- ===== src/Protocol/Base64.antt =====
-- `base64.StdEncoding.DecodeString`, which `Attachment.Validate` of domain/entity/control/protocol.go
-- calls: padded base64, in which line breaks are skipped.
use Prim.Native.Char.{code}
use agent_runtime_client.Base.{
  ℕ, ◌+◌, ◌-◌, ◌*◌, ◌/◌, ◌%◌, String, ◌&&◌, ◌||◌, Option, none, some, List, [], ◌∷◌, ◌++◌, eqb, leb,
  if◌then◌else◌,
}

-- The value of a symbol.
sextet : ℕ → Option ℕ
sextet c =
    if leb b'A' c && leb c b'Z'
    then some (c - 65)
    else if leb b'a' c && leb c b'z'
    then some (c - 71)
    else if leb b'0' c && leb c b'9'
    then some (c + 4)
    else if eqb c b'+'
    then some 62
    else if eqb c b'/'
    then some 63
    else none

-- The symbols without line breaks.
without_breaks : String → List ℕ
without_breaks String.[] = []
without_breaks (String.◌∷◌ c s) =
    let rest = without_breaks s in
    if eqb (code c) 10 || eqb (code c) 13 then rest else code c ∷ rest

-- The last group, with two symbols of padding, one, or none; the low bits are not looked at.
one_byte_of : Option ℕ → Option ℕ → Option (List ℕ)
one_byte_of (some a) (some b) = some ((a * 4 + b / 16) ∷ [])
one_byte_of (some a) none = none
one_byte_of none b = none

two_bytes_of : Option ℕ → Option ℕ → Option ℕ → Option (List ℕ)
two_bytes_of (some a) (some b) (some c) = some ((a * 4 + b / 16) ∷ (b % 16 * 16 + c / 4) ∷ [])
two_bytes_of (some a) (some b) none = none
two_bytes_of (some a) none c = none
two_bytes_of none b c = none

three_bytes_of : Option ℕ → Option ℕ → Option ℕ → Option ℕ → Option (List ℕ)
three_bytes_of a b c (some d) = elim (two_bytes_of a b c) [
  | none ↦ none
  | some bytes ↦ elim c [ none ↦ none | some s ↦ some (bytes ++ (s % 4 * 64 + d) ∷ []) ]
]
three_bytes_of a b c none = none

joined : Option (List ℕ) → Option (List ℕ) → Option (List ℕ)
joined (some xs) (some ys) = some (xs ++ ys)
joined (some xs) none = none
joined none ys = none

-- A group with padding must be the last one.
only_last : List ℕ → Option (List ℕ) → Option (List ℕ)
only_last [] bytes = bytes
only_last (c ∷ rest) bytes = none

decode_groups : List ℕ → Option (List ℕ)
unfolding sextet one_byte_of two_bytes_of three_bytes_of joined only_last
decode_groups [] = some []
decode_groups (a ∷ b ∷ c ∷ d ∷ rest) =
    let others = decode_groups rest in
    if eqb d b'='
    then if eqb c b'='
      then only_last rest (one_byte_of (sextet a) (sextet b))
      else only_last rest (two_bytes_of (sextet a) (sextet b) (sextet c))
    else joined (three_bytes_of (sextet a) (sextet b) (sextet c) (sextet d)) others
decode_groups (a ∷ []) = none
decode_groups (a ∷ b ∷ []) = none
decode_groups (a ∷ b ∷ c ∷ []) = none

-- `base64.StdEncoding.DecodeString`
unfoldable pub decode_base64 : String → Option (List ℕ)
unfolding without_breaks decode_groups
decode_base64 s = decode_groups (without_breaks s)
