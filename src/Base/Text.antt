-- ===== src/Base/Text.antt =====
-- Texts: tests that walk a text character by character.
use Prim.Native.Nat.{ℕ, ◌+◌}
use Prim.Native.Char.{Char, code}
use Prim.Native.String.{String}
use mathlib.Core.Bool.{Bool, true, ◌||◌, ◌&&◌, false}
use mathlib.Core.List.{List, [], ◌∷◌}
use text.Mathlib.Text.{◌==◌}
use agent_runtime_client.Base.Tests.{eqb, leb, if◌then◌else◌}

-- `strings.HasSuffix`
unfoldable pub has_suffix : String → String → Bool
has_suffix String.[] suffix = "" == suffix
has_suffix (String.◌∷◌ c s) suffix = (String.◌∷◌ c s) == suffix || has_suffix s suffix

-- `unicode.IsSpace`
unfoldable pub is_space : ℕ → Bool
is_space c =
    (leb 9 c && leb c 13)
    || eqb c 0x20
    || eqb c 0x85
    || eqb c 0xa0
    || eqb c 0x1680
    || (leb 0x2000 c && leb c 0x200a)
    || eqb c 0x2028
    || eqb c 0x2029
    || eqb c 0x202f
    || eqb c 0x205f
    || eqb c 0x3000

-- `strings.TrimSpace(s) == ""`
unfoldable pub is_blank : String → Bool
unfolding is_space
is_blank String.[] = true
is_blank (String.◌∷◌ c s) = is_space (code c) && is_blank s

prepend : Char → List String → List String
prepend c [] = String.◌∷◌ c "" ∷ []
prepend c (w ∷ ws) = String.◌∷◌ c w ∷ ws

-- `strings.Split`, at the characters of a test.
unfoldable pub split : (ℕ → Bool) → String → List String
unfolding prepend
split sep String.[] = "" ∷ []
split sep (String.◌∷◌ c s) =
    let rest = split sep s in if sep (code c) then "" ∷ rest else prepend c rest

trim_start : String → String
trim_start String.[] = ""
trim_start (String.◌∷◌ c s) =
    let rest = trim_start s in if is_space (code c) then rest else String.◌∷◌ c s

trim_end : String → String
unfolding is_blank is_space
trim_end String.[] = ""
trim_end (String.◌∷◌ c s) =
    let rest = String.◌∷◌ c (trim_end s) in if is_blank (String.◌∷◌ c s) then "" else rest

-- `strings.TrimSpace`
unfoldable pub trim_space : String → String
unfolding trim_start trim_end is_space
trim_space s = trim_end (trim_start s)

-- `strings.HasPrefix`
unfoldable pub has_prefix : String → String → Bool
has_prefix s String.[] = true
has_prefix String.[] (String.◌∷◌ d t) = false
has_prefix (String.◌∷◌ c s) (String.◌∷◌ d t) = eqb (code c) (code d) && has_prefix s t

-- The character at the place in the second text where the first one has the given character.
exchange : Char → String → String → Char
exchange c String.[] t = c
exchange c (String.◌∷◌ u s) String.[] = c
exchange c (String.◌∷◌ u s) (String.◌∷◌ l t) =
    let rest = exchange c s t in if eqb (code c) (code u) then l else rest

-- `strings.ToLower` on the letters whose lower case is an ASCII letter (the last two are the capital I
-- with a dot and the Kelvin sign). Another letter is kept, which no comparison with an ASCII text sees.
unfoldable pub to_lower : String → String
unfolding exchange
to_lower String.[] = ""
to_lower (String.◌∷◌ c s) =
    String.◌∷◌ (exchange c "ABCDEFGHIJKLMNOPQRSTUVWXYZİK" "abcdefghijklmnopqrstuvwxyzik")
      (to_lower s)

-- The letters that fold to an ASCII letter; the last two are the long s and the Kelvin sign.
fold_code : ℕ → ℕ
fold_code c =
    if leb b'A' c && leb c b'Z'
    then c + 32
    else if eqb c 0x17f
    then b's'
    else if eqb c 0x212a
    then b'k'
    else c

-- `strings.EqualFold` where one of the texts is ASCII.
unfoldable pub equal_fold : String → String → Bool
unfolding fold_code
equal_fold String.[] String.[] = true
equal_fold String.[] (String.◌∷◌ d t) = false
equal_fold (String.◌∷◌ c s) String.[] = false
equal_fold (String.◌∷◌ c s) (String.◌∷◌ d t) =
    eqb (fold_code (code c)) (fold_code (code d)) && equal_fold s t

-- `strings.Contains`
unfoldable pub mentions : String → String → Bool
unfolding has_prefix
mentions part String.[] = part == ""
mentions part (String.◌∷◌ c s) = has_prefix (String.◌∷◌ c s) part || mentions part s
