-- ===== src/Schedule/Text.antt =====
-- Texts as bytes in application/service/scheduledtask/service.go: `truncate`, and the prefix that `execute`
-- looks for. A cut may fall into a character.
use Prim.Native.Char.{code}
use agent_runtime_client.Base.{
  ℕ, zero, suc, ◌+◌, ◌/◌, ◌%◌, String, Bool, true, false, ◌&&◌, ◌||◌, [], ◌∷◌, ◌++◌, eqb, leb, ltb,
  take, length, if◌then◌else◌,
}
use agent_runtime_client.Schedule.Rows.{Bytes}

-- A character in UTF-8.
unfoldable pub utf8_char : ℕ → Bytes
utf8_char k =
    if ltb k 0x80
    then k ∷ []
    else if ltb k 0x800
    then (0xc0 + k / 64) ∷ (0x80 + k % 64) ∷ []
    else if ltb k 0x10000
    then (0xe0 + k / 4096) ∷ (0x80 + k / 64 % 64) ∷ (0x80 + k % 64) ∷ []
    else (0xf0 + k / 262144) ∷ (0x80 + k / 4096 % 64) ∷ (0x80 + k / 64 % 64) ∷ (0x80 + k % 64) ∷ []

unfoldable pub utf8 : String → Bytes
unfolding utf8_char
utf8 String.[] = []
utf8 (String.◌∷◌ c s) = utf8_char (code c) ++ utf8 s

-- `truncate`
unfoldable pub truncate : Bytes → ℕ → Bytes
truncate value limit = if leb (length value) limit then value else take limit value

starts_with : Bytes → Bytes → Bool
starts_with bs [] = true
starts_with [] (p ∷ ps) = false
starts_with (b ∷ bs) (p ∷ ps) = eqb b p && starts_with bs ps

-- The bytes of the first character, if it is a space of `unicode.IsSpace`.
leading_space : Bytes → ℕ
leading_space [] = 0
leading_space (a ∷ []) = if (leb 9 a && leb a 13) || eqb a 0x20 then 1 else 0
leading_space (a ∷ b ∷ []) =
    if (leb 9 a && leb a 13) || eqb a 0x20
    then 1
    else if eqb a 0xc2 && (eqb b 0x85 || eqb b 0xa0)
    then 2
    else 0
leading_space (a ∷ b ∷ c ∷ rest) =
    if (leb 9 a && leb a 13) || eqb a 0x20
    then 1
    else if eqb a 0xc2 && (eqb b 0x85 || eqb b 0xa0)
    then 2
    else if (eqb a 0xe1 && eqb b 0x9a && eqb c 0x80)
        || (eqb a 0xe2
            && eqb b 0x80
            && ((leb 0x80 c && leb c 0x8a) || eqb c 0xa8 || eqb c 0xa9 || eqb c 0xaf))
        || (eqb a 0xe2 && eqb b 0x81 && eqb c 0x9f)
        || (eqb a 0xe3 && eqb b 0x80 && eqb c 0x80)
    then 3
    else 0

-- Text without the spaces before it; the fuel is the number of its bytes.
trim_leading : ℕ → Bytes → Bytes
unfolding leading_space
trim_leading zero bs = bs
trim_leading (suc fuel) bs =
    let n = leading_space bs in
    let rest = trim_leading fuel (dropped n bs) in if eqb n 0 then bs else rest
  where
    dropped : ℕ → Bytes → Bytes
    dropped zero bs = bs
    dropped (suc n) [] = []
    dropped (suc n) (b ∷ bs) = dropped n bs

-- `strings.HasPrefix(strings.TrimSpace(content), "ACTION_REQUIRED:")`. The spaces at the end are left, for the
-- prefix has none.
unfoldable pub asks_for_action : Bytes → Bool
unfolding starts_with trim_leading
asks_for_action content =
    starts_with (trim_leading (length content) content) (utf8 "ACTION_REQUIRED:")
