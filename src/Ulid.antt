-- ===== src/Ulid.antt =====
-- pkg/ulid/ulid.go: identifiers of 26 symbols, made of a time in milliseconds and 80 random bits.
-- A string is the list of its bytes, and the clock and the random bytes are arguments of `new`.
pub mod Value
pub mod Increment
pub mod Order
pub mod Text
use agent_runtime_client.Base.{
  ℕ, zero, suc, ◌+◌, ◌*◌, ◌/◌, ◌%◌, ◌^◌, Bool, true, false, List, [], ◌∷◌, ◌++◌, eqb, if◌then◌else◌,
}

-- `crockford`
abbrev pub crockford : List ℕ
crockford =
    b'0' ∷ b'1' ∷ b'2' ∷ b'3' ∷ b'4' ∷ b'5' ∷ b'6' ∷ b'7' ∷ b'8' ∷ b'9' ∷ b'A' ∷ b'B' ∷ b'C' ∷ b'D'
    ∷ b'E' ∷ b'F' ∷ b'G' ∷ b'H' ∷ b'J' ∷ b'K' ∷ b'M' ∷ b'N' ∷ b'P' ∷ b'Q' ∷ b'R' ∷ b'S' ∷ b'T'
    ∷ b'V' ∷ b'W' ∷ b'X' ∷ b'Y' ∷ b'Z' ∷ []

-- An element of an array.
unfoldable pub at : List ℕ → ℕ → ℕ
at [] n = 0
at (b ∷ bs) zero = b
at (b ∷ bs) (suc n) = at bs n

unfoldable pub symbol : ℕ → ℕ
unfolding at
symbol d = at crockford d

-- The bits of a byte from the bit `k` upwards, shifted down, and the bits below it.
abbrev pub high : ℕ → ℕ → ℕ
high k b = b / 2 ^ k

abbrev pub low : ℕ → ℕ → ℕ
low k b = b % 2 ^ k

-- The loop of `increment` from the last byte: the bytes, and whether it goes on before them.
unfoldable pub bump : List ℕ → List ℕ × Bool
bump [] = ([], true)
bump (b ∷ bs) =
    let rest = bump bs in
    if rest.1 then ((b + 1) % 256 ∷ rest.0, eqb ((b + 1) % 256) 0) else (b ∷ rest.0, false)

-- `increment`
unfoldable pub increment : List ℕ → List ℕ
unfolding bump
increment bs = (bump bs).0

-- The last six bytes of `binary.BigEndian.PutUint64`.
unfoldable pub timestamp : ℕ → List ℕ
timestamp ms =
    ms / 2 ^ 40 % 256
    ∷ ms / 2 ^ 32 % 256
    ∷ ms / 2 ^ 24 % 256
    ∷ ms / 2 ^ 16 % 256
    ∷ ms / 2 ^ 8 % 256
    ∷ ms % 256
    ∷ []

-- The lines of `encode` that fill `out`; bits of two bytes that do not overlap are added.
unfoldable pub symbols : List ℕ → List ℕ
unfolding at
symbols raw =
    symbol (high 5 (at raw 0))
    ∷ symbol (low 5 (at raw 0))
    ∷ symbol (high 3 (at raw 1))
    ∷ symbol (low 3 (at raw 1) * 4 + high 6 (at raw 2))
    ∷ symbol (low 6 (at raw 2) / 2)
    ∷ symbol (low 1 (at raw 2) * 16 + high 4 (at raw 3))
    ∷ symbol (low 4 (at raw 3) * 2 + high 7 (at raw 4))
    ∷ symbol (low 7 (at raw 4) / 4)
    ∷ symbol (low 2 (at raw 4) * 8 + high 5 (at raw 5))
    ∷ symbol (low 5 (at raw 5))
    ∷ symbol (high 3 (at raw 6))
    ∷ symbol (low 3 (at raw 6) * 4 + high 6 (at raw 7))
    ∷ symbol (low 6 (at raw 7) / 2)
    ∷ symbol (low 1 (at raw 7) * 16 + high 4 (at raw 8))
    ∷ symbol (low 4 (at raw 8) * 2 + high 7 (at raw 9))
    ∷ symbol (low 7 (at raw 9) / 4)
    ∷ symbol (low 2 (at raw 9) * 8 + high 5 (at raw 10))
    ∷ symbol (low 5 (at raw 10))
    ∷ symbol (high 3 (at raw 11))
    ∷ symbol (low 3 (at raw 11) * 4 + high 6 (at raw 12))
    ∷ symbol (low 6 (at raw 12) / 2)
    ∷ symbol (low 1 (at raw 12) * 16 + high 4 (at raw 13))
    ∷ symbol (low 4 (at raw 13) * 2 + high 7 (at raw 14))
    ∷ symbol (low 7 (at raw 14) / 4)
    ∷ symbol (low 2 (at raw 14) * 8 + high 5 (at raw 15))
    ∷ symbol (low 5 (at raw 15))
    ∷ []

-- `encode`
unfoldable pub encode : ℕ → List ℕ → List ℕ
unfolding timestamp symbols
encode ms entropy = symbols (timestamp ms ++ entropy)

-- The variables of the package.
pub record Generator : Type 0 where
  pub last_ms : ℕ
  pub last_rand : List ℕ

-- `New` at the time `ms`, where `rand.Read` gives the bytes `fresh`.
unfoldable pub new : ℕ → List ℕ → Generator → List ℕ × Generator
unfolding increment encode
new ms fresh g =
    if eqb ms g.last_ms
    then (
      encode ms (increment g.last_rand),
      record { last_ms = ms; last_rand = increment g.last_rand },
    )
    else (encode ms fresh, record { last_ms = ms; last_rand = fresh })
