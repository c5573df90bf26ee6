-- ===== src/Ulid/Value.antt =====
-- The symbols of pkg/ulid/ulid.go read back as a number.
use agent_runtime_client.Base.{
  ℕ, zero, suc, ◌+◌, ◌*◌, ◌/◌, ◌%◌, ◌^◌, ◌<◌, Bool, true, ◌&&◌, List, [], ◌∷◌, ◌++◌, ◌≡◌, refl, ap,
  ◌∙◌, arith, both_true, Bool-cases, inl, inr, eqb, if◌then◌else◌, length, All, eqb_iff,
}
use agent_runtime_client.Ulid.{crockford, symbol, high, low, timestamp, symbols, encode}

-- The place of a symbol in the alphabet.
place : ℕ → ℕ → List ℕ → ℕ
place c n [] = n
place c n (s ∷ ss) = if eqb c s then n else place c (n + 1) ss

unfoldable pub digit : ℕ → ℕ
unfolding place
digit c = place c 0 crockford

-- The number that symbols stand for, after the number `acc`.
unfoldable pub number_from : ℕ → List ℕ → ℕ
number_from acc [] = acc
number_from acc (c ∷ cs) = number_from (acc * 32 + digit c) cs

-- A big-endian number of bytes, after the number `acc`.
unfoldable pub value_from : ℕ → List ℕ → ℕ
value_from acc [] = acc
value_from acc (b ∷ bs) = value_from (acc * 256 + b) bs

abbrev pub Bytes : List ℕ → Type 0
Bytes bs = All (λ b. b < 256) bs

unfoldable pub all_below : (ℕ → Bool) → ℕ → Bool
all_below p zero = true
all_below p (suc n) = p n && all_below p n

pub all_below_lem : (p : ℕ → Bool) (n d : ℕ) → all_below p n ≡ true → d < n → p d ≡ true
unfolding all_below
all_below_lem p zero d h l = absurd (omega arith)
all_below_lem p (suc n) d h l =
    let (x, y) = both_true _ _ h in
    elim (Bool-cases (eqb d n)) [
      | inl e ↦ let q : d ≡ n = (eqb_iff d n).0 e in rw q x
      | inr e ↦ all_below_lem p n d y (ground arith)
    ]

-- Every symbol of the alphabet is read back as its place.
pub digit-symbol : (d : ℕ) → d < 32 → digit (symbol d) ≡ d
unfolding all_below digit symbol
digit-symbol d l = (eqb_iff _ _).0 (all_below_lem (λ d. eqb (digit (symbol d)) d) 32 d refl l)

-- Eight symbols as the code makes them from five bytes.
abbrev eight : ℕ → ℕ → ℕ → ℕ → ℕ → List ℕ → List ℕ
eight a b c d e rest =
    symbol (high 3 a)
    ∷ symbol (low 3 a * 4 + high 6 b)
    ∷ symbol (low 6 b / 2)
    ∷ symbol (low 1 b * 16 + high 4 c)
    ∷ symbol (low 4 c * 2 + high 7 d)
    ∷ symbol (low 7 d / 4)
    ∷ symbol (low 2 d * 8 + high 5 e)
    ∷ symbol (low 5 e)
    ∷ rest

bits :
    (n a b c d e : ℕ)
    → a < 256
    → b < 256
    → c < 256
    → d < 256
    → e < 256
    → ((((((((n * 32 + a / 8) * 32 + (a % 8 * 4 + b / 64)) * 32 + b % 64 / 2) * 32
                        + (b % 2 * 16 + c / 16))
                      * 32
                    + (c % 16 * 2 + d / 128))
                  * 32
                + d % 128 / 4)
              * 32
            + (d % 4 * 8 + e / 32))
          * 32
        + e % 32)
      ≡ ((((n * 256 + a) * 256 + b) * 256 + c) * 256 + d) * 256 + e
bits n a b c d e p q r s t = omega arith

pub number_from-symbol :
    (n d : ℕ) (rest : List ℕ)
    → d < 32
    → number_from n (symbol d ∷ rest) ≡ number_from (n * 32 + d) rest
unfolding number_from
number_from-symbol n d rest l = ap (λ k. number_from (n * 32 + k) rest) (digit-symbol d l)

number_from-eight :
    (n a b c d e : ℕ) (rest : List ℕ)
    → a < 256
    → b < 256
    → c < 256
    → d < 256
    → e < 256
    → number_from n (eight a b c d e rest)
      ≡ number_from (((((n * 256 + a) * 256 + b) * 256 + c) * 256 + d) * 256 + e) rest
number_from-eight n a b c d e rest p q r s t =
    number_from-symbol n (a / 8) _ (omega arith)
    ∙ number_from-symbol _ (a % 8 * 4 + b / 64) _ (omega arith)
    ∙ number_from-symbol _ (b % 64 / 2) _ (omega arith)
    ∙ number_from-symbol _ (b % 2 * 16 + c / 16) _ (omega arith)
    ∙ number_from-symbol _ (c % 16 * 2 + d / 128) _ (omega arith)
    ∙ number_from-symbol _ (d % 128 / 4) _ (omega arith)
    ∙ number_from-symbol _ (d % 4 * 8 + e / 32) _ (omega arith)
    ∙ number_from-symbol _ (e % 32) rest (omega arith)
    ∙ ap (λ k. number_from k rest) (bits n a b c d e p q r s t)

number_from-two :
    (a : ℕ) (rest : List ℕ)
    → a < 256
    → number_from 0 (symbol (high 5 a) ∷ symbol (low 5 a) ∷ rest) ≡ number_from (0 * 256 + a) rest
number_from-two a rest p =
    number_from-symbol 0 (a / 32) _ (omega arith)
    ∙ number_from-symbol _ (a % 32) rest (omega arith)
    ∙ ap (λ k. number_from k rest) (omega arith)

-- Sixteen bytes, read back from their symbols, are the number that they stand for.
pub number-symbols :
    (raw : List ℕ) → length raw ≡ 16 → Bytes raw → number_from 0 (symbols raw) ≡ value_from 0 raw
unfolding symbols value_from number_from
number-symbols
      (r0 ∷ r1 ∷ r2 ∷ r3 ∷ r4 ∷ r5 ∷ r6 ∷ r7 ∷ r8 ∷ r9 ∷ r10 ∷ r11 ∷ r12 ∷ r13 ∷ r14 ∷ r15 ∷ []) l
      (
        p0,
        (
          p1,
          (
            p2,
            (p3, (p4, (p5, (p6, (p7, (p8, (p9, (p10, (p11, (p12, (p13, (p14, (p15, u))))))))))))),
          ),
        ),
      ) =
    let third = eight r11 r12 r13 r14 r15 [] in
    let second = eight r6 r7 r8 r9 r10 third in
    number_from-two r0 (eight r1 r2 r3 r4 r5 second) p0
    ∙ number_from-eight (0 * 256 + r0) r1 r2 r3 r4 r5 second p1 p2 p3 p4 p5
    ∙ number_from-eight (value_from 0 (r0 ∷ r1 ∷ r2 ∷ r3 ∷ r4 ∷ r5 ∷ [])) r6 r7 r8 r9 r10 third p6
        p7 p8 p9 p10
    ∙ number_from-eight (value_from 0 (r0 ∷ r1 ∷ r2 ∷ r3 ∷ r4 ∷ r5 ∷ r6 ∷ r7 ∷ r8 ∷ r9 ∷ r10 ∷ []))
        r11 r12 r13 r14 r15 [] p11 p12 p13 p14 p15
number-symbols _ l p = absurd (omega arith)

-- The random part of an identifier.
pub record Entropy (bs : List ℕ) : Type 0 where
  pub size : length bs ≡ 10
  pub bytes : Bytes bs

-- Ten bytes after a number.
pub value_ten :
    (n : ℕ) (e : List ℕ)
    → length e ≡ 10
    → Bytes e
    → (value_from n e ≡ n * 2 ^ 80 + value_from 0 e) × (value_from 0 e < 2 ^ 80)
unfolding value_from
value_ten n (e0 ∷ e1 ∷ e2 ∷ e3 ∷ e4 ∷ e5 ∷ e6 ∷ e7 ∷ e8 ∷ e9 ∷ []) l
      (p0, (p1, (p2, (p3, (p4, (p5, (p6, (p7, (p8, (p9, u)))))))))) =
    (omega arith, omega arith)
value_ten n _ l p = absurd (omega arith)

timestamp_value :
    (ms : ℕ) (e : List ℕ) → value_from 0 (timestamp ms ++ e) ≡ value_from (ms % 2 ^ 48) e
unfolding value_from timestamp
timestamp_value ms e = ap (λ n. value_from n e) (omega arith)

pub timestamp_raw :
    (ms : ℕ) (e : List ℕ)
    → Entropy e
    → (length (timestamp ms ++ e) ≡ 16) × Bytes (timestamp ms ++ e)
unfolding timestamp
timestamp_raw ms e w = (
  (let l = w.size in omega arith),
  (omega arith, (omega arith, (omega arith, (omega arith, (omega arith, (omega arith, w.bytes)))))),
)

-- The symbols of an identifier, read as a number in base 32, are the 48 low bits of its time
-- followed by its 80 random bits.
pub encode-number :
    (ms : ℕ) (e : List ℕ)
    → Entropy e
    → number_from 0 (encode ms e) ≡ ms % 2 ^ 48 * 2 ^ 80 + value_from 0 e
unfolding encode
encode-number ms e w =
    let (l, b) = timestamp_raw ms e w in
    number-symbols (timestamp ms ++ e) l b
    ∙ timestamp_value ms e
    ∙ (value_ten (ms % 2 ^ 48) e w.size w.bytes).0
