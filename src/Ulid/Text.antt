-- ===== src/Ulid/Text.antt =====
-- The identifiers of pkg/ulid/ulid.go as texts, in the order of their bytes.
use agent_runtime_client.Base.{
  ℕ, zero, suc, ◌+◌, ◌*◌, ◌/◌, ◌^◌, ◌<◌, ◌≤◌, Bool, true, false, List, [], ◌∷◌, ◌++◌, map, ◌≡◌,
  refl, sym, ap, ◌⊎◌, inl, inr, arith, eqb, ltb, if◌then◌else◌, length, Bool-cases, eqb_iff, All,
}
use agent_runtime_client.Ulid.{
  Generator, at, symbol, high, low, timestamp, symbols, encode, increment, new,
}
use agent_runtime_client.Ulid.Value.{
  Bytes, Entropy, number_from, number_from-symbol, value_from, timestamp_raw, all_below,
  all_below_lem,
}
use agent_runtime_client.Ulid.Increment.{increment-Entropy}
use agent_runtime_client.Ulid.Order.{new-Entropy, new-Increasing}

-- `<` on strings.
unfoldable pub less : List ℕ → List ℕ → Bool
less [] [] = false
less [] (d ∷ ds) = true
less (c ∷ cs) [] = false
less (c ∷ cs) (d ∷ ds) = if eqb c d then less cs ds else ltb c d

abbrev Digits : List ℕ → Type 0
Digits ds = All (λ d. d < 32) ds

-- A symbol is below another exactly as their places are: checked for all places.
symbol_order : (c d : ℕ) → c < d → d < 32 → ltb (symbol c) (symbol d) ≡ true
unfolding symbol all_below
symbol_order c d l m =
    all_below_lem (λ c. ltb (symbol c) (symbol d)) d c
      (all_below_lem (λ d. all_below (λ c. ltb (symbol c) (symbol d)) d) 32 d refl m) l

number_from-less :
    (ds es : List ℕ) (m n : ℕ)
    → Digits ds
    → Digits es
    → length ds ≡ length es
    → m < n
    → number_from m (map symbol ds) < number_from n (map symbol es)
unfolding number_from
number_from-less [] [] m n p q l h = h
number_from-less [] (e ∷ es) m n p q l h = absurd (omega arith)
number_from-less (d ∷ ds) [] m n p q l h = absurd (omega arith)
number_from-less (d ∷ ds) (e ∷ es) m n (p, ps) (q, qs) l h =
    let a : number_from m (map symbol (d ∷ ds)) ≡ number_from (m * 32 + d) (map symbol ds) =
      number_from-symbol m d (map symbol ds) p in
    let b : number_from n (map symbol (e ∷ es)) ≡ number_from (n * 32 + e) (map symbol es) =
      number_from-symbol n e (map symbol es) q in
    let c = number_from-less ds es (m * 32 + d) (n * 32 + e) ps qs (omega arith) (omega arith) in
    omega arith

less_cons :
    (c d : ℕ) (cs ds : List ℕ) → less (c ∷ cs) (d ∷ ds) ≡ (if eqb c d then less cs ds else ltb c d)
unfolding less
less_cons c d cs ds = refl

order : (d e : ℕ) → (d < e) ⊎ ((d ≡ e) ⊎ (e < d))
order d e = omega arith

below : (a b : ℕ) (xs ys : List ℕ) → ltb a b ≡ true → less (a ∷ xs) (b ∷ ys) ≡ true
unfolding less
below a b xs ys h = elim (Bool-cases (eqb a b)) [ inl e ↦ absurd (ground arith) | inr e ↦ rw e h ]

beside : (a b : ℕ) (xs ys : List ℕ) → a ≡ b → less xs ys ≡ true → less (a ∷ xs) (b ∷ ys) ≡ true
unfolding less
beside a b xs ys e h = let t : eqb a b ≡ true = (eqb_iff a b).1 e in rw t h

-- Symbols that stand for a smaller number come before.
number_less :
    (ds es : List ℕ) (n : ℕ)
    → Digits ds
    → Digits es
    → length ds ≡ length es
    → number_from n (map symbol ds) < number_from n (map symbol es)
    → less (map symbol ds) (map symbol es) ≡ true
number_less [] [] n p q l h = absurd (omega arith)
number_less [] (e ∷ es) n p q l h = absurd (omega arith)
number_less (d ∷ ds) [] n p q l h = absurd (omega arith)
number_less (d ∷ ds) (e ∷ es) n (p, ps) (q, qs) l h =
    let a : number_from n (map symbol (d ∷ ds)) ≡ number_from (n * 32 + d) (map symbol ds) =
      number_from-symbol n d (map symbol ds) p in
    let b : number_from n (map symbol (e ∷ es)) ≡ number_from (n * 32 + e) (map symbol es) =
      number_from-symbol n e (map symbol es) q in
    elim (order d e) [
      | inl less_than ↦
          below (symbol d) (symbol e) (map symbol ds) (map symbol es) (symbol_order d e less_than q)
      | inr (inl same) ↦
          let f : number_from (n * 32 + e) (map symbol es)
              ≡ number_from (n * 32 + d) (map symbol es) =
            ap (λ k. number_from (n * 32 + k) (map symbol es)) (sym same) in
          beside _ _ _ _ (ap symbol same)
            (number_less ds es (n * 32 + d) ps qs (omega arith) (omega arith))
      | inr (inr more) ↦
          let c =
            number_from-less es ds (n * 32 + e) (n * 32 + d) qs ps (omega arith) (omega arith) in
          absurd (omega arith)
    ]

digits : List ℕ → List ℕ
digits raw =
    high 5 (at raw 0)
    ∷ low 5 (at raw 0)
    ∷ high 3 (at raw 1)
    ∷ (low 3 (at raw 1) * 4 + high 6 (at raw 2))
    ∷ (low 6 (at raw 2) / 2)
    ∷ (low 1 (at raw 2) * 16 + high 4 (at raw 3))
    ∷ (low 4 (at raw 3) * 2 + high 7 (at raw 4))
    ∷ (low 7 (at raw 4) / 4)
    ∷ (low 2 (at raw 4) * 8 + high 5 (at raw 5))
    ∷ low 5 (at raw 5)
    ∷ high 3 (at raw 6)
    ∷ (low 3 (at raw 6) * 4 + high 6 (at raw 7))
    ∷ (low 6 (at raw 7) / 2)
    ∷ (low 1 (at raw 7) * 16 + high 4 (at raw 8))
    ∷ (low 4 (at raw 8) * 2 + high 7 (at raw 9))
    ∷ (low 7 (at raw 9) / 4)
    ∷ (low 2 (at raw 9) * 8 + high 5 (at raw 10))
    ∷ low 5 (at raw 10)
    ∷ high 3 (at raw 11)
    ∷ (low 3 (at raw 11) * 4 + high 6 (at raw 12))
    ∷ (low 6 (at raw 12) / 2)
    ∷ (low 1 (at raw 12) * 16 + high 4 (at raw 13))
    ∷ (low 4 (at raw 13) * 2 + high 7 (at raw 14))
    ∷ (low 7 (at raw 14) / 4)
    ∷ (low 2 (at raw 14) * 8 + high 5 (at raw 15))
    ∷ low 5 (at raw 15)
    ∷ []

at_byte : (n : ℕ) (bs : List ℕ) → Bytes bs → at bs n < 256
unfolding at
at_byte n [] p = omega arith
at_byte zero (b ∷ bs) (p, q) = p
at_byte (suc n) (b ∷ bs) (p, q) = at_byte n bs q

eight_small :
    {R : Type 0} (a b c d e : ℕ)
    → a < 256
    → b < 256
    → c < 256
    → d < 256
    → e < 256
    → R
    → (high 3 a < 32
        × (low 3 a * 4 + high 6 b < 32
            × (low 6 b / 2 < 32
                × (low 1 b * 16 + high 4 c < 32
                    × (low 4 c * 2 + high 7 d < 32
                        × (low 7 d / 4 < 32
                            × (low 2 d * 8 + high 5 e < 32 × (low 5 e < 32 × R))))))))
eight_small a b c d e p q r s t u = (
  omega arith,
  (
    omega arith,
    (omega arith, (omega arith, (omega arith, (omega arith, (omega arith, (omega arith, u)))))),
  ),
)

digits-Digits : (raw : List ℕ) → Bytes raw → Digits (digits raw)
unfolding digits
digits-Digits raw w =
    let b : (n : ℕ) → at raw n < 256 = λ n. at_byte n raw w in
    (
      let p = b 0 in omega arith,
      (
        let p = b 0 in omega arith,
        eight_small _ _ _ _ _ (b 1) (b 2) (b 3) (b 4) (b 5) (
            eight_small _ _ _ _ _ (b 6) (b 7) (b 8) (b 9) (b 10)
              (eight_small _ _ _ _ _ (b 11) (b 12) (b 13) (b 14) (b 15) (tt {0}))),
      ),
    )

encode-digits : (ms : ℕ) (e : List ℕ) → encode ms e ≡ map symbol (digits (timestamp ms ++ e))
unfolding encode symbols digits
encode-digits ms e = refl

length-digits : (raw other : List ℕ) → length (digits raw) ≡ length (digits other)
unfolding digits
length-digits raw other = refl

encode-less :
    (ms next : ℕ) (e f : List ℕ)
    → Entropy e
    → Entropy f
    → number_from 0 (encode ms e) < number_from 0 (encode next f)
    → less (encode ms e) (encode next f) ≡ true
encode-less ms next e f w v h =
    rw (encode-digits ms e, encode-digits next f)
      (number_less _ _ 0 (digits-Digits _ (timestamp_raw ms e w).1)
        (digits-Digits _ (timestamp_raw next f v).1) (length-digits _ _)
        (rw (encode-digits ms e, encode-digits next f) at h))

-- An identifier is greater than the one that stands for the variables of the package.
encode-less-new :
    (ms : ℕ) (fresh : List ℕ) (g : Generator)
    → Entropy fresh
    → Entropy g.last_rand
    → g.last_ms ≤ ms
    → ms < 2 ^ 48
    → value_from 0 g.last_rand + 1 < 2 ^ 80
    → less (encode g.last_ms g.last_rand) (new ms fresh g).0 ≡ true
unfolding new
encode-less-new ms fresh g f w later small room =
    let h = new-Increasing ms fresh g f w later small room in
    elim (Bool-cases (eqb ms g.last_ms)) [
      | inl e ↦
          let k : number_from 0 (encode g.last_ms g.last_rand)
              < number_from 0 (encode ms (increment g.last_rand)) =
            rw e at h in
          rw e (encode-less _ _ _ _ w (increment-Entropy g.last_rand w) k)
      | inr e ↦
          let k : number_from 0 (encode g.last_ms g.last_rand) < number_from 0 (encode ms fresh) =
            rw e at h in
          rw e (encode-less _ _ _ _ w f k)
    ]

-- What `New` returns is what it leaves in the variables.
new-kept :
    (ms : ℕ) (fresh : List ℕ) (g : Generator)
    → ((new ms fresh g).0 ≡ encode (new ms fresh g).1.last_ms (new ms fresh g).1.last_rand)
      × ((new ms fresh g).1.last_ms ≡ ms)
unfolding new
new-kept ms fresh g = elim (Bool-cases (eqb ms g.last_ms)) [
  | inl e ↦ rw e (refl, refl)
  | inr e ↦ rw e (refl, refl)
]

-- Two identifiers that a generator returns one after the other are in the order of their texts, the
-- second after the first: if the clock does not run backwards between them and has at most 48 bits,
-- if the random bytes are ten at a time, and if the randomness kept after the first is not the
-- greatest one, which the next would wrap around.
pub new-less :
    (ms next : ℕ) (fresh others : List ℕ) (g : Generator)
    → Entropy fresh
    → Entropy others
    → Entropy g.last_rand
    → ms ≤ next
    → next < 2 ^ 48
    → value_from 0 (new ms fresh g).1.last_rand + 1 < 2 ^ 80
    → less (new ms fresh g).0 (new next others (new ms fresh g).1).0 ≡ true
new-less ms next fresh others g f o w later small room =
    let (text, time) = new-kept ms fresh g in
    let ordered : (new ms fresh g).1.last_ms ≤ next = rw time later in
    rw text (
      encode-less-new next others (new ms fresh g).1 o (new-Entropy ms fresh g f w) ordered small
        room)
