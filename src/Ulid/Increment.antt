-- ===== src/Ulid/Increment.antt =====
-- `increment` of pkg/ulid/ulid.go on the big-endian number of its bytes.
use agent_runtime_client.Base.{
  ℕ, suc, ◌+◌, ◌*◌, ◌%◌, ◌^◌, ◌<◌, true, false, List, [], ◌∷◌, ◌≡◌, refl, ap, ◌∙◌, inl, inr, arith,
  eqb, if◌then◌else◌, length, Bool-cases, eqb_iff,
}
use agent_runtime_client.Ulid.{bump, increment}
use agent_runtime_client.Ulid.Value.{Bytes, Entropy, value_from, value_ten}

bump-length : (bs : List ℕ) → length (bump bs).0 ≡ length bs
unfolding bump
bump-length [] = refl
bump-length (b ∷ bs) = elim (Bool-cases (bump bs).1) [
  | inl e ↦ rw e (ap suc (bump-length bs))
  | inr e ↦ rw e (ap suc (bump-length bs))
]

bump-Bytes : (bs : List ℕ) → Bytes bs → Bytes (bump bs).0
unfolding bump
bump-Bytes [] p = tt
bump-Bytes (b ∷ bs) (p, q) = elim (Bool-cases (bump bs).1) [
  | inl e ↦ rw e (omega arith, bump-Bytes bs q)
  | inr e ↦ rw e (p, bump-Bytes bs q)
]

-- The bytes go up by one, and a carry goes to the number before them.
bump-value :
    (bs : List ℕ) (n : ℕ)
    → Bytes bs
    → value_from n bs + 1 ≡ value_from (if (bump bs).1 then n + 1 else n) (bump bs).0
unfolding bump value_from
bump-value [] n p = refl
bump-value (b ∷ bs) n (p, q) =
    let ih = bump-value bs (n * 256 + b) q in
    elim (Bool-cases (bump bs).1) [
      | inl e ↦
          let go : value_from (n * 256 + b) bs + 1 ≡ value_from (n * 256 + b + 1) (bump bs).0 =
            rw e at ih in
          elim (Bool-cases (eqb ((b + 1) % 256) 0)) [
            | inl z ↦ rw (e, z) (go ∙ ap (λ k. value_from k (bump bs).0) (wrapped n b p z))
            | inr z ↦ rw (e, z) (go ∙ ap (λ k. value_from k (bump bs).0) (stepped n b p z))
          ]
      | inr e ↦
          let go : value_from (n * 256 + b) bs + 1 ≡ value_from (n * 256 + b) (bump bs).0 =
            rw e at ih in
          rw e go
    ]
  where
    wrapped :
        (n b : ℕ)
        → b < 256
        → eqb ((b + 1) % 256) 0 ≡ true
        → n * 256 + b + 1 ≡ (n + 1) * 256 + (b + 1) % 256
    wrapped n b p z = let e : (b + 1) % 256 ≡ 0 = (eqb_iff _ _).0 z in omega arith

    stepped :
        (n b : ℕ)
        → b < 256
        → eqb ((b + 1) % 256) 0 ≡ false
        → n * 256 + b + 1 ≡ n * 256 + (b + 1) % 256
    stepped n b p z = ground arith

-- The successor of ten bytes has ten bytes.
pub increment-Entropy : (e : List ℕ) → Entropy e → Entropy (increment e)
unfolding increment
increment-Entropy e w = record { size = bump-length e ∙ w.size; bytes = bump-Bytes e w.bytes }

-- `increment` adds one to the big-endian number of ten bytes, modulo 2 ^ 80.
pub increment-value :
    (e : List ℕ) → Entropy e → value_from 0 (increment e) ≡ (value_from 0 e + 1) % 2 ^ 80
unfolding increment
increment-value e w =
    let next = increment-Entropy e w in
    let (h, l) = value_ten 1 (increment e) next.size next.bytes in
    let (h', l') = value_ten 0 e w.size w.bytes in
    let b = bump-value e 0 w.bytes in
    elim (Bool-cases (bump e).1) [
      | inl c ↦
          let over : value_from 0 e + 1 ≡ value_from 1 (increment e) = rw c at b in omega arith
      | inr c ↦
          let same : value_from 0 e + 1 ≡ value_from 0 (increment e) = rw c at b in omega arith
    ]
