-- ===== src/Ulid/Order.antt =====
-- The order of the identifiers that `New` of pkg/ulid/ulid.go returns.
use agent_runtime_client.Base.{
  ℕ, ◌+◌, ◌^◌, ◌<◌, ◌≤◌, List, ◌≡◌, inl, inr, arith, eqb, Bool-cases, eqb_iff,
}
use agent_runtime_client.Ulid.{Generator, encode, increment, new}
use agent_runtime_client.Ulid.Value.{Entropy, number_from, value_from, value_ten, encode-number}
use agent_runtime_client.Ulid.Increment.{increment-Entropy, increment-value}

-- A generator keeps ten bytes, if the random bytes that it reads are ten.
pub new-Entropy :
    (ms : ℕ) (fresh : List ℕ) (g : Generator)
    → Entropy fresh
    → Entropy g.last_rand
    → Entropy (new ms fresh g).1.last_rand
unfolding new
new-Entropy ms fresh g f w = elim (Bool-cases (eqb ms g.last_ms)) [
  | inl e ↦ rw e (increment-Entropy g.last_rand w)
  | inr e ↦ rw e f
]

-- Two identifiers that a generator returns one after the other, read as numbers in base 32: while
-- the clock does not run backwards and has at most 48 bits, the second is greater, except where 2 ^ 80
-- identifiers would be needed within one millisecond.
pub new-Increasing :
    (ms : ℕ) (fresh : List ℕ) (g : Generator)
    → Entropy fresh
    → Entropy g.last_rand
    → g.last_ms ≤ ms
    → ms < 2 ^ 48
    → value_from 0 g.last_rand + 1 < 2 ^ 80
    → number_from 0 (encode g.last_ms g.last_rand) < number_from 0 (new ms fresh g).0
unfolding new
new-Increasing ms fresh g f w later small room =
    let before = encode-number g.last_ms g.last_rand w in
    let (h, l) = value_ten 0 g.last_rand w.size w.bytes in
    elim (Bool-cases (eqb ms g.last_ms)) [
      | inl e ↦
          let same : ms ≡ g.last_ms = (eqb_iff _ _).0 e in
          let next = encode-number ms (increment g.last_rand) (increment-Entropy g.last_rand w) in
          let up = increment-value g.last_rand w in rw (e, before, next) (omega arith)
      | inr e ↦ let next = encode-number ms fresh f in rw (e, before, next) (ground arith)
    ]
