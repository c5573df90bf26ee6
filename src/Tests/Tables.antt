-- ===== src/Tests/Tables.antt =====
-- Tables of a database that are lists in a record, with the behaviour that the statements document.
use agent_runtime_client.Base.{
  ℕ, zero, suc, ◌<◌, Bool, true, false, List, [], ◌∷◌, ◌++◌, map, ◌≡◌, refl, sym, ap, ◌∙◌, inl, inr,
  any, keep, take, length, if◌then◌else◌, arith, Bool-cases,
}
use agent_runtime_client.Protocol.Error.{Result, ok}
use agent_runtime_client.Repository.{Table}
use agent_runtime_client.Repository.Laws.{Lawful}

abbrev limited : {R : Type 0} → ℕ → List R → List R
limited zero rows = rows
limited (suc n) rows = take (suc n) rows

-- A table kept in a field.
abbrev pub table : {M R : Type 0} → (M → List R) → (List R → M → M) → Table M R
table get set = record {
  rows = get;
  create_or_ignore = λ conflicts row d.
      if any conflicts (get d) then (ok 0, d) else (ok 1, set (get d ++ row ∷ []) d);
  create_or_assign = λ conflicts assign row d.
      if any conflicts (get d)
      then (ok 1, set (map (λ r. if conflicts r then assign r else r) (get d)) d)
      else (ok 1, set (get d ++ row ∷ []) d);
  update = λ test assign d.
      (ok (length (keep test (get d))), set (map (λ r. if test r then assign r else r) (get d)) d);
  find = λ test before limit d. (ok (limited limit (keep test (get d))), d);
}

kept_some :
    {R : Type 0} (test : R → Bool) (rows : List R)
    → 0 < length (keep test rows)
    → any test rows ≡ true
kept_some test [] h = absurd (omega arith)
kept_some test (r ∷ rows) h = elim (Bool-cases (test r)) [
  | inl e ↦ rw e refl
  | inr e ↦ let g : 0 < length (keep test rows) = rw e at h in rw e (kept_some test rows g)
]

kept_none :
    {R : Type 0} (test : R → Bool) (set : R → R) (rows : List R)
    → length (keep test rows) ≡ 0
    → map (λ r. if test r then set r else r) rows ≡ rows
kept_none test set [] h = refl
kept_none test set (r ∷ rows) h = elim (Bool-cases (test r)) [
  | inl e ↦ let g : suc (length (keep test rows)) ≡ 0 = rw e at h in absurd (omega arith)
  | inr e ↦
      let g : length (keep test rows) ≡ 0 = rw e at h in
      rw e (ap (λ l. r ∷ l) (kept_none test set rows g))
]

ok_number : (m n : ℕ) → ok m ≡ ok n → m ≡ n
ok_number m n e = cc

abbrev choose : {M : Type 0} → Bool → M → M → Result ℕ × M
choose b x y = if b then (ok 0, x) else (ok 1, y)

ignores :
    {M R : Type 0} (b : Bool) (x y : M) (n : ℕ) (get : M → List R)
    → (choose b x y).0 ≡ ok n
    → b ≡ true
    → (n ≡ 0) × (get (choose b x y).1 ≡ get x)
ignores true x y n get e h = (sym (ok_number 0 n e), refl)
ignores false x y n get e h = cc

inserts :
    {M R : Type 0} (b : Bool) (x y : M) (n : ℕ) (get : M → List R)
    → (choose b x y).0 ≡ ok n
    → b ≡ false
    → (0 < n) × (get (choose b x y).1 ≡ get y)
inserts true x y n get e h = cc
inserts false x y n get e h = (let k = ok_number 1 n e in omega arith, refl)

pub lawful :
    {M R : Type 0} (get : M → List R) (set : List R → M → M)
    → ((rows : List R) (d : M) → get (set rows d) ≡ rows)
    → Lawful (table get set)
lawful get set law = record {
  ignored = λ conflicts row d n e there. ignores (any conflicts (get d)) d _ n get e there;
  inserted = λ conflicts row d n e gone.
      let (p, q) = inserts (any conflicts (get d)) d (set (get d ++ row ∷ []) d) n get e gone in
      (p, q ∙ law (get d ++ row ∷ []) d);
  updated = λ test assign d n e. law _ d;
  matched =
      λ test assign d n e some_row. let k = ok_number _ n e in kept_some test (get d) (omega arith);
  unchanged = λ test assign d e. law _ d ∙ kept_none test assign (get d) (ok_number _ 0 e);
}
