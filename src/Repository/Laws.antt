-- ===== src/Repository/Laws.antt =====
-- What infra/repository/repo/control/store.go relies on in the database, and rows by their key.
use agent_runtime_client.Base.{
  ℕ, ◌<◌, String, Bool, true, false, Option, none, some, List, [], ◌∷◌, ◌++◌, map, ◌≡◌, refl, inl,
  inr, ◌==◌, eq_iff, Bool-cases, any, if◌then◌else◌,
}
use agent_runtime_client.Protocol.Error.{ok}
use agent_runtime_client.Store.{Call}
pub use agent_runtime_client.Store.{next-ok}
use agent_runtime_client.Repository.{Table, Database}

-- `INSERT` and `UPDATE` as documented. The number of rows affected by an update counts the rows that
-- match, or only those that change, as the database has it.
pub record Lawful {D R : Type 0} (tb : Table D R) : Type 0 where
  pub ignored :
      (conflicts : R → Bool) (row : R) (d : D) (n : ℕ)
      → (tb.create_or_ignore conflicts row d).0 ≡ ok n
      → any conflicts (tb.rows d) ≡ true
      → (n ≡ 0) × (tb.rows (tb.create_or_ignore conflicts row d).1 ≡ tb.rows d)
  pub inserted :
      (conflicts : R → Bool) (row : R) (d : D) (n : ℕ)
      → (tb.create_or_ignore conflicts row d).0 ≡ ok n
      → any conflicts (tb.rows d) ≡ false
      → (0 < n) × (tb.rows (tb.create_or_ignore conflicts row d).1 ≡ tb.rows d ++ row ∷ [])
  pub updated :
      (test : R → Bool) (set : R → R) (d : D) (n : ℕ)
      → (tb.update test set d).0 ≡ ok n
      → tb.rows (tb.update test set d).1 ≡ map (λ r. if test r then set r else r) (tb.rows d)
  pub matched :
      (test : R → Bool) (set : R → R) (d : D) (n : ℕ)
      → (tb.update test set d).0 ≡ ok n
      → 0 < n
      → any test (tb.rows d) ≡ true
  pub unchanged :
      (test : R → Bool) (set : R → R) (d : D)
      → (tb.update test set d).0 ≡ ok 0
      → tb.rows (tb.update test set d).1 ≡ tb.rows d

-- A transaction that succeeds has run its statements.
pub record Transactional {D : Type 0} (db : Database D) : Type 0 where
  pub committed :
      (m : Call D (Unit {0})) (d : D)
      → (db.transaction m d).0 ≡ ok tt
      → ((m d).0 ≡ ok tt) × (db.tasks.rows (db.transaction m d).1 ≡ db.tasks.rows (m d).1)

module _ {R : Type 0} (key : R → String) where
  -- The row with a key.
  unfoldable pub row_of : String → List R → Option R
  row_of id [] = none
  row_of id (r ∷ rs) = if key r == id then some r else row_of id rs

  pub row_of-map :
      (id : String) (f : R → R) (rs : List R)
      → ((r : R) → key (f r) ≡ key r)
      → row_of id (map f rs)
        ≡ elim (row_of id rs) as (λ _. Option R) [ none ↦ none | some r ↦ some (f r) ]
  unfolding row_of
  row_of-map id f [] k = refl
  row_of-map id f (r ∷ rs) k = elim (Bool-cases (key r == id)) [
    | inl e ↦ rw (k r, e) refl
    | inr e ↦ rw (k r, e) (row_of-map id f rs k)
  ]

  pub row_of-present :
      (id : String) (rs : List R)
      → any (λ r. key r == id) rs ≡ true
      → (r : R) × (row_of id rs ≡ some r)
  unfolding row_of
  row_of-present id [] h = cc
  row_of-present id (r ∷ rs) h = elim (Bool-cases (key r == id)) [
    | inl e ↦ (r, rw e refl)
    | inr e ↦
        let g : any (λ r. key r == id) rs ≡ true = rw e at h in
        let (q, p) = row_of-present id rs g in (q, rw e p)
  ]

  pub row_of-absent :
      (id : String) (rs : List R) → any (λ r. key r == id) rs ≡ false → row_of id rs ≡ none
  unfolding row_of
  row_of-absent id [] h = refl
  row_of-absent id (r ∷ rs) h = elim (Bool-cases (key r == id)) [
    | inl e ↦ let g : true ≡ false = rw e at h in cc
    | inr e ↦ let g : any (λ r. key r == id) rs ≡ false = rw e at h in rw e (row_of-absent id rs g)
  ]

  pub row_of-append :
      (id : String) (rs : List R) (r : R)
      → row_of id (rs ++ r ∷ []) ≡ elim (row_of id rs) as (λ _. Option R) [
        | none ↦ (if key r == id then some r else none)
        | some q ↦ some q
      ]
  unfolding row_of
  row_of-append id [] r = refl
  row_of-append id (q ∷ rs) r = elim (Bool-cases (key q == id)) [
    | inl e ↦ rw e refl
    | inr e ↦ rw e (row_of-append id rs r)
  ]

pub row_of-key :
    {R : Type 0} (key : R → String) (id : String) (rs : List R) (r : R)
    → row_of key id rs ≡ some r
    → key r ≡ id
unfolding row_of
row_of-key key id [] r h = cc
row_of-key key id (q ∷ rs) r h = elim (Bool-cases (key q == id)) [
  | inl e ↦ let g : some q ≡ some r = rw e at h in let p : key q ≡ id = (eq_iff _ _).0 e in cc
  | inr e ↦ let g : row_of key id rs ≡ some r = rw e at h in row_of-key key id rs r g
]
