-- ===== src/Cron/Fields.antt =====
-- What a field of application/service/scheduledtask/cron.go allows: the values of its tokens' grids.
use agent_runtime_client.Base.{
  ℕ, zero, suc, ◌^◌, ◌<◌, ◌≤◌, ℤ, pos, negsuc, String, Bool, true, false, ◌&&◌, ◌||◌, Option, none,
  some, List, [], ◌∷◌, ◌++◌, ◌≡◌, refl, sym, ap, ap₂, ◌∙◌, ◌⊎◌, inl, inr, arith, eqb, ltb, leb, any,
  length, Bool-cases, ltb→lt, both_true, All,
}
use Prim.Native.Char.{code}
use agent_runtime_client.Cron.{
  CronError, Parsed, good, bad, refuse, split, atoi, word, step_value, positive_number,
  negative_number, negated, unsigned, read_step, read_range, int_lt, Token, read_token,
  token_values, expand_tokens, expand_cron_field, out_of_bounds, empty_field, ◌>>=◌, has,
  check_bounds, read_pieces,
}
use agent_runtime_client.Cron.Spread.{on_grid, has-spread}

-- A token within the range of its field.
pub record Within (min max : ℕ) (t : Token) : Type 0 where
  pub first : min ≤ word t.start
  pub ordered : word t.start ≤ word t.last
  pub final : word t.last ≤ max
  pub positive : 0 < t.step
  pub machine : t.step < 2 ^ 63

-- An integer that `strconv.Atoi` reads has 64 bits.
abbrev Narrow : Option ℤ → Type 0
Narrow none = Unit {0}
Narrow (some (pos n)) = n < 2 ^ 63
Narrow (some (negsuc n)) = n < 2 ^ 63

positive_Narrow : (n : Option ℕ) → Narrow (positive_number n)
unfolding positive_number
positive_Narrow none = tt
positive_Narrow (some n) = elim (Bool-cases (ltb n (2 ^ 63))) [
  | inl h ↦ rw h (ltb→lt _ _ h)
  | inr h ↦ rw h tt
]

negative_Narrow : (n : Option ℕ) → Narrow (negative_number n)
unfolding negative_number negated
negative_Narrow none = tt
negative_Narrow (some zero) = omega arith
negative_Narrow (some (suc n)) = elim (Bool-cases (leb (suc n) (2 ^ 63))) [
  | inl h ↦ rw h (ground arith)
  | inr h ↦ rw h tt
]

atoi-Narrow : (s : String) → Narrow (atoi s)
unfolding atoi
atoi-Narrow String.[] = tt
atoi-Narrow (String.◌∷◌ c s) = elim (Bool-cases (eqb (code c) b'-')) [
  | inl h ↦ rw (h, atoi) (negative_Narrow (unsigned s))
  | inr h ↦
      rw (h, atoi)
        (elim (Bool-cases (eqb (code c) b'+')) [
          | inl k ↦ rw k (positive_Narrow (unsigned s))
          | inr k ↦ rw k (positive_Narrow (unsigned (String.◌∷◌ c s)))
        ])
]

-- A step that is read is a positive 64-bit integer.
abbrev Stepped : Parsed (String × ℕ) → Type 0
Stepped (bad e) = Unit {0}
Stepped (good (base, step)) = (0 < step) × (step < 2 ^ 63)

step_value-Stepped : (base : String) (z : Option ℤ) → Narrow z → Stepped (step_value base z)
unfolding step_value
step_value-Stepped base none n = tt
step_value-Stepped base (some (pos k)) n = elim (Bool-cases (ltb 0 k)) [
  | inl h ↦ rw h (ltb→lt _ _ h, n)
  | inr h ↦ rw h tt
]
step_value-Stepped base (some (negsuc k)) n = tt

read_pieces-Stepped : (token : String) (ps : List String) → Stepped (read_pieces token ps)
unfolding read_pieces
read_pieces-Stepped token [] = (omega arith, omega arith)
read_pieces-Stepped token (base ∷ []) = (omega arith, omega arith)
read_pieces-Stepped token (base ∷ step ∷ []) =
    step_value-Stepped base (atoi step) (atoi-Narrow step)
read_pieces-Stepped token (base ∷ step ∷ x ∷ xs) = tt

check_bounds-Within :
    (min max : ℕ) (t k : Token)
    → 0 < t.step
    → t.step < 2 ^ 63
    → check_bounds min max t ≡ good k
    → Within min max k
unfolding check_bounds
check_bounds-Within min max t k p q h =
    elim (Bool-cases
      (int_lt t.start (pos min) || int_lt (pos max) t.last || int_lt t.last t.start)) [
        | inl e ↦ let c : bad (out_of_bounds min max) ≡ good k = rw e at h in cc
        | inr e ↦
            let c : good t ≡ good k = rw e at h in
            let s : t ≡ k = cc in rw (← s) (within min max t.start t.last t.step p q e)
      ]
  where
    within :
        (min max : ℕ) (start last : ℤ) (step : ℕ)
        → 0 < step
        → step < 2 ^ 63
        → (int_lt start (pos min) || int_lt (pos max) last || int_lt last start) ≡ false
        → Within min max (record { start = start; last = last; step = step })
    within min max (pos a) (pos b) step p q e = record {
      first = ground arith;
      ordered = ground arith;
      final = ground arith;
      positive = p;
      machine = q;
    }
    within min max (pos a) (negsuc b) step p q e = absurd (ground arith)
    within min max (negsuc a) (pos b) step p q e = absurd (ground arith)
    within min max (negsuc a) (negsuc b) step p q e = absurd (ground arith)

bind-good :
    {A B : Type 0} (m : Parsed A) (f : A → Parsed B) (b : B)
    → (m >>= f) ≡ good b
    → (a : A) × ((m ≡ good a) × (f a ≡ good b))
bind-good (good a) f b e = (a, (refl, e))
bind-good (bad x) f b e = cc

Stepped-at :
    (m : Parsed (String × ℕ)) (b : String × ℕ) → Stepped m → m ≡ good b → (0 < b.1) × (b.1 < 2 ^ 63)
Stepped-at m b s e = let t : Stepped (good b) = rw e at s in t

-- A token that is read lies in the range of its field, and its step is positive.
pub read_token-Within :
    (min max : ℕ) (token : String) (k : Token)
    → read_token min max token ≡ good k
    → Within min max k
unfolding read_token read_step
read_token-Within min max token k h =
    let (bs, (e, h1)) = bind-good (read_step token) _ k h in
    let (ends, (e2, h2)) = bind-good (read_range bs.0 min max) _ k h1 in
    let (p, q) = Stepped-at _ bs (read_pieces-Stepped token _) e in
    check_bounds-Within min max _ k p q h2

-- The step of a token is so small that the loop does not wrap around.
abbrev pub small_step : ℕ → ℕ → String → Bool
small_step min max token = elim (read_token min max token) [
  | bad e ↦ true
  | good k ↦ leb k.step (2 ^ 62)
]

-- What a token allows.
abbrev pub allows : ℕ → ℕ → ℕ → String → Bool
allows min max x token = elim (read_token min max token) [
  | bad e ↦ false
  | good k ↦ on_grid (word k.start) (word k.last) k.step x
]

abbrev pub all_small : ℕ → ℕ → List String → Bool
all_small min max [] = true
all_small min max (t ∷ ts) = small_step min max t && all_small min max ts

has-append : (x : ℕ) (vs ws : List ℕ) → has x (vs ++ ws) ≡ (has x vs || has x ws)
has-append x [] ws = refl
has-append x (v ∷ vs) ws = rw (has-append x vs ws) (or_assoc (eqb v x) (has x vs) (has x ws))
  where
    or_assoc : (a b c : Bool) → (a || (b || c)) ≡ (a || b || c)
    or_assoc true b c = refl
    or_assoc false b c = refl

has-token_values :
    (min max x : ℕ) (k : Token)
    → max < 60
    → Within min max k
    → k.step ≤ 2 ^ 62
    → has x (token_values k) ≡ on_grid (word k.start) (word k.last) k.step x
has-token_values min max x k l w s =
    let p = w.first in
    let q = w.ordered in
    let r = w.final in
    has-spread 127 (word k.start) (word k.last) k.step x w.positive s (omega arith) (omega arith)
      (omega arith)

allows_good :
    (min max x : ℕ) (t : String) (k : Token)
    → read_token min max t ≡ good k
    → allows min max x t ≡ on_grid (word k.start) (word k.last) k.step x
allows_good min max x t k e = rw (e, allows) refl

small_good :
    (min max : ℕ) (t : String) (k : Token)
    → read_token min max t ≡ good k
    → small_step min max t ≡ true
    → k.step ≤ 2 ^ 62
small_good min max t k e s =
    let f : leb k.step (2 ^ 62) ≡ true = rw (e, small_step) at s in ground arith

-- A token that is read, and lies in the range of its field.
abbrev pub WellFormed : ℕ → ℕ → String → Type 0
WellFormed min max t = (k : Token) × ((read_token min max t ≡ good k) × Within min max k)

expand_tokens-has :
    (min max x : ℕ) (ts : List String) (vs : List ℕ)
    → max < 60
    → all_small min max ts ≡ true
    → expand_tokens min max ts ≡ good vs
    → All (WellFormed min max) ts × (has x vs ≡ any (allows min max x) ts)
unfolding expand_tokens
expand_tokens-has min max x [] vs l s h = let c : [] ≡ vs = cc in (tt, rw (← c) refl)
expand_tokens-has min max x (t ∷ ts) vs l s h =
    let (k, (e, h1)) = bind-good (read_token min max t) _ vs h in
    let (rest, (e2, h2)) = bind-good (expand_tokens min max ts) _ vs h1 in
    let c : token_values k ++ rest ≡ vs = cc in
    let (s1, s2) = both_true _ _ s in
    let w = read_token-Within min max t k e in
    let a = has-token_values min max x k l w (small_good min max t k e s1) in
    let (ws, b) = expand_tokens-has min max x ts rest l s2 e2 in
    (
      ((k, (e, w)), ws),
      ap (has x) (sym c)
          ∙ has-append x (token_values k) rest
          ∙ ap₂ (λ p q. p || q) (a ∙ sym (allows_good min max x t k e)) b,
    )

-- If a field whose range lies below 60, and whose steps are at most 2 ^ 62, is expanded, then every one
-- of its tokens is read, lies in the range and has a positive step, and the field allows exactly the
-- values that one of its tokens allows: those from its start to its last value in steps from the start.
pub expand_cron_field-has :
    (raw : String) (min max x : ℕ) (vs : List ℕ)
    → max < 60
    → all_small min max (split (λ c. eqb c b',') raw) ≡ true
    → expand_cron_field raw min max ≡ good vs
    → All (WellFormed min max) (split (λ c. eqb c b',') raw)
      × (has x vs ≡ any (allows min max x) (split (λ c. eqb c b',') raw))
unfolding expand_cron_field
expand_cron_field-has raw min max x vs l s h =
    let (ws, (e, h1)) = bind-good (expand_tokens min max _) _ vs h in
    let (u, (e2, h2)) = bind-good (refuse (eqb (length ws) 0) empty_field) _ vs h1 in
    let c : ws ≡ vs = cc in
    let (fine, same) = expand_tokens-has min max x _ ws l s e in (fine, rw (← c) same)

allows_bounds : (min max x : ℕ) (t : String) → allows min max x t ≡ true → (min ≤ x) × (x ≤ max)
allows_bounds min max x t h = elim (parsed (read_token min max t)) [
  | inl (k, e) ↦
      let w = read_token-Within min max t k e in
      let g : on_grid (word k.start) (word k.last) k.step x ≡ true =
        sym (allows_good min max x t k e) ∙ h in
      bounds (word k.start) (word k.last) k.step g w.first w.final
  | inr (b, e) ↦ let g : false ≡ true = rw (e, allows) at h in cc
]
  where
    parsed : (m : Parsed Token) → ((k : Token) × (m ≡ good k)) ⊎ ((e : CronError) × (m ≡ bad e))
    parsed (good k) = inl (k, refl)
    parsed (bad e) = inr (e, refl)

    bounds : (v e s : ℕ) → on_grid v e s x ≡ true → min ≤ v → e ≤ max → (min ≤ x) × (x ≤ max)
    bounds v e s g p q = (ground arith, ground arith)

any_bounds :
    (min max x : ℕ) (ts : List String) → any (allows min max x) ts ≡ true → (min ≤ x) × (x ≤ max)
any_bounds min max x [] h = cc
any_bounds min max x (t ∷ ts) h = elim (Bool-cases (allows min max x t)) [
  | inl e ↦ allows_bounds min max x t e
  | inr e ↦ let g : any (allows min max x) ts ≡ true = rw e at h in any_bounds min max x ts g
]

-- Under the same conditions a field allows values of its range only.
expand_cron_field-bounds :
    (raw : String) (min max x : ℕ) (vs : List ℕ)
    → max < 60
    → all_small min max (split (λ c. eqb c b',') raw) ≡ true
    → expand_cron_field raw min max ≡ good vs
    → has x vs ≡ true
    → (min ≤ x) × (x ≤ max)
expand_cron_field-bounds raw min max x vs l s h m =
    any_bounds min max x _ (sym (expand_cron_field-has raw min max x vs l s h).1 ∙ m)
