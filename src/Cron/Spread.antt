-- ===== src/Cron/Spread.antt =====
-- The loop of `expandCronField` in application/service/scheduledtask/cron.go, and its grid.
use agent_runtime_client.Base.{
  ℕ, zero, suc, ◌+◌, ◌-◌, ◌%◌, ◌^◌, ◌<◌, ◌≤◌, Bool, true, false, ◌&&◌, ◌||◌, List, [], ◌∷◌, ◌≡◌,
  refl, sym, ap, ◌∙◌, inl, inr, arith, eqb, ltb, leb, if◌then◌else◌, Bool-cases, leb-true,
  leb-false, ltb→lt, both, and_false, eqb_iff, eqb-false, ◌≢◌,
}
use native.Mathlib.Nat.{zero-mod, mod-eq_of_lt, mod-eq-sub-mod}
use agent_runtime_client.Cron.{signed_le, spread, spread_fuel, has}

-- Whether the loop ends within so many tests.
unfoldable pub ends : ℕ → ℕ → ℕ → ℕ → Bool
ends zero value last step = false
ends (suc fuel) value last step =
    let rest = ends fuel ((value + step) % 2 ^ 64) last step in
    if signed_le value last then rest else true

small_le : (v e : ℕ) → v < 2 ^ 63 → e < 2 ^ 63 → signed_le v e ≡ leb v e
small_le v e p q = ground arith

ends_stop : (n v e s : ℕ) → signed_le v e ≡ false → ends (suc n) v e s ≡ true
unfolding ends
ends_stop n v e s h = rw h refl

ends_step :
    (n v e s : ℕ)
    → signed_le v e ≡ true
    → ends n ((v + s) % 2 ^ 64) e s ≡ true
    → ends (suc n) v e s ≡ true
unfolding ends
ends_step n v e s h k = rw h k

-- Below 2 ^ 62 nothing wraps around, and the values grow past the last one.
ends_small :
    (n v e s : ℕ) → 0 < s → s ≤ 2 ^ 62 → v < 2 ^ 63 → e < 60 → e < v + n → ends (suc n) v e s ≡ true
ends_small zero v e s p q r t l = ends_stop 0 v e s (ground arith)
ends_small (suc n) v e s p q r t l = elim (Bool-cases (leb v e)) [
  | inl h ↦
      let w : (v + s) % 2 ^ 64 ≡ v + s = ground arith in
      ends_step (suc n) v e s (small_le v e r (omega arith) ∙ h)
        (rw w (ends_small n (v + s) e s p q (ground arith) t (ground arith)))
  | inr h ↦ ends_stop (suc n) v e s (small_le v e r (omega arith) ∙ h)
]

negative_le : (w e : ℕ) → 2 ^ 63 ≤ w → w < 2 ^ 64 → e < 2 ^ 63 → signed_le w e ≡ true
negative_le w e p q r = ground arith

greater_le : (w e : ℕ) → e < w → w < 2 ^ 63 → signed_le w e ≡ false
greater_le w e p q = ground arith

-- Above 2 ^ 62 a value leaves the range at once, or two additions that wrap around lead below it.
large_round :
    (n v e s : ℕ)
    → 2 ^ 62 ≤ s
    → s < 2 ^ 63
    → v ≤ e
    → e < 60
    → ((w : ℕ) → w + 2 ≤ v → ends (suc (suc n)) w e s ≡ true)
    → ends (suc (suc (suc (suc n)))) v e s ≡ true
large_round n v e s p q r t again =
    let one : (v + s) % 2 ^ 64 ≡ v + s = omega arith in
    ends_step _ v e s (small_le v e (omega arith) (omega arith) ∙ leb-true v e r) (
      rw one (elim (Bool-cases (ltb (v + s) (2 ^ 63))) [
        | inl h ↦ ends_stop _ (v + s) e s (greater_le _ e (omega arith) (ltb→lt _ _ h))
        | inr h ↦
            let wrapped : 2 ^ 63 ≤ v + s = ground arith in
            ends_step _ (v + s) e s (negative_le _ e wrapped (omega arith) (omega arith))
              (elim (Bool-cases (ltb (v + s + s) (2 ^ 64))) [
                | inl k ↦
                    let below : v + s + s < 2 ^ 64 = ltb→lt _ _ k in
                    let two : (v + s + s) % 2 ^ 64 ≡ v + s + s = omega arith in
                    rw two (
                      ends_step _ (v + s + s) e s
                        (negative_le _ e (omega arith) below (omega arith))
                        (ends_stop _ _ e s (greater_le _ e (omega arith) (omega arith))))
                | inr k ↦
                    let above : 2 ^ 64 ≤ v + s + s = ground arith in
                    again ((v + s + s) % 2 ^ 64) (omega arith)
              ])
      ]))

ends_large :
    (n v e s : ℕ)
    → 2 ^ 62 ≤ s
    → s < 2 ^ 63
    → v ≤ e
    → e < 60
    → v ≤ n
    → ends (suc (suc (suc (suc n)))) v e s ≡ true
ends_large zero v e s p q r t l = large_round zero v e s p q r t (λ w h. absurd (omega arith))
ends_large (suc zero) v e s p q r t l =
    large_round (suc zero) v e s p q r t (λ w h. absurd (omega arith))
ends_large (suc (suc n)) v e s p q r t l =
    large_round (suc (suc n)) v e s p q r t
      (λ w h. ends_large n w e s p q (omega arith) t (omega arith))

ends_enough :
    (n v e s : ℕ)
    → 0 < s
    → s < 2 ^ 63
    → v ≤ e
    → e < 60
    → ends (suc (suc (suc (suc (60 + n))))) v e s ≡ true
ends_enough n v e s p q r t = elim (Bool-cases (leb s (2 ^ 62))) [
  | inl h ↦
      ends_small (suc (suc (suc (60 + n)))) v e s p (ground arith) (omega arith) t (omega arith)
  | inr h ↦ ends_large (60 + n) v e s (ground arith) q r t (omega arith)
]

spread_stop : (n v e s : ℕ) → signed_le v e ≡ false → spread (suc n) v e s ≡ []
unfolding spread
spread_stop n v e s h = rw h refl

spread_step :
    (n v e s : ℕ)
    → signed_le v e ≡ true
    → spread (suc n) v e s ≡ v ∷ spread n ((v + s) % 2 ^ 64) e s
unfolding spread
spread_step n v e s h = rw h refl

ends_rest :
    (n v e s : ℕ)
    → signed_le v e ≡ true
    → ends (suc n) v e s ≡ true
    → ends n ((v + s) % 2 ^ 64) e s ≡ true
unfolding ends
ends_rest n v e s h k = rw h at k

-- A loop that has ended is not changed by more fuel.
spread_same :
    (m n v e s : ℕ) → ends m v e s ≡ true → ends n v e s ≡ true → spread m v e s ≡ spread n v e s
unfolding ends
spread_same zero n v e s p q = cc
spread_same (suc m) zero v e s p q = cc
spread_same (suc m) (suc n) v e s p q = elim (Bool-cases (signed_le v e)) [
  | inl h ↦
      spread_step m v e s h
      ∙ ap (λ l. v ∷ l)
          (spread_same m n ((v + s) % 2 ^ 64) e s (ends_rest m v e s h p) (ends_rest n v e s h q))
      ∙ sym (spread_step n v e s h)
  | inr h ↦ spread_stop m v e s h ∙ sym (spread_stop n v e s h)
]

-- For every positive 64-bit step, also where the addition wraps around, the loop from a start to a
-- last value below 60 ends within the fuel of 128: more fuel gives the same values.
pub spread-enough :
    (fuel v e s : ℕ)
    → spread_fuel ≤ fuel
    → 0 < s
    → s < 2 ^ 63
    → v ≤ e
    → e < 60
    → spread fuel v e s ≡ spread spread_fuel v e s
spread-enough fuel v e s l p q r t =
    let f : suc (suc (suc (suc (60 + (fuel - 64))))) ≡ fuel = omega arith in
    let here = ends_enough (fuel - 64) v e s p q r t in
    let there = ends_enough 64 v e s p q r t in
    spread_same fuel spread_fuel v e s (rw f at here) there

-- The values from `v` to `e` in steps of `s`.
abbrev pub on_grid : ℕ → ℕ → ℕ → ℕ → Bool
on_grid v e s x = leb v x && leb x e && eqb ((x - v) % s) 0

grid_first : (v e s x : ℕ) → 0 < s → x ≡ v → v ≤ e → on_grid v e s x ≡ true
grid_first v e s x p q r =
    let z : x - v ≡ 0 = omega arith in
    let m : (x - v) % s ≡ 0 = rw (z, zero-mod s) refl in
    both (both (leb-true v x (omega arith)) (leb-true x e (omega arith))) ((eqb_iff _ _).1 m)

grid_between : (v e s x : ℕ) → 0 < s → x ≢ v → x < v + s → on_grid v e s x ≡ false
grid_between v e s x p q r = elim (Bool-cases (leb v x)) [
  | inr h ↦ ground arith
  | inl h ↦
      let above : v ≤ x = ground arith in
      let m : (x - v) % s ≡ x - v = mod-eq_of_lt (omega arith) in
      let k : eqb ((x - v) % s) 0 ≡ false = eqb-false _ _ (omega arith) in rw k (and_false _)
]

grid_next : (v e s x : ℕ) → 0 < s → v + s ≤ x → on_grid v e s x ≡ on_grid (v + s) e s x
grid_next v e s x p q =
    let m : (x - v) % s ≡ (x - v - s) % s = mod-eq-sub-mod (omega arith) in
    let d : x - v - s ≡ x - (v + s) = omega arith in
    rw (leb-true v x (omega arith), leb-true (v + s) x q, m, d) refl

grid_next_below : (v e s x : ℕ) → x < v + s → on_grid (v + s) e s x ≡ false
grid_next_below v e s x p = ground arith

grid_past : (v e s x : ℕ) → e < v → on_grid v e s x ≡ false
grid_past v e s x p = ground arith

has_cons : (x v : ℕ) (vs : List ℕ) → has x (v ∷ vs) ≡ (eqb v x || has x vs)
has_cons x v vs = refl

pub has-spread :
    (n v e s x : ℕ)
    → 0 < s
    → s ≤ 2 ^ 62
    → v < 2 ^ 63
    → e < 60
    → e < v + n
    → has x (spread (suc n) v e s) ≡ on_grid v e s x
has-spread zero v e s x p q r t l =
    rw (spread_stop 0 v e s (small_le v e r (omega arith) ∙ leb-false v e (omega arith)))
      (sym (grid_past v e s x (omega arith)))
has-spread (suc n) v e s x p q r t l = elim (Bool-cases (leb v e)) [
  | inr h ↦
      rw (spread_stop (suc n) v e s (small_le v e r (omega arith) ∙ h))
        (sym (grid_past v e s x (ground arith)))
  | inl h ↦
      let at_most : v ≤ e = ground arith in
      let w : (v + s) % 2 ^ 64 ≡ v + s = omega arith in
      let ih = has-spread n (v + s) e s x p q (omega arith) t (omega arith) in
      rw (spread_step (suc n) v e s (small_le v e r (omega arith) ∙ h), w, has_cons x v _, ih)
        (first_or_later v e s x p at_most)
]
  where
    first_or_later :
        (v e s x : ℕ) → 0 < s → v ≤ e → (eqb v x || on_grid (v + s) e s x) ≡ on_grid v e s x
    first_or_later v e s x p r = elim (Bool-cases (eqb v x)) [
      | inl h ↦ rw (h, grid_first v e s x p (ground arith) r) refl
      | inr h ↦ elim (Bool-cases (leb (v + s) x)) [
        | inl k ↦ rw h (sym (grid_next v e s x p (ground arith)))
        | inr k ↦
            rw
              (
                h,
                grid_next_below v e s x (ground arith),
                grid_between v e s x p (ground arith) (ground arith),
              )
              refl
      ]
    ]
