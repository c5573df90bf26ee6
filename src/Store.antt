-- ===== src/Store.antt =====
-- domain/irepository/control/store.go: the repository that the hub keeps its records in.
-- A call takes the repository's state, and returns its result with the state that it leaves. A
-- failing call may leave any state.
use agent_runtime_client.Base.{
  ℕ, String, Bool, true, false, if◌then◌else◌, Option, List, ◌≡◌, refl, ◌⊎◌, inl, inr,
}
use agent_runtime_client.Protocol.Error.{Error, Result, ok, err}
use agent_runtime_client.Protocol.Message.{Time, RegisteredDevice, TaskSession, Action, Observation}

abbrev pub Call : Type 0 → Type 0 → Type 0
Call S A = S → Result A × S

module _ {D : Type 0} where
  unfoldable pub next : {A B : Type 0} → Result A → (A → Call D B) → Call D B
  next (ok a) f d = f a d
  next (err e) f d = (err e, d)

  infixl 5 ◌>>=◌ ◌>>◌
  abbrev pub ◌>>=◌ : {A B : Type 0} → Call D A → (A → Call D B) → Call D B
  ◌>>=◌ m f d = next (m d).0 f (m d).1

  abbrev pub ◌>>◌ : {A B : Type 0} → Call D A → Call D B → Call D B
  m >> k = m >>= λ _. k

  abbrev pub pure : {A : Type 0} → A → Call D A
  pure a d = (ok a, d)

  abbrev pub lift : {A : Type 0} → Result A → Call D A
  lift r d = (r, d)

-- The first part of a method that succeeds has succeeded.
pub next-ok :
    {D A B : Type 0} (r : Result A) (f : A → Call D B) (d : D) (b : B)
    → (next r f d).0 ≡ ok b
    → (a : A) × ((r ≡ ok a) × (next r f d ≡ f a d))
unfolding next
next-ok (ok a) f d b e = (a, (refl, refl))
next-ok (err x) f d b e = cc

-- The same for the result alone.
pub next-value :
    {D A B : Type 0} (r : Result A) (f : A → Call D B) (d : D) (b : B)
    → (next r f d).0 ≡ ok b
    → (a : A) × ((r ≡ ok a) × ((f a d).0 ≡ ok b))
unfolding next
next-value (ok a) f d b e = (a, (refl, e))
next-value (err x) f d b e = cc

-- A test that fails the method has been passed.
pub passed_call :
    {D A : Type 0} (b : Bool) (e : Error) (r : Call D A) (d : D) (a : A)
    → (if b then (err e, d) else r d).0 ≡ ok a
    → (b ≡ false) × ((r d).0 ≡ ok a)
passed_call true e r d a h = cc
passed_call false e r d a h = (refl, h)

-- A method with two branches has taken one of them.
pub branch_call :
    {D A : Type 0} (b : Bool) (x y : Call D A) (d : D) (a : A)
    → (if b then x d else y d).0 ≡ ok a
    → ((b ≡ true) × ((x d).0 ≡ ok a)) ⊎ ((b ≡ false) × ((y d).0 ≡ ok a))
branch_call true x y d a h = inl (refl, h)
branch_call false x y d a h = inr (refl, h)

pub record Store (S : Type 0) : Type 0 where
  pub upsert_device : RegisteredDevice → Call S (Unit {0})
  pub bind_device : String → String → Call S (Unit {0})
  pub set_device_online : String → Bool → Time → Call S (Unit {0})
  pub mark_all_devices_offline : Time → Call S (Unit {0})
  pub find_device : String → Call S (Option RegisteredDevice)
  pub list_devices : String → Call S (List RegisteredDevice)
  pub save_task : TaskSession → Call S (Unit {0})
  pub find_task : String → Call S (Option TaskSession)
  pub list_tasks : String → String → ℕ → Call S (List TaskSession)
  pub save_action : String → String → Action → Call S (Unit {0})
  pub save_observation : Observation → Call S (Unit {0})
  pub find_observation_by_idempotency : String → Call S (Option Observation)
