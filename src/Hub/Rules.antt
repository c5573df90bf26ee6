-- ===== src/Hub/Rules.antt =====
-- How a fact about the hub is carried through the methods of application/service/control/hub.go,
-- whether they succeed or fail.
use agent_runtime_client.Base.{◌≡◌, refl}
use agent_runtime_client.Protocol.Error.{Error, Result, ok, err, ok-injective}
use agent_runtime_client.Hub.State.{Hub, M, after}

-- The hub that a method leaves has the property, whatever the method returns.
pub record Leaves {S : Type 0} (P : Hub S → Type 0) {A : Type 0} (r : Result A × Hub S)
    : Type 0 where
  pub holds : P r.1

module _ {S : Type 0} (P : Hub S → Type 0) where
  -- A method that stops here.
  pub leaves : {A : Type 0} (r : Result A) (h : Hub S) → P h → Leaves P (r, h)
  leaves r h p = record { holds = p }

  -- The rest of a method goes on from what its first part leaves.
  pub Leaves-after :
      {A B : Type 0} (r : Result A) (f : A → M S B) (h : Hub S)
      → P h
      → ((a : A) → r ≡ ok a → Leaves P (f a h))
      → Leaves P (after r f h)
  unfolding after
  Leaves-after (ok a) f h p k = k a refl
  Leaves-after (err e) f h p k = record { holds = p }

  -- The first part can not fail.
  pub Leaves-ok :
      {A B : Type 0} (a : A) (f : A → M S B) (h : Hub S)
      → Leaves P (f a h)
      → Leaves P (after (ok a) f h)
  unfolding after
  Leaves-ok a f h p = p

  -- The same for a first part that is a method with a lemma of its own.
  pub Leaves-then :
      {A B : Type 0} (m : M S A) (f : A → M S B) (h : Hub S)
      → Leaves P (m h)
      → ((a : A) → (m h).0 ≡ ok a → P (m h).1 → Leaves P (f a (m h).1))
      → Leaves P (after (m h).0 f (m h).1)
  Leaves-then m f h l k = Leaves-after (m h).0 f (m h).1 l.holds (λ a e. k a e l.holds)

-- If a method succeeds, its result and the hub that it leaves are related so.
pub record Ensures {S A : Type 0} (Q : A → Hub S → Type 0) (r : Result A × Hub S) : Type 0 where
  pub holds : (a : A) → r.0 ≡ ok a → Q a r.1

module _ {S B : Type 0} (Q : B → Hub S → Type 0) where
  -- A method that returns here.
  pub ensures : (b : B) (h : Hub S) → Q b h → Ensures Q (ok b, h)
  ensures b h q = record { holds = λ a e. rw (← ok-injective b a e) q }

  pub Ensures-failed : (e : Error) (h : Hub S) → Ensures Q (err e, h)
  Ensures-failed e h = record { holds = λ a p. cc }

  pub Ensures-after :
      {A : Type 0} (r : Result A) (f : A → M S B) (h : Hub S)
      → ((a : A) → r ≡ ok a → Ensures Q (f a h))
      → Ensures Q (after r f h)
  unfolding after
  Ensures-after (ok a) f h k = k a refl
  Ensures-after (err e) f h k = record { holds = λ a p. cc }

  pub Ensures-ok :
      {A : Type 0} (a : A) (f : A → M S B) (h : Hub S)
      → Ensures Q (f a h)
      → Ensures Q (after (ok a) f h)
  unfolding after
  Ensures-ok a f h p = p

-- However a method ends, its result and the hub that it leaves are related so.
pub record Ends {S A : Type 0} (Q : Result A → Hub S → Type 0) (r : Result A × Hub S) : Type 0 where
  pub holds : Q r.0 r.1

module _ {S B : Type 0} (Q : Result B → Hub S → Type 0) where
  pub ends : (r : Result B) (h : Hub S) → Q r h → Ends Q (r, h)
  ends r h q = record { holds = q }

  -- The first part may fail, and then the method ends there.
  pub ends_after :
      {A : Type 0} (r : Result A) (f : A → M S B) (h : Hub S)
      → ((e : Error) → Q (err e) h)
      → ((a : A) → r ≡ ok a → Ends Q (f a h))
      → Ends Q (after r f h)
  unfolding after
  ends_after (ok a) f h q k = k a refl
  ends_after (err e) f h q k = record { holds = q e }

  pub ends_ok :
      {A : Type 0} (a : A) (f : A → M S B) (h : Hub S) → Ends Q (f a h) → Ends Q (after (ok a) f h)
  unfolding after
  ends_ok a f h p = p
