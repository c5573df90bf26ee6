-- ===== src/Hub/Binding.antt =====
-- The owner of a device in application/service/control/hub.go, and the two critical sections of
-- `bindDevice`.
use agent_runtime_client.Base.{
  String, Option, none, some, ◌≡◌, ◌≢◌, refl, sym, ◌∙◌, ◌⊎◌, inl, inr, ◌==◌, eq_iff, arith,
  Bool-cases, Map, lookup, put, lookup-put, lookup-put_self, if◌then◌else◌,
}
use agent_runtime_client.Protocol.Error.{ok, reject, not_rejected, unauthenticated}
use agent_runtime_client.Store.{Store}
use agent_runtime_client.Hub.State.{Device, Hub, call}
use agent_runtime_client.Hub.Devices.{may_bind, bind_commit, bind_device}
use agent_runtime_client.Hub.Rules.{
  Ensures, ensures, Ensures-after, Ensures-ok, leaves, Leaves-after, Leaves-ok,
}

-- The owner of a device that is connected; "" is nobody.
abbrev owner_in : Option Device → String
owner_in none = ""
owner_in (some d) = d.user_id

abbrev pub owner : String → Map Device → String
owner id m = owner_in (lookup id m)

-- No device that somebody owns changes its owner.
abbrev pub Owned : Map Device → Map Device → Type 0
Owned m n = (id : String) → (owner id m ≡ "") ⊎ (owner id n ≡ owner id m)

-- The device is connected and the user's, and every other device is as it was.
pub record Bound {S : Type 0} (id user_id : String) (before h : Hub S) : Type 0 where
  pub device : Device
  pub was : lookup id before.devices ≡ some device
  pub free : (device.user_id ≡ "") ⊎ (device.user_id ≡ user_id)
  pub now : lookup id h.devices ≡ some (record device { user_id = user_id })
  pub others :
      (j : String)
      → lookup j h.devices
        ≡ (if id == j then some (record device { user_id = user_id }) else lookup j before.devices)

may_bind_free :
    {S : Type 0} (id user_id : String) (h : Hub S) (d : Device)
    → may_bind id user_id h ≡ ok d
    → (lookup id h.devices ≡ some d) × ((d.user_id ≡ "") ⊎ (d.user_id ≡ user_id))
unfolding may_bind
may_bind_free id user_id h d e = ground (arith, eq_iff d.user_id "", eq_iff d.user_id user_id)

module _ {S : Type 0} where
  bind_commit-Bound :
      (id user_id : String) (h : Hub S)
      → Ensures (λ _ g. Bound id user_id h g) (bind_commit id user_id h)
  unfolding bind_commit
  bind_commit-Bound id user_id h =
      Ensures-ok (λ _ g. Bound id user_id h g) _ _ _
        (Ensures-after (λ _ g. Bound id user_id h g) _ _ _
          λ d e.
            let (found, free) = may_bind_free id user_id h d e in
            ensures (λ _ g. Bound id user_id h g) _ _
              (record {
                device = d;
                was = found;
                free = free;
                now = lookup-put_self id _ h.devices;
                others = λ j. lookup-put id j _ h.devices;
              }))

pub Owned-refl : (m : Map Device) → Owned m m
Owned-refl m id = inr refl

Owned-trans : (m n p : Map Device) → Owned m n → Owned n p → Owned m p
Owned-trans m n p f g id = elim (f id) [
  | inl e ↦ inl e
  | inr e ↦ elim (g id) [ inl q ↦ inl (sym e ∙ q) | inr q ↦ inr (q ∙ e) ]
]

Owned-put :
    (id user_id : String) (d : Device) (m : Map Device)
    → lookup id m ≡ some d
    → (d.user_id ≡ "") ⊎ (d.user_id ≡ user_id)
    → Owned m (put id (record d { user_id = user_id }) m)
Owned-put id user_id d m e free j = elim (Bool-cases (id == j)) [
  | inl p ↦
      let q : owner j m ≡ d.user_id = rw (← (eq_iff id j).0 p, e) in
      rw (lookup-put id j _ m, p) (elim free [ inl r ↦ inl (q ∙ r) | inr r ↦ inr (sym (q ∙ r)) ])
  | inr p ↦ rw (lookup-put id j _ m, p) (inr refl)
]

bind_commit-Owned :
    {S : Type 0} (id user_id : String) (h : Hub S)
    → Owned h.devices (bind_commit id user_id h).1.devices
unfolding bind_commit
bind_commit-Owned {S} id user_id h =
    (Leaves-ok P _ _ _ (
      Leaves-after P _ _ _ (Owned-refl h.devices) λ d e.
        let (found, free) = may_bind_free id user_id h d e in
        leaves P _ _ (Owned-put id user_id d h.devices found free))).holds
  where
    P : Hub S → Type 0
    P g = Owned h.devices g.devices

module _ {S : Type 0} ⦃db : Store S⦄ where
  -- The hub once `bindDevice` has called the repository and others have done what they do.
  abbrev pub meantime : (Hub S → Hub S) → String → String → Hub S → Hub S
  meantime others id user_id h = others (call (db.bind_device id user_id) tt h).1

  -- However other goroutines change the hub while `bindDevice` calls the repository: if it succeeds,
  -- then there is a user, the device was connected and free, or the user's, after those changes, it
  -- is the user's now, and every other device is as the changes left it.
  pub bind_device-Bound :
      (others : Hub S → Hub S) (id user_id : String) (h : Hub S)
      → (bind_device others id user_id h).0 ≡ ok tt
      → (user_id ≢ "")
        × Bound id user_id (meantime others id user_id h) (bind_device others id user_id h).1
  unfolding bind_device
  bind_device-Bound others id user_id h e =
      (Ensures-after Q _ _ _ λ _ user. Ensures-ok Q _ _ _ (
          Ensures-after Q _ _ _ λ _ _. Ensures-after Q _ _ _ λ _ _. Ensures-ok Q _ _ _ (record {
            holds = λ x p. (
              λ q. absurd (named q user),
              (bind_commit-Bound id user_id (meantime others id user_id h)).holds x p,
            );
          }))).holds
        tt e
    where
      Q : Unit {0} → Hub S → Type 0
      Q _ g = (user_id ≢ "") × Bound id user_id (meantime others id user_id h) g

      named : user_id ≡ "" → reject (user_id == "") unauthenticated ≡ ok tt → ⊥
      named q r = cc ((eq_iff user_id "").1 q, not_rejected _ _ r)

  -- Ownership survives: if what other goroutines do in the meantime leaves every owned device with
  -- its owner, then `bindDevice` does too, whatever it returns.
  pub bind_device-Owned :
      (others : Hub S → Hub S) (id user_id : String) (h : Hub S)
      → ((g : Hub S) → Owned g.devices (others g).devices)
      → Owned h.devices (bind_device others id user_id h).1.devices
  unfolding bind_device
  bind_device-Owned others id user_id h kind =
      (Leaves-after P _ _ _ (Owned-refl _) λ _ _. Leaves-ok P _ _ _ (
        Leaves-after P _ _ _ (Owned-refl _) λ _ _. Leaves-after P _ _ _ (Owned-refl _) λ _ _.
          Leaves-ok P _ _ _ (record {
            holds =
                Owned-trans h.devices (meantime others id user_id h).devices _ (kind _)
                  (bind_commit-Owned id user_id (meantime others id user_id h));
          }))).holds
    where
      P : Hub S → Type 0
      P g = Owned h.devices g.devices
