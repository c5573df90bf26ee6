-- ===== src/Hub/Choosing.antt =====
-- Which device `ResolveDevice` of application/service/control/hub.go chooses, against a description
-- that does not count.
use agent_runtime_client.Base.{
  ◌+◌, ◌<◌, String, Bool, true, false, not, ◌&&◌, List, [], ◌∷◌, ◌≡◌, ◌≢◌, ◌⊎◌, refl, ap, ◌∙◌, inl,
  inr, differs, arith, Bool-cases, Map, length, any, All, if◌then◌else◌,
}
use agent_runtime_client.Protocol.Error.{
  Error, Result, ok, err, device_offline, device_bound, capability_unsupported, device_ambiguous,
}
use agent_runtime_client.Hub.State.{Device, Hub}
use agent_runtime_client.Hub.Devices.{
  owned_by_other, supports_capability, Tally, no_tally, select_device, none_selected, selection,
  choose_device,
}

-- Every connected device has an identifier, as `Register` sees to.
abbrev pub Named : Map Device → Type 0
Named m = All (λ e. e.0 ≢ "") m

-- Exactly one device is chosen, no device gives the reason, and several are refused.
abbrev pub choice : List String → Error → Result String
choice [] reason = err reason
choice (id ∷ []) reason = ok id
choice (id ∷ _ ∷ _) reason = err device_ambiguous

abbrev only : List String → String → Result String
only [] selected = ok selected
only (_ ∷ _) selected = err device_ambiguous

only-choice :
    (id : String) (ids : List String) (reason : Error) → only ids id ≡ choice (id ∷ ids) reason
only-choice id [] reason = refl
only-choice id (_ ∷ _) reason = refl

module _ (user_id : String) where
  -- Why there is no such device: none is connected, every one is somebody else's, or none of the
  -- user's has the capability.
  abbrev pub unavailable : Map Device → Error
  unavailable [] = device_offline
  unavailable (e ∷ rest) =
      if any (λ e. not (owned_by_other user_id e.1)) (e ∷ rest)
      then capability_unsupported
      else device_bound

  -- What the loop has counted at its end.
  counted : Map Device → Tally → Tally
  counted [] t = t
  counted ((id, d) ∷ rest) t = counted rest (
      if owned_by_other user_id d
      then record t { connected = t.connected + 1; owned_by_others = t.owned_by_others + 1 }
      else record t { connected = t.connected + 1; unsupported = t.unsupported + 1 })

  -- The counts at the end of a loop that found nobody to choose.
  record Counts (m : Map Device) (t end : Tally) : Type 0 where
    connected : end.connected ≡ t.connected + length m
    refused : end.unsupported + end.owned_by_others ≡ t.unsupported + t.owned_by_others + length m
    owned :
        ((any (λ e. not (owned_by_other user_id e.1)) m ≡ false)
          × (end.owned_by_others ≡ t.owned_by_others + length m))
        ⊎ ((any (λ e. not (owned_by_other user_id e.1)) m ≡ true)
            × (end.owned_by_others < t.owned_by_others + length m))

  counted-Counts : (m : Map Device) (t : Tally) → Counts m t (counted m t)
  unfolding counted
  counted-Counts [] t = record {
    connected = omega arith;
    refused = omega arith;
    owned = inl (refl, omega arith);
  }
  counted-Counts ((id, d) ∷ rest) t =
      let next =
        if owned_by_other user_id d
        then record t { connected = t.connected + 1; owned_by_others = t.owned_by_others + 1 }
        else record t { connected = t.connected + 1; unsupported = t.unsupported + 1 } in
      let c = counted-Counts rest next in
      record { connected = ground arith; refused = ground arith; owned = ground arith }

  none_selected-unavailable :
      (m : Map Device) (end : Tally) → Counts m no_tally end → none_selected end ≡ unavailable m
  unfolding none_selected
  none_selected-unavailable [] end c = ground arith
  none_selected-unavailable (e ∷ rest) end c = ground arith

module _ (user_id capability : String) where
  abbrev suits : Device → Bool
  suits d = not (owned_by_other user_id d) && supports_capability d.capabilities capability

  -- The connected devices that the user may use and that have the capability.
  abbrev pub candidates : Map Device → List String
  candidates [] = []
  candidates ((id, d) ∷ rest) = if suits d then id ∷ candidates rest else candidates rest

  select-selected :
      (m : Map Device) (t : Tally)
      → t.selected ≢ ""
      → selection (select_device user_id capability m t) ≡ only (candidates m) t.selected
  unfolding select_device
  select-selected [] t ne = rw (differs t.selected "" ne)
  select-selected ((id, d) ∷ rest) t ne = elim (Bool-cases (owned_by_other user_id d)) [
    | inl e ↦ rw (e, select_device) (select-selected rest _ ne)
    | inr e ↦ elim (Bool-cases (supports_capability d.capabilities capability)) [
      | inl f ↦ rw (e, f, select_device, differs t.selected "" ne)
      | inr f ↦ rw (e, f, select_device) (select-selected rest _ ne)
    ]
  ]

  select-choice :
      (m : Map Device) (t : Tally)
      → Named m
      → t.selected ≡ ""
      → selection (select_device user_id capability m t)
        ≡ choice (candidates m) (none_selected (counted user_id m t))
  unfolding select_device counted
  select-choice [] t n e = rw e
  select-choice ((id, d) ∷ rest) t (named, n) e = elim (Bool-cases (owned_by_other user_id d)) [
    | inl p ↦ rw (p, select_device, counted) (select-choice rest _ n e)
    | inr p ↦ elim (Bool-cases (supports_capability d.capabilities capability)) [
      | inl f ↦
          rw (p, f, select_device, e)
            (select-selected rest _ named ∙ only-choice id (candidates rest) _)
      | inr f ↦ rw (p, f, select_device, counted) (select-choice rest _ n e)
    ]
  ]

-- Without a requested device, `ResolveDevice` goes on with the one connected device that the user may
-- use and that has the capability, in whatever order the devices are visited. With several it is
-- refused as ambiguous; with none the error says whether no device is connected, all of them are
-- other users', or none of the user's has the capability.
pub choose_device-choice :
    {S : Type 0} (user_id capability : String) (h : Hub S)
    → Named h.devices
    → choose_device user_id "" capability h
      ≡ choice (candidates user_id capability h.devices) (unavailable user_id h.devices)
unfolding choose_device
choose_device-choice user_id capability h n =
    select-choice user_id capability h.devices no_tally n refl
    ∙ ap (choice (candidates user_id capability h.devices))
        (none_selected-unavailable user_id h.devices _ (counted-Counts user_id h.devices no_tally))
