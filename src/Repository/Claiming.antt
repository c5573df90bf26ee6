-- ===== src/Repository/Claiming.antt =====
-- What `BindDevice` of infra/repository/repo/control/store.go does to the owners of devices.
use agent_runtime_client.Base.{
  String, Bool, true, false, ◌&&◌, ◌||◌, Option, none, some, Option-cases, List, ◌≡◌, refl, sym, ap,
  ◌∙◌, inl, inr, eqb, ◌==◌, Bool-cases, any, if◌then◌else◌, arith,
}
use agent_runtime_client.Protocol.Error.{ok, not_rejected}
use agent_runtime_client.Repository.{DeviceRow, Database, Json}
use agent_runtime_client.Repository.Queries.{bind_device, already_bound}
use agent_runtime_client.Repository.Laws.{Lawful, row_of, row_of-map, row_of-key, next-ok}

abbrev pub device_at : String → List DeviceRow → Option DeviceRow
device_at id rows = row_of (λ r. r.device_id) id rows

-- A device that has no user, or this one.
abbrev pub claimable : String → DeviceRow → Bool
claimable user_id r = r.user_id == "" || r.user_id == user_id

abbrev pub claimed : String → Option DeviceRow → Option DeviceRow
claimed user_id none = none
claimed user_id (some r) = some (if claimable user_id r then record r { user_id = user_id } else r)

abbrev claim : String → String → DeviceRow → DeviceRow
claim device_id user_id r =
    if r.device_id == device_id && claimable user_id r then record r { user_id = user_id } else r

claim_key :
    (device_id user_id : String) (r : DeviceRow)
    → (claim device_id user_id r).device_id ≡ r.device_id
claim_key device_id user_id r =
    elim (Bool-cases (r.device_id == device_id && claimable user_id r)) [
      | inl e ↦ rw e refl
      | inr e ↦ rw e refl
    ]

-- One row of the statement.
claim_row :
    (device_id user_id id : String) (r : DeviceRow)
    → r.device_id ≡ id
    → some (claim device_id user_id r)
      ≡ (if id == device_id then claimed user_id (some r) else some r)
claim_row device_id user_id id r e = elim (Bool-cases (r.device_id == device_id)) [
  | inl p ↦ let q : id == device_id ≡ true = rw e at p in rw (q, p) refl
  | inr p ↦ let q : id == device_id ≡ false = rw e at p in rw (q, p) refl
]

-- If the database keeps its documented behaviour and `BindDevice` succeeds, then some row of the device
-- had no user or the same one, that user is written to it, a row with another user keeps it,
-- and every other device is as before.
pub bind_device-claimed :
    {D : Type 0} (db : Database D) (json : Json) (device_id user_id id : String) (d : D)
    → Lawful db.devices
    → (bind_device db json device_id user_id d).0 ≡ ok tt
    → (any (λ r. r.device_id == device_id && claimable user_id r) (db.devices.rows d) ≡ true)
      × (device_at id (db.devices.rows (bind_device db json device_id user_id d).1) ≡ (
          if id == device_id
          then claimed user_id (device_at id (db.devices.rows d))
          else device_at id (db.devices.rows d)))
unfolding bind_device
bind_device-claimed db json device_id user_id id d law h =
    let test : DeviceRow → Bool = λ r. r.device_id == device_id && claimable user_id r in
    let set : DeviceRow → DeviceRow = λ r. record r { user_id = user_id } in
    let (n, (e, s)) = next-ok _ _ _ tt h in
    let some_row = not_rejected (eqb n 0) already_bound (ap (λ x. x.0) (sym s) ∙ h) in
    (
      law.matched test set d n e (ground arith),
      ap (λ x. device_at id (db.devices.rows x.1)) s
          ∙ ap (device_at id) (law.updated test set d n e)
          ∙ row_of-map (λ r. r.device_id) id (claim device_id user_id) _
              (claim_key device_id user_id)
          ∙ elim (Option-cases (device_at id (db.devices.rows d))) [
            | inl p ↦ rw p (both_none (id == device_id))
            | inr (r, p) ↦
                rw p (claim_row device_id user_id id r (row_of-key (λ r. r.device_id) id _ r p))
          ],
    )
  where
    both_none : (b : Bool) → ◌≡◌ {A = Option DeviceRow} none (if b then none else none)
    both_none true = refl
    both_none false = refl
