-- ===== src/Tests/Soundness.antt =====
-- The hub of application/service/control/hub.go over the repository of
-- infra/repository/repo/control/store.go, on a database of lists.
use agent_runtime_client.Base.{
  ℕ, pos, String, Bool, true, false, ◌&&◌, ◌||◌, ◌⊎◌, Option, none, some, List, [], ◌∷◌, ◌++◌, Map,
  map, ◌≡◌, refl, ap, Option-cases, inl, inr, ◌==◌, eq_iff, Bool-cases, All, any, keep,
  if◌then◌else◌,
}
use agent_runtime_client.Protocol.Error.{Result, ok, err}
use agent_runtime_client.Protocol.Message.{Time, RegisteredDevice, Action, Observation, TaskSession}
use agent_runtime_client.Protocol.Status.{valid_task_status}
use agent_runtime_client.Store.{Store, Call, next}
use agent_runtime_client.Repository.{TaskRow, Json}
use agent_runtime_client.Repository.Queries.{
  int_le, settled, upsert_device, bind_device, set_device_online, find_device, save_action,
  save_for, save_observation, find_observation_by_idempotency, list_tasks, find_tasks, find_task,
  load_task, save_task, save_row, update_task, control_store,
}
use agent_runtime_client.Hub.Evolution.{has_map}
use agent_runtime_client.Hub.Evolution.Soundness.{Sound, Reliable, Whole}
use agent_runtime_client.Hub.Evolution.Soundness.Histories.{
  run-Whole, run-record_observation_locked,
}
use agent_runtime_client.Hub.State.{Hub, new_hub}
use agent_runtime_client.Hub.Sessions.{record_observation_locked}
use agent_runtime_client.Hub.Steps.{
  Event, registers, claims, binds, sets_status, begins, dispatches, receives, run,
}
use agent_runtime_client.Tests.Data.{one_digest, click, clicked, hello, running}
use agent_runtime_client.Tests.Repository.{Memory, memory, plain, done_row}

-- A nil map is `null`.
abbrev encoded : Option (Map String) → Result String
encoded none = ok "null"
encoded (some m) = ok "{}"

abbrev nullable : Json
nullable = record plain {
  encode_sessions = encoded;
  decode_sessions = λ s. if s == "null" then none else some [];
}

abbrev repository : Store Memory
repository = control_store memory nullable

-- The row of a sound session.
abbrev GoodRow : TaskRow → Type 0
GoodRow r =
    (valid_task_status r.status ≡ true)
    × (has_map (nullable.decode_sessions r.active_sessions) ≡ true)

abbrev GoodRows : Memory → Type 0
GoodRows d = All GoodRow d.tasks

kept_rows :
    (id : String) (rows : List TaskRow)
    → All GoodRow rows
    → All (λ r. GoodRow r × (r.task_id ≡ id)) (keep (λ r. r.task_id == id) rows)
kept_rows id [] a = tt
kept_rows id (r ∷ rows) (g, a) = elim (Bool-cases (r.task_id == id)) [
  | inl e ↦ rw e ((g, (eq_iff r.task_id id).0 e), kept_rows id rows a)
  | inr e ↦ rw e (kept_rows id rows a)
]

appended :
    (rows : List TaskRow) (r : TaskRow)
    → All GoodRow rows
    → GoodRow r
    → All GoodRow (rows ++ r ∷ [])
appended [] r a g = (g, tt)
appended (q ∷ rows) r (p, a) g = (p, appended rows r a g)

mapped_good :
    (f : TaskRow → TaskRow) (rows : List TaskRow)
    → ((r : TaskRow) → GoodRow r → GoodRow (f r))
    → All GoodRow rows
    → All GoodRow (map f rows)
mapped_good f [] k a = tt
mapped_good f (r ∷ rows) k (g, a) = (k r g, mapped_good f rows k a)

-- The session of an answer, or one that is sound.
abbrev answered : Result (Option TaskSession) → TaskSession
answered (ok (some t)) = t
answered (ok none) = running
answered (err e) = running

found-Sound :
    (id : String) (d : Memory) (t : TaskSession) (rows : List TaskRow)
    → rows ≡ keep (λ r. r.task_id == id) d.tasks
    → All (λ r. GoodRow r × (r.task_id ≡ id)) rows
    → (repository.find_task id d).0 ≡ ok (some t)
    → Sound id t
unfolding control_store find_task load_task next
found-Sound id d t [] e all h = let g : ok none ≡ ok (some t) = rw (← e) at h in cc
found-Sound id d t (v ∷ vs) e ((g, p), others) h =
    let s : Sound id (answered (repository.find_task id d).0) =
      rw (← e) (record { task_id = p; status = g.0; sessions = g.1 }) in
    rw (← ap answered h) s

good_status :
    (a b : String)
    → valid_task_status a ≡ true
    → valid_task_status b ≡ true
    → valid_task_status (if settled a then a else b) ≡ true
good_status a b p q = elim (Bool-cases (settled a)) [ inl e ↦ rw e p | inr e ↦ rw e q ]

new_columns :
    (value r : TaskRow)
    → GoodRow value
    → GoodRow r
    → GoodRow (
        if r.task_id == value.task_id && int_le r.updated_at value.updated_at
        then record r {
          conversation_id = value.conversation_id;
          user_id = value.user_id;
          device_id = value.device_id;
          sequence = value.sequence;
          active_sessions = value.active_sessions;
          metadata = value.metadata;
          updated_at = value.updated_at;
        }
        else r)
new_columns value r v g =
    elim (Bool-cases (r.task_id == value.task_id && int_le r.updated_at value.updated_at)) [
      | inl e ↦ rw e (g.0, v.1)
      | inr e ↦ rw e g
    ]

new_status :
    (value r : TaskRow)
    → GoodRow value
    → GoodRow r
    → GoodRow (
        if r.task_id == value.task_id
        then record r {
          status = if settled r.status then r.status else value.status;
          updated_at = pos 62;
        }
        else r)
new_status value r v g = elim (Bool-cases (r.task_id == value.task_id)) [
  | inl e ↦ rw e (good_status r.status value.status g.0 v.0, g.1)
  | inr e ↦ rw e g
]

saved_good :
    (value : TaskRow) (d : Memory)
    → GoodRow value
    → GoodRows d
    → GoodRows (save_row memory nullable value d).1
unfolding save_row update_task next
saved_good value d v a = elim (Bool-cases (any (λ r. r.task_id == value.task_id) d.tasks)) [
  | inl e ↦ rw e (
      mapped_good _ _ (λ r g. new_status value r v g)
        (mapped_good _ d.tasks (λ r g. new_columns value r v g) a))
  | inr e ↦ rw e (appended d.tasks value a v)
]

saving_good :
    (t : TaskSession) (d : Memory)
    → Sound t.task_id t
    → GoodRows d
    → GoodRows (repository.save_task t d).1
unfolding control_store save_task next
saving_good t d s a = elim (Option-cases t.active_sessions) [
  | inl e ↦ let g : false ≡ true = rw e at s.sessions in cc
  | inr (m, e) ↦ rw e (saved_good _ d (s.status, refl) a)
]

-- The state after a part of a method, and after either branch of a test.
next_keeps :
    {A B : Type 0} (r : Result A) (f : A → Call Memory B) (d : Memory)
    → GoodRows d
    → ((a : A) → GoodRows (f a d).1)
    → GoodRows (next r f d).1
unfolding next
next_keeps (ok a) f d g k = k a
next_keeps (err e) f d g k = g

branch_keeps :
    {A : Type 0} (b : Bool) (x y : A × Memory)
    → GoodRows x.1
    → GoodRows y.1
    → GoodRows (if b then x else y).1
branch_keeps true x y p q = p
branch_keeps false x y p q = q

list_cases :
    {A : Type 0} (xs : List A) → (xs ≡ []) ⊎ ((x : A) × ((rest : List A) × (xs ≡ x ∷ rest)))
list_cases [] = inl refl
list_cases (x ∷ xs) = inr (x, (xs, refl))

loading_good :
    (id : String) (v : TaskRow) (d : Memory)
    → GoodRows d
    → GoodRows (load_task memory nullable id v d).1
unfolding load_task
loading_good id v d a = next_keeps _ _ d a λ actions. next_keeps _ _ d a λ observations. a

finding_good : (id : String) (d : Memory) → GoodRows d → GoodRows (find_task memory nullable id d).1
unfolding find_task
finding_good id d a = next_keeps _ _ d a λ values. elim (list_cases values) [
  | inl e ↦ rw e a
  | inr (v, (vs, e)) ↦ rw e (loading_good id v d a)
]

finding_all_good :
    (vs : List TaskRow) (d : Memory) → GoodRows d → GoodRows (find_tasks memory nullable vs d).1
unfolding find_tasks
finding_all_good [] d a = a
finding_all_good (v ∷ vs) d a = next_keeps _ _ _ (finding_good v.task_id d a) λ t.
    next_keeps _ _ _ (finding_all_good vs _ (finding_good v.task_id d a))
      λ rest. finding_all_good vs _ (finding_good v.task_id d a)

listing_good :
    (u c : String) (n : ℕ) (d : Memory)
    → GoodRows d
    → GoodRows (list_tasks memory nullable u c n d).1
unfolding list_tasks
listing_good u c n d a = next_keeps _ _ d a λ values. finding_all_good values d a

observing_good :
    (o : Observation) (d : Memory) → GoodRows d → GoodRows (save_observation memory nullable o d).1
unfolding save_observation save_for
observing_good o d a = next_keeps _ _ d a λ state. next_keeps _ _ d a λ actions.
    elim (list_cases actions) [
      | inl e ↦ rw e a
      | inr (v, (vs, e)) ↦ rw e (
          next_keeps _ _ _
            (branch_keeps (any (λ r. r.action_id == o.action_id) d.observations) _ _ a a)
            (λ n. branch_keeps (any (λ r. r.action_id == o.action_id) d.observations) _ _ a a))
    ]

upserting_good :
    (v : RegisteredDevice) (d : Memory)
    → GoodRows d
    → GoodRows (upsert_device memory nullable v d).1
unfolding upsert_device
upserting_good v d a = next_keeps _ _ d a λ text.
    next_keeps _ _ _ (branch_keeps (any (λ r. r.device_id == v.device_id) d.devices) _ _ a a)
      (λ n. branch_keeps (any (λ r. r.device_id == v.device_id) d.devices) _ _ a a)

binding_good :
    (id u : String) (d : Memory) → GoodRows d → GoodRows (bind_device memory nullable id u d).1
unfolding bind_device
binding_good id u d a = next_keeps _ _ _ a (λ n. a)

seeing_good :
    (id : String) (online : Bool) (now : Time) (d : Memory)
    → GoodRows d
    → GoodRows (set_device_online memory nullable id online now d).1
unfolding set_device_online
seeing_good id online now d a = next_keeps _ _ _ a (λ n. a)

finding_device_good :
    (id : String) (d : Memory) → GoodRows d → GoodRows (find_device memory nullable id d).1
unfolding find_device
finding_device_good id d a = next_keeps _ _ _ a (λ n. a)

looking_good :
    (key : String) (d : Memory)
    → GoodRows d
    → GoodRows (find_observation_by_idempotency memory nullable key d).1
unfolding find_observation_by_idempotency
looking_good key d a = next_keeps _ _ _ a (λ n. a)

acting_good :
    (id u : String) (v : Action) (d : Memory)
    → GoodRows d
    → GoodRows (save_action memory nullable id u v d).1
unfolding save_action
acting_good id u v d a = next_keeps _ _ d a λ text.
    next_keeps _ _ _
      (branch_keeps
        (any (λ r. r.action_id == v.action_id || r.idempotency_key == v.idempotency_key) d.actions)
        _ _ a a)
      (λ n.
        branch_keeps
          (any (λ r. r.action_id == v.action_id || r.idempotency_key == v.idempotency_key)
            d.actions)
          _ _ a a)

repository-Reliable : Reliable repository GoodRows
unfolding control_store
repository-Reliable = record {
  finds = λ id d t a e. found-Sound id d t _ refl (kept_rows id d.tasks a) e;
  saving = saving_good;
  finding = finding_good;
  listing = listing_good;
  finding_device = finding_device_good;
  upserting = upserting_good;
  binding = binding_good;
  seeing = seeing_good;
  acting = acting_good;
  observing = observing_good;
  looking = looking_good;
}

-- A session that is in the repository is begun again there, and a second one is new.
abbrev stored_story : List Event
stored_story =
    registers hello (some 1) 5
    ∷ claims "d1" "u1"
    ∷ binds "d1" "u1"
    ∷ sets_status "t1" "EXECUTING" 6
    ∷ begins "t1" "u1" "c1" "d1" 6
    ∷ begins "t2" "u1" "c1" "d1" 6
    ∷ dispatches "d1" click none 7
    ∷ receives click clicked 20
    ∷ []

abbrev stored : Memory
stored = record { devices = []; tasks = done_row ∷ []; actions = []; observations = [] }

abbrev stored_hub : Hub Memory
stored_hub = new_hub (some stored) (λ conn. true)

stored_good : GoodRows stored
unfolding valid_task_status
stored_good = ((refl, refl), tt)

run-Whole_example : Whole GoodRows (run ⦃db = repository⦄ one_digest stored_hub stored_story)
unfolding new_hub
run-Whole_example =
    run-Whole ⦃db = repository⦄ repository-Reliable one_digest stored_hub stored_story
      (tt, stored_good)

run-record_observation_locked_example :
    (record_observation_locked "t1" clicked 30
      (run ⦃db = repository⦄ one_digest (new_hub (some stored) (λ conn. true)) stored_story)).0
    ≡ ok tt
run-record_observation_locked_example =
    run-record_observation_locked ⦃db = repository⦄ repository-Reliable one_digest (some stored)
      (λ conn. true) stored_story "t1" clicked 30 stored_good
