-- ===== src/Hub/Evolution/Soundness.antt =====
-- Well-formed sessions of application/service/control/hub.go, and a repository that keeps them.
pub mod Methods
pub mod Dispatching
pub mod Histories
use agent_runtime_client.Base.{
  ℕ, String, Bool, true, Option, none, some, Option-cases, List, [], ◌∷◌, ◌≡◌, ◌≢◌, refl, ◌∙◌, inl,
  inr, arith, ◌==◌, eq_iff, Bool-cases, Map, lookup, put, All,
}
use agent_runtime_client.Protocol.Error.{ok}
use agent_runtime_client.Protocol.Message.{
  Time, RegisteredDevice, Action, Observation, Progress, TaskSession,
}
use agent_runtime_client.Protocol.Validate.{Codec}
use agent_runtime_client.Protocol.Status.{valid_task_status, can_transition_task_status}
use agent_runtime_client.Store.{Store}
use agent_runtime_client.Hub.State.{Hub, new_hub}
use agent_runtime_client.Hub.Sessions.{
  closes, record_session, record_observation_locked, record_progress,
}
use agent_runtime_client.Hub.Steps.{Event, run}
use agent_runtime_client.Hub.Evolution.{
  Moved, has_map, Change, made, found, Evolves, stays, changes, adds,
  record_observation_locked-Evolves, record_progress-Evolves,
}
use agent_runtime_client.Hub.Evolution.History.{run-Evolves}

-- A session under its own task, with a status of the life cycle and a map to write to.
pub record Sound (id : String) (t : TaskSession) : Type 0 where
  pub task_id : t.task_id ≡ id
  pub status : valid_task_status t.status ≡ true
  pub sessions : has_map t.active_sessions ≡ true

abbrev pub AllSound : Map TaskSession → Type 0
AllSound m = All (λ e. Sound e.0 e.1) m

Moved-valid : (s t : String) → valid_task_status s ≡ true → Moved s t → valid_task_status t ≡ true
unfolding can_transition_task_status
Moved-valid s t v (inl e) = rw e v
Moved-valid s t v (inr e) = ground arith

pub Sound-Change : (id : String) (t u : TaskSession) → Sound id t → Change t u → Sound id u
Sound-Change id t u s c = record {
  task_id = c.task_id ∙ s.task_id;
  status = Moved-valid _ _ s.status c.status;
  sessions = c.sessions ∙ s.sessions;
}

pub Sound-put :
    (id : String) (t : TaskSession) (m : Map TaskSession)
    → Sound id t
    → AllSound m
    → AllSound (put id t m)
unfolding put
Sound-put id t [] s a = (s, tt)
Sound-put id t ((key, u) ∷ rest) s (b, a) = elim (Bool-cases (key == id)) [
  | inl e ↦ let p : key ≡ id = (eq_iff key id).0 e in let q : Sound key t = rw p s in rw e (q, a)
  | inr e ↦ rw e (b, Sound-put id t rest s a)
]

pub Sound-lookup :
    (id : String) (t : TaskSession) (m : Map TaskSession)
    → AllSound m
    → lookup id m ≡ some t
    → Sound id t
unfolding lookup
Sound-lookup id t [] a e = cc
Sound-lookup id t ((key, u) ∷ rest) (b, a) e = elim (Bool-cases (key == id)) [
  | inl p ↦
      let f : some u ≡ some t = rw p at e in
      let q : key ≡ id = (eq_iff key id).0 p in
      let c : u ≡ t = cc in let s : Sound id u = rw (← q) b in rw (← c) s
  | inr p ↦ let f : lookup id rest ≡ some t = rw p at e in Sound-lookup id t rest a f
]

Evolves-AllSound :
    {S : Type 0} ⦃db : Store S⦄ (m n : Map TaskSession)
    → ((id : String) (st : S) (t : TaskSession) → (db.find_task id st).0 ≡ ok (some t) → Sound id t)
    → Evolves S m n
    → AllSound m
    → AllSound n
Evolves-AllSound m _ r stays a = a
Evolves-AllSound m _ r (changes id t u n g e c) a =
    let b = Evolves-AllSound m n r g a in
    Sound-put id u n (Sound-Change id t u (Sound-lookup id t n b e) c) b
Evolves-AllSound m _ r (adds id u n g e (made p q s)) a =
    Sound-put id u n (record { task_id = p; status = q; sessions = s }) (Evolves-AllSound m n r g a)
Evolves-AllSound m _ r (adds id u n g e (found st p)) a =
    Sound-put id u n (r id st u p) (Evolves-AllSound m n r g a)

-- A repository without states, for the methods that call none.
abbrev nowhere : Store ⊥
nowhere = record {
  upsert_device = λ d s. absurd s;
  bind_device = λ d u s. absurd s;
  set_device_online = λ d o t s. absurd s;
  mark_all_devices_offline = λ t s. absurd s;
  find_device = λ d s. absurd s;
  list_devices = λ u s. absurd s;
  save_task = λ t s. absurd s;
  find_task = λ t s. absurd s;
  list_tasks = λ u c l s. absurd s;
  save_action = λ d u a s. absurd s;
  save_observation = λ o s. absurd s;
  find_observation_by_idempotency = λ k s. absurd s;
}

pub record_observation_locked-AllSound :
    {S : Type 0} (id : String) (o : Observation) (now : Time) (h : Hub S)
    → AllSound h.sessions
    → AllSound (record_observation_locked id o now h).1.sessions
record_observation_locked-AllSound id o now h a =
    Evolves-AllSound ⦃db = nowhere⦄ h.sessions (record_observation_locked id o now h).1.sessions
      (λ id st t e. absurd st) (record_observation_locked-Evolves ⦃db = nowhere⦄ id o now h) a

pub record_progress-AllSound :
    {S : Type 0} (id : String) (p : Progress) (now : Time) (h : Hub S)
    → AllSound h.sessions
    → AllSound (record_progress id p now h).sessions
record_progress-AllSound id p now h a =
    Evolves-AllSound ⦃db = nowhere⦄ h.sessions (record_progress id p now h).sessions
      (λ id st t e. absurd st) (record_progress-Evolves ⦃db = nowhere⦄ id p now h) a

-- A repository that keeps sound sessions, in the states that are `Good`: what it finds is sound; a
-- write of a sound session leaves such a state, whether it succeeds or fails, and so do the other
-- calls.
pub record Reliable {S : Type 0} (db : Store S) (Good : S → Type 0) : Type 0 where
  pub finds :
      (id : String) (st : S) (t : TaskSession)
      → Good st
      → (db.find_task id st).0 ≡ ok (some t)
      → Sound id t
  pub saving : (t : TaskSession) (st : S) → Sound t.task_id t → Good st → Good (db.save_task t st).1
  pub finding : (id : String) (st : S) → Good st → Good (db.find_task id st).1
  pub listing : (u c : String) (n : ℕ) (st : S) → Good st → Good (db.list_tasks u c n st).1
  pub finding_device : (id : String) (st : S) → Good st → Good (db.find_device id st).1
  pub upserting : (d : RegisteredDevice) (st : S) → Good st → Good (db.upsert_device d st).1
  pub binding : (id u : String) (st : S) → Good st → Good (db.bind_device id u st).1
  pub seeing :
      (id : String) (online : Bool) (now : Time) (st : S)
      → Good st
      → Good (db.set_device_online id online now st).1
  pub acting : (id u : String) (a : Action) (st : S) → Good st → Good (db.save_action id u a st).1
  pub observing : (o : Observation) (st : S) → Good st → Good (db.save_observation o st).1
  pub looking :
      (key : String) (st : S) → Good st → Good (db.find_observation_by_idempotency key st).1

abbrev pub GoodStore : {S : Type 0} → (S → Type 0) → Option S → Type 0
GoodStore Good none = Unit {0}
GoodStore Good (some st) = Good st

-- Sound sessions in memory, and a repository in a good state.
abbrev pub Whole : {S : Type 0} → (S → Type 0) → Hub S → Type 0
Whole Good h = AllSound h.sessions × GoodStore Good h.store

map_there : (m : Option (Map String)) → has_map m ≡ true → m ≢ none
map_there none e f = cc
map_there (some m) e f = cc

module _ {S : Type 0} where
  record_session-written :
      (id : String) (t : TaskSession) (o : Observation) (now : Time) (h : Hub S)
      → has_map t.active_sessions ≡ true
      → (record_session id t o now h).0 ≡ ok tt
  unfolding record_session
  record_session-written id t o now h s = elim (Bool-cases (closes t.actions o.status)) [
    | inl e ↦ rw (e, record_session) refl
    | inr e ↦
        rw (e, record_session)
          (elim (Option-cases t.active_sessions) [
            | inl f ↦ absurd (map_there _ s f)
            | inr (m, f) ↦ rw f refl
          ])
  ]

  pub record_observation_locked-written :
      (id : String) (o : Observation) (now : Time) (h : Hub S)
      → AllSound h.sessions
      → (record_observation_locked id o now h).0 ≡ ok tt
  unfolding record_observation_locked
  record_observation_locked-written id o now h a = elim (Option-cases (lookup id h.sessions)) [
    | inl e ↦ rw (e, record_observation_locked) refl
    | inr (t, e) ↦
        rw (e, record_observation_locked)
          (elim (Bool-cases (o.session_id == "")) [
            | inl p ↦ rw p refl
            | inr p ↦ rw p (record_session-written id _ o now h (Sound-lookup id t _ a e).sessions)
          ])
  ]
