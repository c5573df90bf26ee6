-- ===== src/Hub/State.antt =====
-- The state of application/service/control/hub.go, and the shape of its methods.
-- A method takes the hub and returns its result with the hub that it leaves; a pointer into a map is
-- the map's entry, which is written back. A connection is a number, and what it was sent or told to
-- close stands in the last three fields.
use agent_runtime_client.Base.{
  ℕ, String, Bool, Option, none, some, List, [], ◌∷◌, ◌++◌, Map, lookup, put, if◌then◌else◌,
}
use agent_runtime_client.Protocol.Error.{Error, Result, ok, err}
use agent_runtime_client.Protocol.Message.{Time, Action, Observation, Progress, Cancel, TaskSession}
use agent_runtime_client.Store.{Call}

pub record Device : Type 0 where
  pub id : String
  pub user_id : String
  pub name : String
  pub platform : String
  pub architecture : String
  pub capabilities : List String
  pub connected_at : Time
  pub last_seen_at : Time
  pub online : Bool
  pub conn : ℕ

-- The channel holds one observation at most.
pub record PendingAction : Type 0 where
  pub channel : Option Observation
  pub device_id : String
  pub action : Action
  pub on_progress : Option (Progress → Result (Unit {0}))

pub data Frame : Type 0 where
  action : Action → Frame
  cancel : Cancel → Frame

pub record Hub (S : Type 0) : Type 0 where
  pub devices : Map Device
  pub pending : Map PendingAction
  pub completed : Map Observation
  pub sessions : Map TaskSession
  pub active : Map (Map String)
  pub store : Option S
  pub sent : List (ℕ × Frame)
  pub closed : List ℕ
  pub reachable : ℕ → Bool

-- `completedObservationLimit`
abbrev pub completed_observation_limit : ℕ
completed_observation_limit = 4096

-- A method with result `A`.
abbrev pub M : Type 0 → Type 0 → Type 0
M S A = Hub S → Result A × Hub S

module _ {S : Type 0} where
  -- `NewHub`
  unfoldable pub new_hub : Option S → (ℕ → Bool) → Hub S
  new_hub store reachable = record {
    devices = [];
    pending = [];
    completed = [];
    sessions = [];
    active = [];
    store = store;
    sent = [];
    closed = [];
    reachable = reachable;
  }

  unfoldable pub after : {A B : Type 0} → Result A → (A → M S B) → M S B
  after (ok a) f h = f a h
  after (err e) f h = (err e, h)

  infixl 5 ◌>>=◌ ◌>>◌
  abbrev pub ◌>>=◌ : {A B : Type 0} → M S A → (A → M S B) → M S B
  ◌>>=◌ m f h = after (m h).0 f (m h).1

  abbrev pub ◌>>◌ : {B : Type 0} → M S (Unit {0}) → M S B → M S B
  m >> k = m >>= λ _. k

  abbrev pub pure : {A : Type 0} → A → M S A
  pure a h = (ok a, h)

  abbrev pub fail : {A : Type 0} → Error → M S A
  fail e h = (err e, h)

  abbrev pub lift : {A : Type 0} → Result A → M S A
  lift r h = (r, h)

  abbrev pub get : M S (Hub S)
  get h = (ok h, h)

  abbrev pub modify : (Hub S → Hub S) → M S (Unit {0})
  modify f h = (ok tt, f h)

  -- `_ = m`: the error is dropped.
  abbrev pub attempt : {A : Type 0} → M S A → M S (Unit {0})
  attempt m h = (ok tt, (m h).1)

  abbrev pub called : {A : Type 0} → Call S A → A → Option S → Result A
  called op absent none = ok absent
  called op absent (some st) = (op st).0

  abbrev pub left_by : {A : Type 0} → Call S A → Option S → Option S
  left_by op none = none
  left_by op (some st) = some (op st).1

  -- `if h.store != nil { … }`: a call of the repository, or the value that stands for its absence.
  abbrev pub call : {A : Type 0} → Call S A → A → M S A
  call op absent h = (called op absent h.store, record h { store = left_by op h.store })

  -- A write to a connection.
  abbrev pub send : ℕ → Frame → Hub S → Hub S
  send conn frame h = record h {
    sent = if h.reachable conn then h.sent ++ (conn, frame) ∷ [] else h.sent;
  }

-- A write through the pointer in a map's entry.
abbrev pub adjust {ℓ} : {V : Type ℓ} → String → (V → V) → Map V → Map V
adjust key f m = elim (lookup key m) [ none ↦ m | some v ↦ put key (f v) m ]
