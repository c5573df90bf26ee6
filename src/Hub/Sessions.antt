-- ===== src/Hub/Sessions.antt =====
-- What the hub of application/service/control/hub.go writes into a task's session.
use Prim.Native.Char.{code}
use Prim.Native.String
use agent_runtime_client.Base.{
  String, Bool, false, not, ◌&&◌, Option, none, some, List, [], ◌∷◌, ◌++◌, Map, lookup, put, delete,
  ◌==◌, eqb, if◌then◌else◌, has_suffix,
}
use agent_runtime_client.Protocol.Error.{ok, err, nil_map_write}
use agent_runtime_client.Protocol.Message.{Time, Action, Observation, Progress, TaskSession, latest}
use agent_runtime_client.Protocol.Status.{
  waiting_approval, waiting_user, executing, evaluating, cancelled, terminal_task_status,
  can_transition_task_status,
}
use agent_runtime_client.Protocol.Validate.{
  succeeded, obs_cancelled, obs_waiting_approval, obs_waiting_user,
}
use agent_runtime_client.Hub.State.{Hub, M}

abbrev pub entries {ℓ} : {V : Type ℓ} → Option (Map V) → Map V
entries none = []
entries (some m) = m

-- `cloneTask` of a session; a nil map is copied into an empty one.
abbrev pub clone_task : TaskSession → TaskSession
clone_task t = record t { active_sessions = some (entries t.active_sessions) }

before_dash : String → Option String
before_dash String.[] = none
before_dash (String.◌∷◌ c s) =
    if eqb (code c) b'-'
    then some ""
    else elim (before_dash s) [ none ↦ none | some t ↦ some (String.◌∷◌ c t) ]

-- `sessionFamily`
unfoldable pub session_family : String → String
unfolding before_dash
session_family session_id = elim (before_dash session_id) [ none ↦ "default" | some t ↦ t ]

-- The key of the map `active`.
unfoldable pub conversation_key : String → String → String
conversation_key user_id conversation_id = String.◌++◌ user_id (String.◌++◌ ":" conversation_id)

last_action : List Action → Option Action
last_action [] = none
last_action (a ∷ rest) = elim (last_action rest) [ none ↦ some a | some b ↦ some b ]

ends_with_close : Option Action → Bool
ends_with_close none = false
ends_with_close (some a) = has_suffix a.capability ".close"

-- Whether the observation closes its session.
unfoldable pub closes : List Action → String → Bool
unfolding last_action ends_with_close
closes actions status = ends_with_close (last_action actions) && status == succeeded

-- The status of a task after an observation.
unfoldable pub observed_status : String → String → String
observed_status current observed =
    if not (terminal_task_status current)
    then if observed == obs_waiting_approval
      then waiting_approval
      else if observed == obs_waiting_user
      then waiting_user
      else if observed == obs_cancelled
      then cancelled
      else evaluating
    else current

-- The status of a task that executes an action or reports progress.
unfoldable pub executing_status : String → String
executing_status current =
    if can_transition_task_status current executing then executing else current

module _ {S : Type 0} where
  -- A task's session written back through its pointer.
  abbrev pub put_task : String → TaskSession → Hub S → Hub S
  put_task task_id t h = record h { sessions = put task_id t h.sessions }

  -- The part of `recordObservationLocked` for an observation with a session: `active` always has a
  -- map for the key afterwards, and a write to a nil `ActiveSessions` panics.
  unfoldable pub record_session : String → TaskSession → Observation → Time → M S (Unit {0})
  record_session task_id t o now h =
      let family : String = session_family o.session_id in
      let key : String = conversation_key t.user_id t.conversation_id in
      let known : Map String = entries (lookup key h.active) in
      if closes t.actions o.status
      then (
        ok tt,
        record h {
          sessions =
              put task_id
                (record t {
                  active_sessions = elim t.active_sessions [
                    | none ↦ none
                    | some m ↦ some (delete family m)
                  ];
                  updated_at = now;
                })
                h.sessions;
          active = put key (delete family known) h.active;
        },
      )
      else elim t.active_sessions [
        | none ↦ (
          err nil_map_write,
          record h { sessions = put task_id t h.sessions; active = put key known h.active },
        )
        | some m ↦ (
          ok tt,
          record h {
            sessions =
                put task_id
                  (record t {
                    active_sessions = some (put family o.session_id m);
                    updated_at = now;
                  })
                  h.sessions;
            active = put key (put family o.session_id known) h.active;
          },
        )
      ]

  -- `recordObservationLocked`
  unfoldable pub record_observation_locked : String → Observation → Time → M S (Unit {0})
  unfolding record_session
  record_observation_locked task_id o now h = elim (lookup task_id h.sessions) [
    | none ↦ (ok tt, h)
    | some current ↦
        let t : TaskSession = record current {
          observations = current.observations ++ o ∷ [];
          status = observed_status current.status o.status;
        } in
        if o.session_id == ""
        then (ok tt, put_task task_id (record t { updated_at = now }) h)
        else record_session task_id t o now h
  ]

  -- `recordProgress`
  unfoldable pub record_progress : String → Progress → Time → Hub S → Hub S
  record_progress task_id p now h = elim (lookup task_id h.sessions) [
    | none ↦ h
    | some current ↦
        put_task task_id
          (record current {
            metadata = some (put "latest_progress" (latest p) (entries current.metadata));
            status = executing_status current.status;
            updated_at = now;
          })
          h
  ]
