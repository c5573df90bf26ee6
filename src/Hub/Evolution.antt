-- ===== src/Hub/Evolution.antt =====
-- How the sessions in memory change under the methods of application/service/control/hub.go.
pub mod Methods
pub mod Dispatching
pub mod Cancelling
pub mod History
pub mod Invariants
pub mod Soundness
use agent_runtime_client.Base.{
  ℕ, String, Bool, true, false, not, ◌&&◌, ◌||◌, Option, none, some, Option-cases, List, [], ◌∷◌,
  ◌++◌, append-nil, append_assoc, ◌≡◌, refl, sym, ap, ◌∙◌, ◌⊎◌, inl, inr, arith, ◌==◌, eq_iff,
  Bool-cases, Map, lookup, put, lookup-put, if◌then◌else◌,
}
use agent_runtime_client.Protocol.Error.{Error, Result, ok, err}
use agent_runtime_client.Protocol.Message.{Time, Action, Observation, Progress, TaskSession}
use agent_runtime_client.Protocol.Status.{
  terminal_task_status, valid_task_status, can_transition_task_status, transition_from_live,
  executing, waiting_approval, waiting_user, cancelled, evaluating,
}
use agent_runtime_client.Protocol.Validate.{obs_waiting_approval, obs_waiting_user, obs_cancelled}
use agent_runtime_client.Store.{Store}
use agent_runtime_client.Hub.State.{Hub, M, after}
use agent_runtime_client.Hub.Sessions.{
  closes, observed_status, executing_status, put_task, record_session, record_observation_locked,
  record_progress,
}

-- A status stays, or moves as the life cycle of a task allows.
abbrev pub Moved : String → String → Type 0
Moved s t = (t ≡ s) ⊎ (can_transition_task_status s t ≡ true)

abbrev pub has_map : Option (Map String) → Bool
has_map none = false
has_map (some m) = true

-- Nothing is taken out of a session's record.
abbrev pub Extends {ℓ} : {A : Type ℓ} → List A → List A → Type ℓ
Extends {A = A} xs ys = (more : List A) × (ys ≡ xs ++ more)

-- What a method may do to a session in memory.
pub record Change (t u : TaskSession) : Type 0 where
  pub task_id : u.task_id ≡ t.task_id
  pub user_id : (t.user_id ≡ "") ⊎ (u.user_id ≡ t.user_id)
  pub status : Moved t.status u.status
  pub sessions : has_map u.active_sessions ≡ has_map t.active_sessions
  pub actions : Extends t.actions u.actions
  pub observations : Extends t.observations u.observations
  pub created_at : u.created_at ≡ t.created_at

-- Where a new session in memory comes from: it is made there, or found in the repository.
pub data Origin (S : Type 0) ⦃db : Store S⦄ (id : String) (t : TaskSession) : Type 0 where
  made :
      t.task_id ≡ id
      → valid_task_status t.status ≡ true
      → has_map t.active_sessions ≡ true
      → Origin S id t
  found : (st : S) → (db.find_task id st).0 ≡ ok (some t) → Origin S id t

-- The sessions `n` come from the sessions `m` by changes and additions.
pub data Evolves (S : Type 0) ⦃db : Store S⦄ (m : Map TaskSession) : Map TaskSession → Type 0 where
  stays : Evolves S m m
  changes :
      (id : String) (t u : TaskSession) (n : Map TaskSession)
      → Evolves S m n
      → lookup id n ≡ some t
      → Change t u
      → Evolves S m (put id u n)
  adds :
      (id : String) (u : TaskSession) (n : Map TaskSession)
      → Evolves S m n
      → lookup id n ≡ none
      → Origin S id u
      → Evolves S m (put id u n)

module _ {S : Type 0} ⦃db : Store S⦄ where
  pub Evolves-trans : (m n p : Map TaskSession) → Evolves S m n → Evolves S n p → Evolves S m p
  Evolves-trans m n p f stays = f
  Evolves-trans m n _ f (changes id t u k g e c) = changes id t u k (Evolves-trans m n k f g) e c
  Evolves-trans m n _ f (adds id u k g e o) = adds id u k (Evolves-trans m n k f g) e o

  pub changed :
      (id : String) (u t : TaskSession) (m : Map TaskSession)
      → lookup id m ≡ some t
      → Change t u
      → Evolves S m (put id u m)
  changed id u t m e c = changes id t u m stays e c

  pub added :
      (id : String) (u : TaskSession) (m : Map TaskSession)
      → lookup id m ≡ none
      → Origin S id u
      → Evolves S m (put id u m)
  added id u m e o = adds id u m stays e o

pub same_list {ℓ} : {A : Type ℓ} (xs : List A) → Extends xs xs
same_list xs = ([], sym (append-nil xs))

observed_valid :
    (a b c : Bool)
    → valid_task_status (
        if a
        then waiting_approval
        else if b
        then waiting_user
        else if c
        then cancelled
        else evaluating)
      ≡ true
unfolding valid_task_status
observed_valid true b c = refl
observed_valid false true c = refl
observed_valid false false true = refl
observed_valid false false false = refl

observed_status-Moved : (s o : String) → Moved s (observed_status s o)
unfolding observed_status
observed_status-Moved s o = elim (Bool-cases (terminal_task_status s)) [
  | inl e ↦ rw e (inl refl)
  | inr e ↦
      rw (e, transition_from_live s _ e)
        (inr
          (observed_valid (o == obs_waiting_approval) (o == obs_waiting_user) (o == obs_cancelled)))
]

pub executing_status-Moved : (s : String) → Moved s (executing_status s)
unfolding executing_status
executing_status-Moved s = elim (Bool-cases (can_transition_task_status s executing)) [
  | inl e ↦ rw e (inr e)
  | inr e ↦ rw e (inl refl)
]

observation-Change :
    (current : TaskSession) (o : Observation) (now : Time) (sessions : Option (Map String))
    → has_map sessions ≡ has_map current.active_sessions
    → Change current (record current {
      observations = current.observations ++ o ∷ [];
      status = observed_status current.status o.status;
      active_sessions = sessions;
      updated_at = now;
    })
observation-Change current o now sessions e = record {
  task_id = refl;
  user_id = inr refl;
  status = observed_status-Moved current.status o.status;
  sessions = e;
  actions = same_list current.actions;
  observations = (o ∷ [], refl);
  created_at = refl;
}

module _ {S : Type 0} ⦃db : Store S⦄ where
  -- The sessions of the hub come from `m`.
  abbrev pub EvolvesIn : Map TaskSession → Hub S → Type 0
  EvolvesIn m h = Evolves S m h.sessions

  pub record_observation_locked-Evolves :
      {T : Type 0} (id : String) (o : Observation) (now : Time) (h : Hub T)
      → Evolves S h.sessions (record_observation_locked id o now h).1.sessions
  unfolding record_observation_locked record_session
  record_observation_locked-Evolves id o now h = elim (Option-cases (lookup id h.sessions)) [
    | inl e ↦ rw (e, record_observation_locked) stays
    | inr (current, e) ↦
        rw (e, record_observation_locked)
          (elim (Bool-cases (o.session_id == "")) [
            | inl p ↦ rw p (
                changed id _ current h.sessions e
                  (observation-Change current o now current.active_sessions refl))
            | inr p ↦ rw p (elim (Bool-cases (closes current.actions o.status)) [
              | inl q ↦
                  rw (q, record_session)
                    (elim (Option-cases current.active_sessions) [
                      | inl r ↦ rw r (
                          changed id _ current h.sessions e
                            (observation-Change current o now none (ap has_map (sym r))))
                      | inr (m, r) ↦ rw r (
                          changed id _ current h.sessions e
                            (observation-Change current o now (some _) (ap has_map (sym r))))
                    ])
              | inr q ↦
                  rw (q, record_session)
                    (elim (Option-cases current.active_sessions) [
                      | inl r ↦ rw r (
                          changed id _ current h.sessions e (
                            observation-Change current o current.updated_at current.active_sessions
                              refl))
                      | inr (m, r) ↦ rw r (
                          changed id _ current h.sessions e
                            (observation-Change current o now (some _) (ap has_map (sym r))))
                    ])
            ])
          ])
  ]

  pub record_progress-Evolves :
      {T : Type 0} (id : String) (p : Progress) (now : Time) (h : Hub T)
      → Evolves S h.sessions (record_progress id p now h).sessions
  unfolding record_progress
  record_progress-Evolves id p now h = elim (Option-cases (lookup id h.sessions)) [
    | inl e ↦ rw (e, record_progress) stays
    | inr (current, e) ↦
        rw (e, record_progress)
          (changed id _ current h.sessions e (record {
            task_id = refl;
            user_id = inr refl;
            status = executing_status-Moved current.status;
            sessions = refl;
            actions = same_list current.actions;
            observations = same_list current.observations;
            created_at = refl;
          }))
  ]
