-- ===== src/Hub/Evolution/Invariants.antt =====
-- What holds of the sessions in memory over every history of calls of
-- application/service/control/hub.go, by induction on how they evolve.
use agent_runtime_client.Base.{
  String, true, false, none, some, List, ◌++◌, append_assoc, ◌≡◌, refl, sym, ap, ◌∙◌, ◌⊎◌, inl, inr,
  ◌==◌, eq_iff, Bool-cases, Map, lookup, put, lookup-put,
}
use agent_runtime_client.Protocol.Message.{TaskSession}
use agent_runtime_client.Protocol.Validate.{Codec}
use agent_runtime_client.Protocol.Status.{terminal_task_status, transition_from_terminal}
use agent_runtime_client.Store.{Store}
use agent_runtime_client.Hub.State.{Hub}
use agent_runtime_client.Hub.Steps.{Event, run}
use agent_runtime_client.Hub.Evolution.{
  Moved, Extends, same_list, Change, Evolves, stays, changes, adds,
}
use agent_runtime_client.Hub.Evolution.History.{run-Evolves}

-- What a session keeps for as long as the hub runs.
pub record Lasts (t u : TaskSession) : Type 0 where
  pub task_id : u.task_id ≡ t.task_id
  pub created_at : u.created_at ≡ t.created_at
  pub user_id : (t.user_id ≡ "") ⊎ (u.user_id ≡ t.user_id)
  pub status : (terminal_task_status t.status ≡ false) ⊎ (u.status ≡ t.status)
  pub actions : Extends t.actions u.actions
  pub observations : Extends t.observations u.observations

Extends-trans {ℓ} : {A : Type ℓ} (xs ys zs : List A) → Extends xs ys → Extends ys zs → Extends xs zs
Extends-trans xs ys zs (p, e) (q, f) = (p ++ q, f ∙ ap (λ l. l ++ q) e ∙ append_assoc xs p q)

Lasts-refl : (t : TaskSession) → Lasts t t
Lasts-refl t = record {
  task_id = refl;
  created_at = refl;
  user_id = inr refl;
  status = inr refl;
  actions = same_list t.actions;
  observations = same_list t.observations;
}

same_owner : (a b c : String) → (a ≡ "") ⊎ (b ≡ a) → (b ≡ "") ⊎ (c ≡ b) → (a ≡ "") ⊎ (c ≡ a)
same_owner a b c (inl e) q = inl e
same_owner a b c (inr e) (inl f) = inl (sym e ∙ f)
same_owner a b c (inr e) (inr f) = inr (f ∙ e)

same_status :
    (a b c : String)
    → (terminal_task_status a ≡ false) ⊎ (b ≡ a)
    → Moved b c
    → (terminal_task_status a ≡ false) ⊎ (c ≡ a)
same_status a b c (inl e) q = inl e
same_status a b c (inr e) (inl f) = inr (f ∙ e)
same_status a b c (inr e) (inr f) = elim (Bool-cases (terminal_task_status a)) [
  | inl p ↦
      let q : terminal_task_status b ≡ true = rw e p in
      inr (sym ((transition_from_terminal b c q).0 f) ∙ e)
  | inr p ↦ inl p
]

Lasts-Change : (t u v : TaskSession) → Lasts t u → Change u v → Lasts t v
Lasts-Change t u v l c = record {
  task_id = c.task_id ∙ l.task_id;
  created_at = c.created_at ∙ l.created_at;
  user_id = same_owner _ _ _ l.user_id c.user_id;
  status = same_status _ _ _ l.status c.status;
  actions = Extends-trans _ _ _ l.actions c.actions;
  observations = Extends-trans _ _ _ l.observations c.observations;
}

-- The session `id` is still there, and has kept what it keeps.
pub record Remains (id : String) (t : TaskSession) (n : Map TaskSession) : Type 0 where
  pub now : TaskSession
  pub there : lookup id n ≡ some now
  pub lasting : Lasts t now

Remains-put :
    (id key : String) (t u : TaskSession) (n : Map TaskSession)
    → ((id ≡ key) → Lasts t u)
    → Remains id t n
    → Remains id t (put key u n)
Remains-put id key t u n f r = elim (Bool-cases (key == id)) [
  | inl e ↦ record {
    now = u;
    there = rw (lookup-put key id u n, e) refl;
    lasting = f (sym ((eq_iff key id).0 e));
  }
  | inr e ↦ record {
    now = r.now;
    there = rw (lookup-put key id u n, e) r.there;
    lasting = r.lasting;
  }
]

same_session :
    (id key : String) (t u : TaskSession) (n : Map TaskSession)
    → lookup id n ≡ some t
    → lookup key n ≡ some u
    → id ≡ key
    → t ≡ u
same_session id key t u n e f p = let g : lookup id n ≡ some u = rw p f in cc

module _ {S : Type 0} ⦃db : Store S⦄ where
  Evolves-Remains :
      (id : String) (t : TaskSession) (m n : Map TaskSession)
      → Evolves S m n
      → lookup id m ≡ some t
      → Remains id t n
  Evolves-Remains id t m _ stays e = record { now = t; there = e; lasting = Lasts-refl t }
  Evolves-Remains id t m _ (changes key v u n g f c) e =
      let r = Evolves-Remains id t m n g e in
      Remains-put id key t u n
        (λ p. Lasts-Change t v u (rw (← same_session id key r.now v n r.there f p) r.lasting) c) r
  Evolves-Remains id t m _ (adds key u n g f o) e =
      let r = Evolves-Remains id t m n g e in
      Remains-put id key t u n (λ p. absurd (gone p r.now r.there f)) r
    where
      gone : (id ≡ key) → (v : TaskSession) → lookup id n ≡ some v → lookup key n ≡ none → ⊥
      gone p v q f = let g : lookup id n ≡ none = rw p f in cc

-- A session in memory stays there, whatever methods are called in whatever order, with any
-- repository. Its task and its creation time stay; once it has an owner, it keeps this owner; once
-- it has completed, failed or been cancelled, its status never changes; and the actions and
-- observations that it has recorded remain, in their order, with later ones after them.
pub run-Remains :
    {S : Type 0} ⦃db : Store S⦄ (codec : Codec) (h : Hub S) (es : List Event) (id : String)
    (t : TaskSession)
    → lookup id h.sessions ≡ some t
    → Remains id t (run codec h es).sessions
run-Remains codec h es id t e = Evolves-Remains id t _ _ (run-Evolves codec h es) e
