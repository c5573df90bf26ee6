-- ===== src/Schedule/Decisions.antt =====
-- `DecideApproval` of application/service/scheduledtask/service.go: an approval is decided once.
use agent_runtime_client.Base.{
  ℕ, ℤ, String, Bool, true, false, ◌&&◌, List, [], ◌∷◌, ◌==◌, map, ◌≡◌, ◌≢◌, refl, sym, ◌∙◌, inl,
  inr, eqb, any, Bool-cases, arith, if◌then◌else◌,
}
use agent_runtime_client.Protocol.Error.{Error, Result, ok, err, not_rejected, Result-cases}
use agent_runtime_client.Store.{next, next-value, lift}
use agent_runtime_client.Repository.Laws.{Lawful}
use agent_runtime_client.Schedule.Rows.{ChatApproval, TaskDatabase}
use agent_runtime_client.Schedule.Requests.{
  ApprovalDecision, pending_approval, decide, decided_status, decide_approval, affected, no_pending,
}

-- A statement on the approvals that fails changes nothing.
pub record Settled {D : Type 0} (db : TaskDatabase D) : Type 0 where
  pub lawful : Lawful db.approvals
  pub failed :
      (test : ChatApproval → Bool) (set : ChatApproval → ChatApproval) (d : D) (e : Error)
      → (db.approvals.update test set d).0 ≡ err e
      → db.approvals.rows (db.approvals.update test set d).1 ≡ db.approvals.rows d

-- A decision of some user on some approval, at some time.
pub record Decision : Type 0 where
  pub user_id : String
  pub id : String
  pub decision : ApprovalDecision
  pub now : ℤ

-- The state after decisions, whether they succeed or not.
unfoldable pub decide_all : {D : Type 0} → TaskDatabase D → List Decision → D → D
decide_all db [] d = d
decide_all db (x ∷ xs) d = decide_all db xs (decide_approval db x.user_id x.id x.decision x.now d).1

module _ {D : Type 0} (db : TaskDatabase D) (law : Settled db) (user_id id : String) where
  abbrev Open : D → Type 0
  Open d = any (pending_approval user_id id) (db.approvals.rows d) ≡ true

  abbrev Closed : D → Type 0
  Closed d = any (pending_approval user_id id) (db.approvals.rows d) ≡ false

  not_pending : (d : ApprovalDecision) → (decided_status d == "pending") ≡ false
  not_pending d = elim (Bool-cases d.approved) [ inl e ↦ rw e refl | inr e ↦ rw e refl ]

  and_right_false : (a b : Bool) → b ≡ false → (a && b) ≡ false
  and_right_false a b e = ground arith

  -- A decided row is pending for nobody.
  decided_row :
      (x : Decision) (r : ChatApproval)
      → pending_approval user_id id (decide x.user_id x.decision x.now r) ≡ false
  decided_row x r = and_right_false _ _ (not_pending x.decision)

  written_row :
      (x : Decision) (r : ChatApproval)
      → pending_approval user_id id r ≡ false
      → pending_approval user_id id
          (if pending_approval x.user_id x.id r then decide x.user_id x.decision x.now r else r)
        ≡ false
  written_row x r h = elim (Bool-cases (pending_approval x.user_id x.id r)) [
    | inl e ↦ rw e (decided_row x r)
    | inr e ↦ rw e h
  ]

  written_own :
      (decision : ApprovalDecision) (now : ℤ) (rows : List ChatApproval)
      → any (pending_approval user_id id) (
          map
            (λ r. if pending_approval user_id id r then decide user_id decision now r else r)
            rows)
        ≡ false
  written_own decision now [] = refl
  written_own decision now (r ∷ rows) =
      let x : Decision = record { user_id = user_id; id = id; decision = decision; now = now } in
      elim (Bool-cases (pending_approval user_id id r)) [
        | inl e ↦ rw (e, decided_row x r) (written_own decision now rows)
        | inr e ↦ rw (e, e) (written_own decision now rows)
      ]

  written_rows :
      (x : Decision) (rows : List ChatApproval)
      → any (pending_approval user_id id) rows ≡ false
      → any (pending_approval user_id id) (
          map
            (λ r.
              if pending_approval x.user_id x.id r then decide x.user_id x.decision x.now r else r)
            rows)
        ≡ false
  written_rows x [] h = refl
  written_rows x (r ∷ rows) h = elim (Bool-cases (pending_approval user_id id r)) [
    | inl e ↦ let z : true ≡ false = rw e at h in cc
    | inr e ↦
        let g : any (pending_approval user_id id) rows ≡ false = rw e at h in
        rw (written_row x r e) (written_rows x rows g)
  ]

  state_after : (r : Result ℕ) (d : D) → (next r (λ n. lift (affected no_pending n)) d).1 ≡ d
  unfolding next
  state_after (ok n) d = refl
  state_after (err e) d = refl

  decide_approval-Closed :
      (x : Decision) (d : D)
      → Closed d
      → Closed (decide_approval db x.user_id x.id x.decision x.now d).1
  unfolding decide_approval
  decide_approval-Closed x d c =
      let u =
        db.approvals.update (pending_approval x.user_id x.id) (decide x.user_id x.decision x.now)
          d in
      elim (Result-cases u.0) [
        | inl (n, e) ↦
            rw (state_after u.0 u.1, law.lawful.updated _ _ d n e)
              (written_rows x (db.approvals.rows d) c)
        | inr (e, p) ↦ rw (state_after u.0 u.1, law.failed _ _ d e p) c
      ]

  decide_all-Closed : (xs : List Decision) (d : D) → Closed d → Closed (decide_all db xs d)
  unfolding decide_all
  decide_all-Closed [] d c = c
  decide_all-Closed (x ∷ xs) d c = decide_all-Closed xs _ (decide_approval-Closed x d c)

  -- A decision that succeeds has found a pending approval, and leaves none.
  decide_approval-found :
      (decision : ApprovalDecision) (now : ℤ) (d : D)
      → (decide_approval db user_id id decision now d).0 ≡ ok tt
      → Open d × Closed (decide_approval db user_id id decision now d).1
  unfolding decide_approval
  decide_approval-found decision now d h =
      let u = db.approvals.update (pending_approval user_id id) (decide user_id decision now) d in
      let (n, (e, r)) = next-value u.0 (λ n. lift (affected no_pending n)) u.1 tt h in
      let k = not_rejected (eqb n 0) no_pending r in
      (
        law.lawful.matched _ _ d n e (ground arith),
        rw (state_after u.0 u.1, law.lawful.updated _ _ d n e)
            (written_own decision now (db.approvals.rows d)),
      )

  -- If the database keeps its documented behaviour and a user has decided an approval, then no later decision
  -- of the user on it succeeds, whatever decisions of anyone come in between.
  pub decide_approval-once :
      (decision again : ApprovalDecision) (now later : ℤ) (between : List Decision) (d : D)
      → (decide_approval db user_id id decision now d).0 ≡ ok tt
      → (decide_approval db user_id id again later
          (decide_all db between (decide_approval db user_id id decision now d).1)).0
        ≢ ok tt
  decide_approval-once decision again now later between d h g =
      let (was, closed) = decide_approval-found decision now d h in
      let still : Closed (decide_all db between (decide_approval db user_id id decision now d).1) =
        decide_all-Closed between _ closed in
      let (open_again, c) = decide_approval-found again later _ g in
      let z : true ≡ false = sym open_again ∙ still in cc
