-- ===== src/Schedule/Slots.antt =====
-- The rows of the scheduled tasks under the statements of application/service/scheduledtask/service.go, and
-- what it relies on in the database.
use agent_runtime_client.Base.{
  ℤ, ℕ, suc, ◌≤◌, String, Bool, true, false, not, ◌&&◌, ◌||◌, List, [], ◌∷◌, ◌==◌, map, ◌≡◌, refl,
  ap, ◌⊎◌, inl, inr, eq_refl, not-false, any, keep, length, eq_iff, Bool-cases, arith,
  if◌then◌else◌,
}
use agent_runtime_client.Protocol.Error.{Error, err, Result-cases}
use agent_runtime_client.Repository.Laws.{Lawful}
use agent_runtime_client.Schedule.Rows.{ScheduledTask, JobExecution, ChatApproval, TaskDatabase}
use agent_runtime_client.Runtime.Values.{SysAgent}
use agent_runtime_client.Schedule.Ticks.{claimable, claim}

-- What the scheduler relies on in the database: the statements on its tasks behave as documented, one that
-- fails changes nothing, and a statement on another table leaves the tasks.
pub record Sound {D : Type 0} (db : TaskDatabase D) : Type 0 where
  pub tasks : Lawful db.tasks
  pub failed :
      (test : ScheduledTask → Bool) (set : ScheduledTask → ScheduledTask) (d : D) (e : Error)
      → (db.tasks.update test set d).0 ≡ err e
      → db.tasks.rows (db.tasks.update test set d).1 ≡ db.tasks.rows d
  pub agents :
      (test : SysAgent → Bool) (before : SysAgent → SysAgent → Bool) (n : ℕ) (d : D)
      → db.tasks.rows (db.agents.find test before n d).1 ≡ db.tasks.rows d
  pub jobs :
      (test : JobExecution → Bool) (set : JobExecution → JobExecution) (d : D)
      → db.tasks.rows (db.jobs.update test set d).1 ≡ db.tasks.rows d
  pub job : (j : JobExecution) (d : D) → db.tasks.rows (db.create_job j d).1 ≡ db.tasks.rows d
  pub approval :
      (a : ChatApproval) (d : D) → db.tasks.rows (db.create_approval a d).1 ≡ db.tasks.rows d

abbrev pub Rows : Type 0
Rows = List ScheduledTask

abbrev pub written :
    (ScheduledTask → Bool) → (ScheduledTask → ScheduledTask) → ScheduledTask → ScheduledTask
written test set r = if test r then set r else r

-- An update leaves the rows, or writes to those that it finds.
pub update_rows :
    {D : Type 0} (db : TaskDatabase D) (law : Sound db) (test : ScheduledTask → Bool)
    (set : ScheduledTask → ScheduledTask) (d : D)
    → (db.tasks.rows (db.tasks.update test set d).1 ≡ db.tasks.rows d)
      ⊎ (db.tasks.rows (db.tasks.update test set d).1 ≡ map (written test set) (db.tasks.rows d))
update_rows db law test set d = elim (Result-cases (db.tasks.update test set d).0) [
  | inl (n, e) ↦ inr (law.tasks.updated test set d n e)
  | inr (x, e) ↦ inl (law.failed test set d x e)
]

-- At most one row has the identifier, which is the primary key.
abbrev pub Single : String → List ScheduledTask → Type 0
Single id rows = length (keep (λ r. r.ulid == id) rows) ≤ 1

-- A row of the task that the slot is not written to.
abbrev pub open_slot : String → String → ScheduledTask → Bool
open_slot id slot r = r.ulid == id && not (r.last_slot == slot)

abbrev pub Slotted : String → String → List ScheduledTask → Type 0
Slotted id slot rows = any (open_slot id slot) rows ≡ false

-- A write that keeps the identifier, and opens no slot.
pub record Keeps (id slot : String) (f : ScheduledTask → ScheduledTask) : Type 0 where
  pub key : (r : ScheduledTask) → (f r).ulid ≡ r.ulid
  pub closed : (r : ScheduledTask) → open_slot id slot r ≡ false → open_slot id slot (f r) ≡ false

length-keep-map :
    (p : ScheduledTask → Bool) (f : ScheduledTask → ScheduledTask) (rows : Rows)
    → ((r : ScheduledTask) → p (f r) ≡ p r)
    → length (keep p (map f rows)) ≡ length (keep p rows)
length-keep-map p f [] h = refl
length-keep-map p f (r ∷ rows) h = elim (Bool-cases (p r)) [
  | inl e ↦ rw (h r, e) (ap suc (length-keep-map p f rows h))
  | inr e ↦ rw (h r, e) (length-keep-map p f rows h)
]

pub or_both : (a b : Bool) → (a || b) ≡ false → (a ≡ false) × (b ≡ false)
or_both true b h = cc
or_both false b h = (refl, h)

any-map :
    (p : ScheduledTask → Bool) (f : ScheduledTask → ScheduledTask) (rows : Rows)
    → ((r : ScheduledTask) → p r ≡ false → p (f r) ≡ false)
    → any p rows ≡ false
    → any p (map f rows) ≡ false
any-map p f [] h e = refl
any-map p f (r ∷ rows) h e =
    let (a, b) = or_both (p r) (any p rows) e in rw (h r a) (any-map p f rows h b)

pub written-Keeps :
    (id slot : String) (test : ScheduledTask → Bool) (set : ScheduledTask → ScheduledTask)
    → Keeps id slot set
    → Keeps id slot (written test set)
written-Keeps id slot test set k = record {
  key = λ r. elim (Bool-cases (test r)) [ inl e ↦ rw e (k.key r) | inr e ↦ rw e refl ];
  closed = λ r h. elim (Bool-cases (test r)) [ inl e ↦ rw e (k.closed r h) | inr e ↦ rw e h ];
}

-- The rows at one time and at a later one: the task is as single as before, and as claimed as before.
pub record Follows (id slot : String) (before after : List ScheduledTask) : Type 0 where
  pub single : Single id before → Single id after
  pub slotted : Slotted id slot before → Slotted id slot after

pub Follows-same :
    (id slot : String) (before after : List ScheduledTask)
    → after ≡ before
    → Follows id slot before after
Follows-same id slot before after e = record { single = λ h. rw e h; slotted = λ h. rw e h }

pub Follows-trans :
    (id slot : String) (a b c : List ScheduledTask)
    → Follows id slot a b
    → Follows id slot b c
    → Follows id slot a c
Follows-trans id slot a b c f g = record {
  single = λ h. g.single (f.single h);
  slotted = λ h. g.slotted (f.slotted h);
}

pub Single-map :
    (id : String) (f : ScheduledTask → ScheduledTask) (rows : List ScheduledTask)
    → ((r : ScheduledTask) → (f r).ulid ≡ r.ulid)
    → Single id rows
    → Single id (map f rows)
Single-map id f rows k h = rw (length-keep-map (λ r. r.ulid == id) f rows (λ r. rw (k r) refl)) h

-- An update that keeps identifiers and slots.
pub update-Follows :
    {D : Type 0} (db : TaskDatabase D) (law : Sound db) (id slot : String)
    (test : ScheduledTask → Bool) (set : ScheduledTask → ScheduledTask) (d : D)
    → Keeps id slot (written test set)
    → Follows id slot (db.tasks.rows d) (db.tasks.rows (db.tasks.update test set d).1)
update-Follows db law id slot test set d w = elim (update_rows db law test set d) [
  | inl e ↦ Follows-same id slot _ _ e
  | inr e ↦ record {
    single = λ h. rw e (Single-map id (written test set) (db.tasks.rows d) w.key h);
    slotted =
        λ h. rw e (any-map (open_slot id slot) (written test set) (db.tasks.rows d) w.closed h);
  }
]

and_false : (b : Bool) → (b && false) ≡ false
and_false true = refl
and_false false = refl

none_left :
    (id slot : String) (rows : Rows)
    → length (keep (λ r. r.ulid == id) rows) ≤ 0
    → (any (λ r. claimable id slot r) rows ≡ false) × (any (open_slot id slot) rows ≡ false)
none_left id slot [] h = (refl, refl)
none_left id slot (r ∷ rows) h = elim (Bool-cases (r.ulid == id)) [
  | inl e ↦ let g : suc (length (keep (λ r. r.ulid == id) rows)) ≤ 0 = rw e at h in ground arith
  | inr e ↦
      let g : length (keep (λ r. r.ulid == id) rows) ≤ 0 = rw e at h in
      rw e (none_left id slot rows g)
]

or_left_only : (a b : Bool) → b ≡ false → (a || b) ≡ true → a ≡ true
or_left_only a b e h = ground arith

or_and_false : (b : Bool) → (b && false || false) ≡ false
or_and_false true = refl
or_and_false false = refl

-- A claim writes the slot.
pub claim-Keeps : (id slot : String) (now : ℤ) → Keeps id slot (claim slot now)
claim-Keeps id slot now = record {
  key = λ r. refl;
  closed = λ r h. rw (eq_refl slot) (and_false (r.ulid == id));
}

-- The row that a successful claim finds is the task's only one, so that the slot is written to it.
pub claim-Slotted :
    (id slot : String) (now : ℤ) (rows : List ScheduledTask)
    → Single id rows
    → any (claimable id slot) rows ≡ true
    → Slotted id slot (map (written (claimable id slot) (claim slot now)) rows)
claim-Slotted id slot now [] single h = cc
claim-Slotted id slot now (r ∷ rows) single h =
    let w = written-Keeps id slot (claimable id slot) (claim slot now) (claim-Keeps id slot now) in
    elim (Bool-cases (r.ulid == id)) [
      | inl e ↦
          let g : suc (length (keep (λ r. r.ulid == id) rows)) ≤ 1 = rw e at single in
          let (a, b) = none_left id slot rows (omega arith) in
          let c : claimable id slot r ≡ true = or_left_only (claimable id slot r) _ a h in
          rw
            (
              c,
              any-map (open_slot id slot) (written (claimable id slot) (claim slot now)) rows
                  w.closed b,
              eq_refl slot,
            )
            (or_and_false (r.ulid == id))
      | inr e ↦
          let g : length (keep (λ r. r.ulid == id) rows) ≤ 1 = rw e at single in
          let c : any (claimable id slot) rows ≡ true = rw e at h in
          rw (e, claim-Slotted id slot now rows g c) (rw e refl)
    ]

-- A task whose slot is written is not claimed again.
pub Slotted-not_claimable :
    (id slot : String) (rows : List ScheduledTask)
    → (slot == "") ≡ false
    → Slotted id slot rows
    → any (claimable id slot) rows ≡ false
Slotted-not_claimable id slot [] n h = refl
Slotted-not_claimable id slot (r ∷ rows) n h =
    let (a, b) = or_both (open_slot id slot r) (any (open_slot id slot) rows) h in
    elim (Bool-cases (r.ulid == id)) [
      | inl e ↦
          let g : not (r.last_slot == slot) ≡ false = rw e at a in
          let k : r.last_slot ≡ slot = (eq_iff _ _).0 (not-false _ g) in
          rw (Slotted-not_claimable id slot rows n b, k, n, eq_refl slot) (ground arith)
      | inr e ↦ rw (e, Slotted-not_claimable id slot rows n b) refl
    ]
