-- ===== src/Schedule/Once.antt =====
-- A task is started once in a slot: the claim of `tick` in application/service/scheduledtask/service.go.
use agent_runtime_client.Base.{
  ◌+◌, ◌≤◌, String, false, List, [], ◌∷◌, ◌==◌, ◌≡◌, refl, ◌∙◌, inl, inr, any, All, arith,
}
use agent_runtime_client.Protocol.Error.{Error}
use agent_runtime_client.Schedule.Rows.{Bytes, ScheduledTask, TaskDatabase}
use agent_runtime_client.Schedule.Ticks.{Scheduler, Event, step, run}
use agent_runtime_client.Schedule.Slots.{Sound, Single, Slotted, open_slot}
use agent_runtime_client.Schedule.Writes.{rows}
use agent_runtime_client.Schedule.Starting.{starts, InSlot, step-Steps}

module _ {D : Type 0} (db : TaskDatabase D) (law : Sound db) (id slot : String)
    (error_text : Error → String) (parameters : ScheduledTask → Bytes → String) where
  Slotted-run :
      (es : List Event) (s : Scheduler D)
      → (slot == "") ≡ false
      → All (InSlot id slot) es
      → Single id (rows db law id slot s.db)
      → Slotted id slot (rows db law id slot s.db)
      → starts id (run db error_text parameters es s) ≡ starts id s
  unfolding run
  Slotted-run [] s n a h c = refl
  Slotted-run (e ∷ es) s n (i, a) h c =
      let t = step-Steps db law id slot error_text parameters e s n i in
      elim (t.starts_once h) [
        | inl (same, kept) ↦ Slotted-run es _ n a (t.single h) (kept c) ∙ same
        | inr (was, more, set) ↦
            let z : any (open_slot id slot) (rows db law id slot s.db) ≡ false = c in
            elim (was z) [ ]
      ]

  -- If the database keeps its documented behaviour and an identifier is that of one task at most, then in
  -- any history of the scheduler, however often its scans examine the task in one slot, and
  -- whatever runs end and whatever users change in between, at most one run of the task is started.
  pub run-starts :
      (es : List Event) (s : Scheduler D)
      → (slot == "") ≡ false
      → All (InSlot id slot) es
      → Single id (rows db law id slot s.db)
      → starts id (run db error_text parameters es s) ≤ starts id s + 1
  unfolding run
  run-starts [] s n a h = omega arith
  run-starts (e ∷ es) s n (i, a) h =
      let t = step-Steps db law id slot error_text parameters e s n i in
      elim (t.starts_once h) [
        | inl (same, kept) ↦
            rw (← same) (run-starts es (step db error_text parameters e s) n a (t.single h))
        | inr (was, more, c) ↦
            rw (Slotted-run es (step db error_text parameters e s) n a (t.single h) c, more)
              (omega arith)
      ]
