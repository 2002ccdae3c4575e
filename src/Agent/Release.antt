-- ===== src/Agent/Release.antt =====
-- What a report of an instance's state does to the instance and to its slots
-- (applyInstanceStatus of services/main-api/internal/grpc/agent_stream.go).
use hybrid_cloud_with_claude.Prelude.{
  ℕ, ==_refl, ◌≡◌, refl, ap, ◌∙◌, inl, inr, Bool, true, false, some, List, [], ◌∷◌, update_where,
  count_where, Bool-cases, if◌then◌else◌, arith,
}
use hybrid_cloud_with_claude.Schema.{InstanceState, Instance, GpuSlot, Db}
use hybrid_cloud_with_claude.Store.{World, ok, attempt, statement, invalid_transition}
use hybrid_cloud_with_claude.Instance.Machine.{is_terminal, can_transition, validate}
use hybrid_cloud_with_claude.Instance.Queries.{holds}
use hybrid_cloud_with_claude.Instance.Repo.{transition, check_transition, params_of}
use hybrid_cloud_with_claude.Instance.Rows.{row_of, state_of, row_of-update}
use hybrid_cloud_with_claude.Instance.Audit.{transitioned}
use hybrid_cloud_with_claude.Instance.Works.{transition_allowed, transition_refused}
use hybrid_cloud_with_claude.Slot.Queries.{free_row, release_slots_for_instance}
use hybrid_cloud_with_claude.Slot.Repo.{release_for_instance}
use hybrid_cloud_with_claude.Agent.Status.{
  Parsers, InstanceStatus, ReportedState, map_instance_state, report_options, release_if_terminal,
  after_report, apply_instance_status,
}

-- A released slot holds nothing.
pub count-released :
    (id : ℕ) (slots : List GpuSlot)
    → count_where (holds id) (update_where (holds id) free_row slots) ≡ 0
count-released id [] = refl
count-released id (s ∷ slots) = ground (arith, count-released id slots)

module _ (p : Parsers) (st : InstanceStatus) (w : World) (id : ℕ) (to : InstanceState) where
  applied :
      p.parse_uuid st.instance_id ≡ some id
      → map_instance_state st.state ≡ ok to
      → apply_instance_status p st w
        ≡ attempt (transition id to (report_options p st)) (after_report id to) w
  unfolding apply_instance_status
  applied u m = rw (u, m) refl

  released :
      (v : World)
      → v.faults ≡ []
      → is_terminal to ≡ true
      → ((release_if_terminal id to v).0 ≡ ok tt)
        × ((release_if_terminal id to v).1.db
            ≡ record v.db { slots = update_where (holds id) free_row v.db.slots })
  unfolding release_if_terminal release_for_instance release_slots_for_instance statement
  released v f t = ground arith

  -- The tables after the transition, before the slots are released.
  abbrev reported : Instance → Bool → Db
  reported cur true = transitioned id to (report_options p st) cur w.now w.db
  reported cur false = w.db

  terminal_report :
      (cur : Instance)
      → w.faults ≡ []
      → validate to ≡ ok tt
      → is_terminal to ≡ true
      → row_of id w.db.instances ≡ some cur
      → let r = attempt (transition id to (report_options p st)) (after_report id to) w in
        (r.0 ≡ ok tt)
        × (r.1.db ≡ record (reported cur (can_transition cur.state to)) {
          slots = update_where (holds id) free_row w.db.slots;
        })
  unfolding check_transition
  terminal_report cur f v t found =
      let opts = report_options p st in
      elim (Bool-cases (can_transition cur.state to)) [
        | inl allowed ↦
            rw (transition_allowed id to opts w cur f v found (ground arith), allowed)
              (released (record w { db = transitioned id to opts cur w.now w.db }) f t)
        | inr refused ↦
            rw
              (
                transition_refused id to opts w cur f v found {e = invalid_transition}
                    (ground arith),
                refused,
              )
              (released w f t)
      ]

  -- Over a connection that works, once an agent has reported a terminal state of an instance that has a
  -- row, the answer is a success and no slot is the instance's, whether its state could follow or not.

  reported_state :
      (cur : Instance) (allowed : Bool)
      → row_of id w.db.instances ≡ some cur
      → state_of id (reported cur allowed).instances ≡ some (if allowed then to else cur.state)
  reported_state cur true found = ground (
    arith,
    row_of-update w.now id (params_of id to (report_options p st)) w.db.instances,
    ==_refl id,
  )
  reported_state cur false found = ground arith

mapped-valid :
    (s : ReportedState) {to : InstanceState} → map_instance_state s ≡ ok to → validate to ≡ ok tt
unfolding map_instance_state validate
mapped-valid s h = ground arith

-- Over a connection that works, a report of a terminal state of an instance that has a row is answered
-- with success; the row takes the state just when its own state allows the step, and keeps its
-- state otherwise; and in both cases the instance holds no slot any more.
pub report_frees :
    (p : Parsers) (st : InstanceStatus) (w : World) (id : ℕ) (to : InstanceState) (cur : Instance)
    → w.faults ≡ []
    → p.parse_uuid st.instance_id ≡ some id
    → map_instance_state st.state ≡ ok to
    → is_terminal to ≡ true
    → row_of id w.db.instances ≡ some cur
    → ((apply_instance_status p st w).0 ≡ ok tt)
      × (state_of id (apply_instance_status p st w).1.db.instances
          ≡ some (if can_transition cur.state to then to else cur.state))
      × (count_where (holds id) (apply_instance_status p st w).1.db.slots ≡ 0)
report_frees p st w id to cur f u m t found =
    let (done, after) = terminal_report p st w id to cur f (mapped-valid st.state m) t found in
    rw (applied p st w id to u m) (
      done,
      ap (λ db. state_of id db.instances) after
          ∙ reported_state p st w id to cur (can_transition cur.state to) found,
      ap (λ db. count_where (holds id) db.slots) after ∙ count-released id w.db.slots,
    )
