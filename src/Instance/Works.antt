-- ===== src/Instance/Works.antt =====
-- Transition of services/main-api/internal/instance/repo.go over a connection that works.
use hybrid_cloud_with_claude.Prelude.{
  ℕ, ==_refl, ◌≡◌, ◌⊎◌, inl, inr, Bool, ◌&&◌, some, Bool-cases, [], update_where, arith,
}
use hybrid_cloud_with_claude.Schema.{InstanceState, state_eq, Instance}
use hybrid_cloud_with_claude.Store.{World, Error, ok, err, invalid_transition}
use hybrid_cloud_with_claude.Instance.Machine.{validate, can_transition}
use hybrid_cloud_with_claude.Instance.Queries.{has_id, with_state}
use hybrid_cloud_with_claude.Instance.Repo.{
  TransitionOptions, transition, check_transition, params_of,
}
use hybrid_cloud_with_claude.Instance.Rows.{row_of, row_of-update, any-row_of}
use hybrid_cloud_with_claude.Instance.Audit.{transitioned}

pub check_transition-cases :
    (from to : InstanceState) (skip : Bool)
    → (check_transition from to skip ≡ ok tt)
      ⊎ (check_transition from to skip ≡ err invalid_transition)
unfolding check_transition
check_transition-cases from to skip = elim (Bool-cases (state_eq from to && skip)) [
  | inl t ↦ inr (ground arith)
  | inr f ↦ elim (Bool-cases (can_transition from to)) [
    | inl t ↦ inl (ground arith)
    | inr g ↦ inr (ground arith)
  ]
]

module _ (id : ℕ) (to : InstanceState) (opts : TransitionOptions) (w : World) (cur : Instance)
    (works : w.faults ≡ []) (valid : validate to ≡ ok tt)
    (found : row_of id w.db.instances ≡ some cur) where
  pub transition_refused :
      {e : Error}
      → check_transition cur.state to opts.skip_idempotent ≡ err e
      → transition id to opts w ≡ (err e, w)
  unfolding transition
  transition_refused c = ground arith

  pub transition_allowed :
      check_transition cur.state to opts.skip_idempotent ≡ ok tt
      → transition id to opts w ≡ (
        ok (with_state w.now (params_of id to opts) cur),
        record w { db = transitioned id to opts cur w.now w.db },
      )
  unfolding transition
  transition_allowed c = ground (
    arith,
    row_of-update w.now id (params_of id to opts) w.db.instances,
    any-row_of id w.db.instances,
    any-row_of id
        (update_where (has_id id) (with_state w.now (params_of id to opts)) w.db.instances),
    ==_refl id,
  )
