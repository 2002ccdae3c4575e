-- ===== src/Instance/Machine.antt =====
-- The instance state machine: services/main-api/internal/instance/state.go.
use hybrid_cloud_with_claude.Prelude.{
  Bool, true, false, Option, some, none, List, [], ◌∷◌, ◌||◌, any_where, if◌then◌else◌,
}
use hybrid_cloud_with_claude.Schema.{
  InstanceState, pending, provisioning, running, stopping, stopped, failed, unknown, state_eq,
}
use hybrid_cloud_with_claude.Store.{Result, ok, err, unknown_state}

abbrev pub all_states : List InstanceState
all_states = pending ∷ provisioning ∷ running ∷ stopping ∷ stopped ∷ failed ∷ []

-- The map of maps: `none` for a key that is not there.
unfoldable pub allowed_transitions : InstanceState → Option (List InstanceState)
allowed_transitions pending = some (provisioning ∷ failed ∷ stopped ∷ [])
allowed_transitions provisioning = some (running ∷ failed ∷ stopping ∷ [])
allowed_transitions running = some (stopping ∷ failed ∷ [])
allowed_transitions stopping = some (stopped ∷ failed ∷ [])
allowed_transitions stopped = some []
allowed_transitions failed = some []
allowed_transitions (unknown _) = none

unfoldable pub is_terminal : InstanceState → Bool
unfolding state_eq
is_terminal s = state_eq s stopped || state_eq s failed

abbrev allows : Option (List InstanceState) → InstanceState → Bool
allows none to = false
allows (some allowed) to = any_where (λ s. state_eq s to) allowed

unfoldable pub can_transition : InstanceState → InstanceState → Bool
unfolding state_eq allowed_transitions
can_transition from to = if state_eq from to then true else allows (allowed_transitions from) to

unfoldable pub validate : InstanceState → Result (Unit {0})
validate (unknown s) = err unknown_state
validate _ = ok tt
