-- ===== src/Instance/Paths.antt =====
-- The paths through the state machine of services/main-api/internal/instance/state.go.
use hybrid_cloud_with_claude.Prelude.{
  ℕ, suc, ◌+◌, ◌≤◌, ◌<◌, ◌≡◌, refl, ◌≢◌, true, false, ◌⊎◌, inl, inr, str_eq_iff, arith,
}
use hybrid_cloud_with_claude.Schema.{
  InstanceState, pending, provisioning, running, stopping, failed, unknown, state_eq,
}
use hybrid_cloud_with_claude.Store.{ok}
use hybrid_cloud_with_claude.Instance.Machine.{is_terminal, can_transition, validate}

pub state_eq→eq : (s t : InstanceState) → state_eq s t ≡ true → s ≡ t
unfolding state_eq
state_eq→eq (unknown s) (unknown t) h = ground (arith, str_eq_iff s t)
state_eq→eq s t h = ground arith

-- How many steps are left at most.
unfoldable pub rank : InstanceState → ℕ
rank pending = 4
rank provisioning = 3
rank running = 2
rank stopping = 1
rank _ = 0

pub rank-can_transition :
    (s t : InstanceState) → can_transition s t ≡ true → (s ≡ t) ⊎ (rank t < rank s)
unfolding can_transition rank
rank-can_transition (unknown a) (unknown b) h = inl (ground (arith, str_eq_iff a b))
rank-can_transition s t h = ground arith

-- `n` real changes of state, each allowed.
pub data Moves : ℕ → InstanceState → InstanceState → Type 0 where
  here : {s : InstanceState} → Moves 0 s s
  step :
      {n : ℕ} {s t u : InstanceState}
      → Moves n s t
      → can_transition t u ≡ true
      → t ≢ u
      → Moves (suc n) s u

-- The number of changes of state in a history is at most what the rank, which is 4 for pending and 0
-- for a terminal state, falls by from the first state to the last.
pub Moves-bounded : {n : ℕ} {s t : InstanceState} → Moves n s t → n + rank t ≤ rank s
Moves-bounded here = omega arith
Moves-bounded (step {t = t} {u = u} p h ne) = elim (rank-can_transition t u h) [
  | inl e ↦ absurd (ne e)
  | inr lt ↦ omega (arith, Moves-bounded p)
]

rank_of_terminal : (s : InstanceState) → is_terminal s ≡ true → rank s ≡ 0
unfolding is_terminal rank
rank_of_terminal s h = ground arith

-- A history that starts in a terminal state ends in it.
pub terminal_absorbs : {n : ℕ} {s t : InstanceState} → Moves n s t → is_terminal s ≡ true → t ≡ s
terminal_absorbs here h = refl
terminal_absorbs (step {s = s} p c ne) h =
    absurd (omega (arith, Moves-bounded (step p c ne), rank_of_terminal s h))

-- Every state of the enum that is not terminal can be failed at once.
pub can_fail :
    (s : InstanceState)
    → validate s ≡ ok tt
    → is_terminal s ≡ false
    → can_transition s failed ≡ true
unfolding validate is_terminal can_transition
can_fail s v h = ground arith
