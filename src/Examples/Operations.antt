-- ===== src/Examples/Operations.antt =====
-- A destroy that finds a create at work (services/compute-agent/internal/vm/handler.go).
use hybrid_cloud_with_claude.Prelude.{ℕ, ◌≡◌, ◌⊎◌, refl, true, none}
use hybrid_cloud_with_claude.Compute.Ops.{
  op_create, op_destroy, waiting, working, Ops, spawn, ask, release, spawns, asks, start, Reach,
  starts, then_step,
}
use hybrid_cloud_with_claude.Compute.Exclusive.{Reach-exclusive, Reach-awaited}

-- Goroutine 0 creates the instance, and goroutine 1 is to destroy it.
abbrev busy_ops : Ops
busy_ops = ask 1 (spawn 1 "1" op_destroy (ask 0 (spawn 0 "1" op_create start)))

create_works : (busy_ops.ops 0).pc ≡ working 0
unfolding ask spawn
create_works = refl

destroy_waits : (busy_ops.ops 1).pc ≡ waiting 0
unfolding ask spawn
destroy_waits = refl

busy_reached : Reach busy_ops
unfolding ask spawn
busy_reached =
    then_step
      (then_step (then_step (then_step starts (spawns 0 "1" op_create refl)) (asks 0 refl))
        (spawns 1 "1" op_destroy refl))
      (asks 1 refl)

Reach-exclusive_example : ◌≡◌ {A = ℕ} 0 0
Reach-exclusive_example =
    Reach-exclusive busy_ops 0 0 0 0 busy_reached create_works create_works refl

destroy_awaits : (busy_ops.closed 0 ≡ true) ⊎ ((m : ℕ) × ((busy_ops.ops m).pc ≡ working 0))
destroy_awaits = Reach-awaited busy_ops 1 0 busy_reached destroy_waits

-- Once the create has released its slot, the destroy can claim the instance.
freed : (release 0 0 busy_ops).in_flight "1" ≡ none
unfolding release ask spawn
freed = refl
