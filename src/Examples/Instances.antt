-- ===== src/Examples/Instances.antt =====
-- The theorems on instances at small tables (services/main-api/internal/instance).
use hybrid_cloud_with_claude.Prelude.{◌+◌, ◌≤◌, ◌≡◌, refl, true, some, [], arith}
use hybrid_cloud_with_claude.Prelude.Int.{pos}
use hybrid_cloud_with_claude.Schema.{
  pending, provisioning, running, stopping, stopped, failed, state_eq,
}
use hybrid_cloud_with_claude.Instance.Machine.{can_transition, validate, is_terminal}
use hybrid_cloud_with_claude.Instance.Queries.{CreateInput}
use hybrid_cloud_with_claude.Instance.Repo.{because, transition, delete}
use hybrid_cloud_with_claude.Instance.Paths.{Moves, here, step, rank, Moves-bounded, can_fail}
use hybrid_cloud_with_claude.Instance.Audit.{Audited, replay, transition-Audited, delete-Audited}
use hybrid_cloud_with_claude.Examples.Data.{busy_db, busy}

-- The three events of the running instance tell its state.
pub busy-Audited : Audited busy_db
unfolding replay state_eq can_transition
busy-Audited id = ground arith

abbrev input : CreateInput
input = record {
  owner_id = some 7;
  node_id = 1;
  name = "second";
  memory_mib = pos 512;
  vcpus = pos 1;
  gpu_count = pos 0;
  slot_indices = [];
  ssh_pubkeys = [];
  image_ref = "ubuntu";
}

transition-Audited_example : Audited (transition 10 stopping (because "admin_delete") busy).1.db
transition-Audited_example =
    transition-Audited 10 stopping (because "admin_delete") busy busy-Audited

delete-Audited_example : Audited (delete 10 busy).1.db
delete-Audited_example = delete-Audited 10 busy busy-Audited

lived : Moves 4 pending stopped
unfolding can_transition
lived =
    step {t = stopping} {u = stopped}
      (step {t = running} {u = stopping}
        (step {t = provisioning} {u = running}
          (step {t = pending} {u = provisioning} here refl (λ e. cc)) refl (λ e. cc))
        refl (λ e. cc))
      refl (λ e. cc)

Moves-bounded_example : 4 + rank stopped ≤ rank pending
Moves-bounded_example = Moves-bounded lived

can_fail_example : can_transition stopping failed ≡ true
unfolding validate is_terminal
can_fail_example = can_fail stopping refl refl
