-- ===== src/Billing/Worker.antt =====
-- The billing tick: services/main-api/internal/billing/worker.go.
use hybrid_cloud_with_claude.Prelude.{
  ℕ, ◌/◌, Bool, not, ◌&&◌, String, Option, some, none, List, [], ◌∷◌, ◌++◌, if◌then◌else◌,
}
use hybrid_cloud_with_claude.Prelude.Int.{pos, neg, eq_ℤ}
use hybrid_cloud_with_claude.Schema.{InstanceState, running, provisioning, state_eq, Instance}
use hybrid_cloud_with_claude.Store.{
  World, Result, ok, err, Q, ◌>>=◌, ◌>>◌, pure, attempt, statement, clock,
}
use hybrid_cloud_with_claude.Credit.Queries.{list_billable_running_instances}
use hybrid_cloud_with_claude.Credit.Repo.{PostInput, post, users_with_negative_balance}
use hybrid_cloud_with_claude.Instance.Queries.{list_instances}
use hybrid_cloud_with_claude.Billing.Rates.{RateTable, milli_per_minute}

-- `fmt.Sprintf("billing:%s:%d", row.ID, bucket)`
abbrev pub BillingKey : Type 0
BillingKey = ℕ → ℕ → String

module _ (billing_key : BillingKey) (rates : Option RateTable) where
  abbrev pub charge_input : ℕ → ℕ → Instance → PostInput
  charge_input owner bucket row = record {
    user_id = owner;
    delta_milli = neg (milli_per_minute rates row.gpu_count);
    reason = "running_minute";
    instance_id = some row.id;
    idempotency_key = billing_key row.id bucket;
    metadata = "";
  }

  -- One round of the loop: a failed post is logged, and the loop goes on.
  abbrev pub charge_owned : Option ℕ → ℕ → Instance → Q (Unit {0})
  charge_owned none bucket row = pure tt
  charge_owned (some owner) bucket row =
      if eq_ℤ (milli_per_minute rates row.gpu_count) (pos 0)
      then pure tt
      else attempt (post (charge_input owner bucket row)) (λ _. pure tt)

  unfoldable pub charge_rows : ℕ → List Instance → Q (Unit {0})
  charge_rows bucket [] = pure tt
  charge_rows bucket (row ∷ rest) = charge_owned row.owner_id bucket row >> charge_rows bucket rest

  unfoldable pub charge : Q (Unit {0})
  unfolding charge_rows list_billable_running_instances statement clock
  charge = do
    rows ← statement list_billable_running_instances
    now ← clock
    charge_rows (now / 60) rows

-- A DestroyInstance message handed to the dispatcher: the node and the instance. Whether the
-- dispatcher delivers it is only logged.
pub record Destroy : Type 0 where
  pub node_id : ℕ
  pub instance_id : ℕ

unfoldable pub is_sweepable : InstanceState → Bool
unfolding state_eq
is_sweepable s = not (not (state_eq s running) && not (state_eq s provisioning))

unfoldable pub destroy_all : List Instance → List Destroy
destroy_all [] = []
destroy_all (i ∷ rest) =
    let later = destroy_all rest in
    if is_sweepable i.state
    then record { node_id = i.node_id; instance_id = i.id } ∷ later
    else later

abbrev pub sweep_listed : Result (List Instance) → List Destroy
sweep_listed (err e) = []
sweep_listed (ok rows) = destroy_all rows

unfoldable pub sweep_users : List ℕ → Q (List Destroy)
unfolding destroy_all list_instances statement
sweep_users [] = pure []
sweep_users (u ∷ rest) =
    attempt (statement (list_instances (some u)))
      λ r. sweep_users rest >>= λ later. pure (sweep_listed r ++ later)

unfoldable pub sweep_bankrupt : Bool → Q (List Destroy)
unfolding sweep_users users_with_negative_balance
sweep_bankrupt has_dispatcher =
    if not has_dispatcher
    then pure []
    else (do users ← users_with_negative_balance; sweep_users users)

-- One tick: a failed charge keeps the sweep from running.
unfoldable pub run_once : BillingKey → Option RateTable → Bool → Q (List Destroy)
unfolding charge sweep_bankrupt
run_once billing_key rates has_dispatcher = do
  charge billing_key rates
  sweep_bankrupt has_dispatcher

-- The loop of Run, with a tick at each of the given times; a tick's error is only logged.
unfoldable pub run : BillingKey → Option RateTable → Bool → List ℕ → World → World
unfolding run_once
run billing_key rates has_dispatcher [] w = w
run billing_key rates has_dispatcher (t ∷ times) w =
    run billing_key rates has_dispatcher times
      (run_once billing_key rates has_dispatcher (record w { now = t })).1
