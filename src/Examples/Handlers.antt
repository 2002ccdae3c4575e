-- ===== src/Examples/Handlers.antt =====
-- The theorems on the handlers at small tables (services/main-api/internal/api/admin_instances.go).
use hybrid_cloud_with_claude.Prelude.{
  List, ℕ, false, arith, refl, ◌≡◌, true, ◌||◌, String, str_eq, some, none, [], ◌∷◌, any_where,
  if◌then◌else◌,
}
use hybrid_cloud_with_claude.Prelude.Int.{ℤ, pos}
use hybrid_cloud_with_claude.Store.{ok, err, not_connected}
use hybrid_cloud_with_claude.Invariant.{Sound}
use hybrid_cloud_with_claude.Api.View.{
  refused, CreateInstanceRequest, Codec, Dispatcher, Gpu, merge_ssh_pubkeys,
}
use hybrid_cloud_with_claude.Api.Create.{run_create, OwnerHooks, create_for_owner}
use hybrid_cloud_with_claude.Api.Soundness.{create_for_owner-Sound}
use hybrid_cloud_with_claude.Api.Keys.{NoDuplicates, merge_ssh_pubkeys-union}
use hybrid_cloud_with_claude.Auth.RateLimit.{new_rate_limiter, answers}
use hybrid_cloud_with_claude.Auth.Window.{Ascending, window_answers, allow_refines}
use hybrid_cloud_with_claude.Slot.Queries.{is_candidate, reserve_order}
use hybrid_cloud_with_claude.Api.Refused.{Refers, run_create-refused}
use hybrid_cloud_with_claude.Api.Owner.{get_own, delete_own}
use hybrid_cloud_with_claude.Api.Hidden.{without, foreign_hidden}
use hybrid_cloud_with_claude.Examples.Data.{instance_row, busy_db, node_row, busy, failing}
use hybrid_cloud_with_claude.Examples.Slots.{busy-SlotsValid, any_order}
use hybrid_cloud_with_claude.Examples.Agents.{busy-Sound}

abbrev request : CreateInstanceRequest
request = record {
  node_id = "one";
  name = "vm2";
  memory_mb = pos 512;
  vcpus = pos 1;
  gpu_count = pos 1;
  ssh_pubkeys = "a" ∷ [];
  image_ref = "ubuntu";
}

abbrev gpu : ℤ → Gpu
gpu index = record {
  index = index;
  pci_address = "01:00.0";
  companion_pci_addresses = "01:00.1" ∷ [];
}

abbrev codec : Codec
codec = record {
  decode_request = λ s. some request;
  parse_uuid = λ s. if str_eq s "one" then some 1 else none;
  parse_topology = λ s. some (gpu (pos 101) ∷ gpu (pos 102) ∷ []);
  error_text = λ e. "failed";
}

-- The agent is connected and its buffer is full.
abbrev stuck : Dispatcher
stuck = record { connected = λ n. true; send = λ n msg. err not_connected }

abbrev hooks : OwnerHooks
hooks = record { is_user_in_team = λ u t. ok true; extra_ssh_keys = λ u. "b" ∷ [] }

create_for_owner-Sound_example :
    Sound (create_for_owner codec stuck any_order hooks 7 (some "{}") failing).1.db
create_for_owner-Sound_example =
    create_for_owner-Sound codec stuck any_order hooks 7 (some "{}") failing busy-Sound

merge_ssh_pubkeys-union_example :
    NoDuplicates (merge_ssh_pubkeys ("a" ∷ "a" ∷ []) ("b" ∷ "a" ∷ []))
    × ((k : String)
        → any_where (str_eq k) (merge_ssh_pubkeys ("a" ∷ "a" ∷ []) ("b" ∷ "a" ∷ []))
          ≡ (any_where (str_eq k) ("a" ∷ "a" ∷ []) || any_where (str_eq k) ("b" ∷ "a" ∷ [])))
merge_ssh_pubkeys-union_example = merge_ssh_pubkeys-union ("a" ∷ "a" ∷ []) ("b" ∷ "a" ∷ [])

-- A limit of two in a window of sixty: the third call is refused, the fourth comes after the window.
abbrev calls : List (String × ℕ)
calls = ("a", 100) ∷ ("a", 101) ∷ ("a", 102) ∷ ("b", 102) ∷ ("a", 161) ∷ []

calls-Ascending : Ascending 0 calls
calls-Ascending = (omega arith, (omega arith, (omega arith, (omega arith, (omega arith, tt)))))

calls_answered : answers (new_rate_limiter 2 60) calls ≡ true ∷ true ∷ false ∷ true ∷ true ∷ []
unfolding answers
calls_answered = refl

allow_refines_example : answers (new_rate_limiter 2 60) calls ≡ window_answers 2 60 (λ k. []) calls
allow_refines_example = allow_refines 2 60 calls calls-Ascending

busy-Refers : Refers busy_db
busy-Refers id missing = ground arith

not_dispatched :
    (run_create codec stuck any_order request node_row (some 7) busy).0
    ≡ ok (refused 502 "dispatch_failed")
unfolding run_create is_candidate reserve_order
not_dispatched = refl

run_create-refused_example :
    (run_create codec stuck any_order request node_row (some 7) busy).1.db.slots ≡ busy_db.slots
run_create-refused_example =
    run_create-refused codec stuck any_order request node_row (some 7) busy 502 "dispatch_failed"
      refl busy-SlotsValid busy-Refers refl not_dispatched

abbrev by_ten : Codec
by_ten = record codec { parse_uuid = λ s. some 10 }

-- Instance 10 belongs to user 7.
foreign_hidden_example :
    ((get_own by_ten stuck 8 "ten" busy).0 ≡ (get_own by_ten stuck 8 "ten" (without 10 busy)).0)
    × ((delete_own by_ten stuck 8 "ten" busy).0
        ≡ (delete_own by_ten stuck 8 "ten" (without 10 busy)).0)
    × ((get_own by_ten stuck 8 "ten" busy).1.db ≡ busy_db)
    × ((delete_own by_ten stuck 8 "ten" busy).1.db ≡ busy_db)
foreign_hidden_example = foreign_hidden by_ten stuck 8 "ten" 10 instance_row busy refl refl refl
