-- ===== src/Examples/Agents.antt =====
-- The theorems on the agent stream at small tables (services/main-api/internal/grpc).
use hybrid_cloud_with_claude.Prelude.{
  ◌≡◌, refl, false, str_eq, some, none, [], ◌∷◌, count_where, if◌then◌else◌, arith,
}
use mathlib.Core.List.Memᴰ
use hybrid_cloud_with_claude.Schema.{running, stopped, failed}
use hybrid_cloud_with_claude.Store.{ok}
use hybrid_cloud_with_claude.Instance.Machine.{is_terminal, can_transition}
use hybrid_cloud_with_claude.Instance.Queries.{holds}
use hybrid_cloud_with_claude.Instance.Rows.{state_of}
use hybrid_cloud_with_claude.Invariant.{Sound}
use hybrid_cloud_with_claude.Agent.Status.{
  Parsers, InstanceStatus, ReportedState, reported_stopped, reported_failed, heartbeat,
  instance_status, map_instance_state, apply_instance_status,
}
use hybrid_cloud_with_claude.Agent.Session.{Service, Peer, register_message, end_of_file, stream}
use hybrid_cloud_with_claude.Prelude.{All}
use hybrid_cloud_with_claude.Agent.Closed.{Without, stream-closed}
use hybrid_cloud_with_claude.Agent.Served.{stream-Sound}
use hybrid_cloud_with_claude.Prelude.Int.{pos}
use hybrid_cloud_with_claude.Agent.Release.{report_frees}
use hybrid_cloud_with_claude.Agent.Registry.{
  RegistryEntry, new_agent_registry, entry_at, register, cleanup, connected, after, starts, ends,
}
use hybrid_cloud_with_claude.Agent.Streams.{reconnect}
use hybrid_cloud_with_claude.Examples.Data.{busy_db, busy, instance_row}
use hybrid_cloud_with_claude.Examples.Slots.{busy-SlotsValid}
use hybrid_cloud_with_claude.Examples.Instances.{busy-Audited}

pub busy-Sound : Sound busy_db
busy-Sound = record { audited = busy-Audited; slots_valid = busy-SlotsValid }

abbrev parsers : Parsers
parsers = record {
  parse_uuid = λ s. if str_eq s "ten" then some 10 else none;
  parse_addr = λ s. some s;
}

abbrev report : ReportedState → InstanceStatus
report state = record {
  instance_id = "ten";
  state = state;
  error_message = "lost";
  vm_internal_ip = "";
}

abbrev service : Service
service = record { expected_token = "token"; default_zone_id = 3; parsers = parsers }

-- An agent that registers its node with one slot, and reports that a machine has failed.
abbrev agent : Peer
agent = record {
  first = register_message (record {
    node_name = "h100";
    hostname = "h100.local";
    agent_version = "1";
    agent_token = "token";
    agent_tunnel_endpoint = "b";
    topology = some (record {
      text = some "{}";
      profile = some (record {
        hash = "new";
        slots =
            record {
              slot_index = pos 0;
              gpu_count = pos 1;
              gpu_indices = pos 0 ∷ [];
              nvlink_domain = "";
            }
            ∷ [];
      });
    });
  });
  messages = heartbeat ∷ instance_status (report reported_failed) ∷ [];
  last = end_of_file;
  ack_sent = ok tt;
  sent = ok tt;
}

stream-Sound_example :
    Sound (stream service agent (ends 1 0 ∷ []) 6 (register 1 5 "b" new_agent_registry) busy).2.db
stream-Sound_example =
    stream-Sound service agent (ends 1 0 ∷ []) 6 (register 1 5 "b" new_agent_registry) busy
      busy-Sound

-- While the agent is connected, an older stream of its node ends.
stream-closed_example :
    All
      (Without 6)
      (stream service agent (ends 1 0 ∷ []) 6 (register 1 5 "b" new_agent_registry) busy).1.nodes
unfolding register
stream-closed_example =
    stream-closed service agent (ends 1 0 ∷ []) 6 (register 1 5 "b" new_agent_registry) busy
      (λ u. ground arith) ((λ e. ground arith), tt) (tt, tt)

report_frees_example :
    ((apply_instance_status parsers (report reported_failed) busy).0 ≡ ok tt)
    × (state_of 10 (apply_instance_status parsers (report reported_failed) busy).1.db.instances
        ≡ some failed)
    × (count_where
          (holds 10)
          (apply_instance_status parsers (report reported_failed) busy).1.db.slots
        ≡ 0)
unfolding map_instance_state is_terminal can_transition
report_frees_example =
    report_frees parsers (report reported_failed) busy 10 failed instance_row refl refl refl refl
      refl

-- A running instance that is reported stopped, with no report that it is stopping, loses its slots and
-- stays running in its row.
stopped_while_running :
    (state_of 10 (apply_instance_status parsers (report reported_stopped) busy).1.db.instances
      ≡ some running)
    × (count_where
          (holds 10)
          (apply_instance_status parsers (report reported_stopped) busy).1.db.slots
        ≡ 0)
unfolding map_instance_state is_terminal can_transition
stopped_while_running =
    let (done, state, freed) =
      report_frees parsers (report reported_stopped) busy 10 stopped instance_row refl refl refl
        refl refl in
    (state, freed)

abbrev second : RegistryEntry
second = record { node_id = 1; serial = 1; ch = 5; tunnel_endpoint = "b" }

-- The stream of the node's first connection ends after the second has registered.
reconnect_example :
    (entry_at 1 (
        after
          (ends 1 0 ∷ starts 2 6 "c" ∷ [])
          (register 1 5 "b" (register 1 4 "a" new_agent_registry)))
      ≡ some second)
    × (connected 1 (
          cleanup 1 1 (
            after
              (ends 1 0 ∷ starts 2 6 "c" ∷ [])
              (register 1 5 "b" (register 1 4 "a" new_agent_registry))))
        ≡ false)
unfolding register
reconnect_example =
    reconnect 1 5 "b" (ends 1 0 ∷ starts 2 6 "c" ∷ []) (register 1 4 "a" new_agent_registry)
      ((λ e. ground arith), ((λ e. ground arith), tt))
