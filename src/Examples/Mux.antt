-- ===== src/Examples/Mux.antt =====
-- An agent that connects again (services/ssh-proxy/internal/muxregistry/registry.go).
use hybrid_cloud_with_claude.Prelude.{ℕ, ◌≡◌, refl, false, arith}
use hybrid_cloud_with_claude.Ssh.Mux.{
  held, Registry, new_registry, register, shut_down, handle_death, open_stream, opened,
  unknown_node, close, Reach, starts, then_step, registers, shuts, dies,
}
use hybrid_cloud_with_claude.Ssh.Sessions.{open_stream-only}

-- Session 1 is replaced by session 2 and is closed, and its health checker finds it dead too late.
abbrev replaced : Registry
replaced =
    handle_death "n1" 1 (shut_down 1 (register "n1" 2 "v1" (register "n1" 1 "v1" new_registry)))

replaced_reached : Reach replaced
unfolding register shut_down
replaced_reached =
    then_step
      (then_step
        (then_step (then_step starts (registers "n1" 1 "v1" refl)) (registers "n1" 2 "v1" refl))
        (shuts 1 refl))
      (dies 1 (λ e. ground arith))

streams_on_two : open_stream "n1" replaced ≡ opened 2
unfolding register shut_down handle_death open_stream
streams_on_two = refl

open_stream-only_example :
    (replaced.life 2 ≡ held)
    × (replaced.node_of 2 ≡ "n1")
    × (replaced.closed ≡ false)
    × ((t : ℕ) → replaced.node_of t ≡ "n1" → replaced.life t ≡ held → t ≡ 2)
open_stream-only_example = open_stream-only replaced "n1" 2 replaced_reached streams_on_two

-- The late death reports the node although its new session lives.
reported_anyway : replaced.degraded "n1" ≡ 1
unfolding register shut_down handle_death
reported_anyway = refl

-- Nothing is registered after the shutdown.
closed_for_good : open_stream "n1" (register "n1" 3 "v1" (close replaced)) ≡ unknown_node
unfolding register close shut_down handle_death open_stream
closed_for_good = refl
