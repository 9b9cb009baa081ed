-- ===== src/DeltaReplicator/Server/Running.antt =====
-- The calls that a server gets, and the states that they lead to.
use gfgdextension.Common.{
  ℕ, List, [], ◌∷◌, Option, Bool, if◌then◌else◌, if_holds, is_some, lookup, ℕ_discrete, arith,
}
use gfgdextension.DeltaReplicator.Values.{Engine, Variant, Entries, end}
use gfgdextension.DeltaReplicator.Patches.{Patch, Patches}
use gfgdextension.DeltaReplicator.Server.{
  Settings, Server, Surroundings, read_values, mark_property_dirty, mark_element_dirty,
}
use gfgdextension.DeltaReplicator.Server.Trimming.{IsValid}
use gfgdextension.DeltaReplicator.Server.Sending.{
  flush, physics_process, server_request_full_state, server_ack,
}
use gfgdextension.DeltaReplicator.Server.Keeping.{
  flush-IsValid, physics_process-IsValid, server_request_full_state-IsValid, server_ack-IsValid,
}

-- Each call with what the node finds around it.
pub data Call : Type 0 where
  tick : Surroundings → ℕ → Call
  flushed : Surroundings → Call
  marked : ℕ → Call
  element_marked : ℕ → ℕ → Call
  requested : Surroundings → ℕ → Call
  acked_by : Surroundings → ℕ → Option ℕ → Call

-- `_ready`, where nothing is read without a root node.
unfoldable pub ready : Settings → Surroundings → Server
ready s near = record {
  latest_seq = 0;
  history = (0, if near.has_root then read_values near.current s.properties end else end) ∷ [];
  peers = [];
  time_since_check = 0;
  time_since_validation = 0;
  dirty_properties = [];
  dirty_elements = [];
  comparisons_skipped = 0;
  bytes_sent = 0;
  patches_sent = 0;
  resends = 0;
  reliable_patches = 0;
  sent = [];
}

module _ (engine : Engine) (is_smaller : Patch → Variant → Bool) (patches_bytes : Patches → ℕ)
    (values_bytes : Entries → ℕ) where
  unfoldable pub call : Settings → Call → Server → Server
  call s (tick near delta) r =
      physics_process engine is_smaller patches_bytes values_bytes s near delta r
  call s (flushed near) r = (flush engine is_smaller patches_bytes values_bytes s near r).0
  call s (marked name) r = mark_property_dirty name r
  call s (element_marked name key) r = mark_element_dirty s name key r
  call s (requested near sender) r =
      server_request_full_state engine is_smaller patches_bytes values_bytes s near sender r
  call s (acked_by near sender seq) r = server_ack s near sender seq r

  unfoldable pub run : Settings → List Call → Server → Server
  run s [] r = r
  run s (c ∷ cs) r = run s cs (call s c r)

  ready-IsValid : (s : Settings) (near : Surroundings) → IsValid s (ready s near)
  unfolding ready lookup
  ready-IsValid s near = record {
    numbered = record {
      has_latest = ground arith;
      newest = λ q at. ground (arith, at);
      known = tt;
    };
    within = λ q at. ground (arith, at);
  }

  marked-IsValid :
      (s : Settings) (name : ℕ) (r : Server) → IsValid s r → IsValid s (mark_property_dirty name r)
  unfolding mark_property_dirty
  marked-IsValid s name r h = record {
    numbered = record {
      has_latest = h.numbered.has_latest;
      newest = h.numbered.newest;
      known = h.numbered.known;
    };
    within = h.within;
  }

  call-IsValid : (s : Settings) (c : Call) (r : Server) → IsValid s r → IsValid s (call s c r)
  unfolding call mark_element_dirty
  call-IsValid s (tick near delta) r h =
      physics_process-IsValid engine is_smaller patches_bytes values_bytes s near delta r h
  call-IsValid s (flushed near) r h =
      flush-IsValid engine is_smaller patches_bytes values_bytes s near r h
  call-IsValid s (marked name) r h = marked-IsValid s name r h
  call-IsValid s (element_marked name key) r h =
      if_holds (IsValid s) (is_some (lookup ℕ_discrete name s.keyed_arrays)) _ _
        (λ is_keyed. record {
          numbered = record {
            has_latest = h.numbered.has_latest;
            newest = h.numbered.newest;
            known = h.numbered.known;
          };
          within = h.within;
        })
        (λ other. marked-IsValid s name r h)
  call-IsValid s (requested near sender) r h =
      server_request_full_state-IsValid engine is_smaller patches_bytes values_bytes s near sender r
        h
  call-IsValid s (acked_by near sender seq) r h = server_ack-IsValid s near sender seq r h

  run_from-IsValid :
      (s : Settings) (cs : List Call) (r : Server) → IsValid s r → IsValid s (run s cs r)
  unfolding run
  run_from-IsValid s [] r h = h
  run_from-IsValid s (c ∷ cs) r h = run_from-IsValid s cs (call s c r) (call-IsValid s c r h)

  -- After any calls since `_ready`, the newest state and each state that a peer confirmed are in the history,
  -- which has no larger number, and no state more than `max_history` behind the newest.
  pub run-IsValid :
      (s : Settings) (near : Surroundings) (cs : List Call) → IsValid s (run s cs (ready s near))
  run-IsValid s near cs = run_from-IsValid s cs (ready s near) (ready-IsValid s near)
