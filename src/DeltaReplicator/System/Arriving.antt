-- ===== src/DeltaReplicator/System/Arriving.antt =====
-- The log describes the server after any calls.
use gfgdextension.Common.{
  ℕ, ◌+◌, ◌≡◌, refl, List, [], ◌∷◌, Option, none, some, Bool, true, false, not, ◌&&◌, if◌then◌else◌,
  if_holds, ◌==◌, ltb, leb, is_some, lookup, insert, ℕ_discrete, arith,
}
use gfgdextension.DeltaReplicator.Values.{Engine, Variant, Entries, Schema, Conforms}
use gfgdextension.DeltaReplicator.Patches.{Patch, Patches, same_keys}
use gfgdextension.DeltaReplicator.Server.{
  PeerState, new_peer, Settings, Server, Surroundings, read_values, mark_property_dirty,
  mark_element_dirty,
}
use gfgdextension.DeltaReplicator.Server.Recording.{record_state, last_state}
use gfgdextension.DeltaReplicator.Server.Sending.{
  patches_between, is_in_audience, send_to_peer, flush, waited, is_validation_due, physics_process,
  server_request_full_state, is_after, ack_from, server_ack,
}
use gfgdextension.DeltaReplicator.Server.Sends.{Sent-fields, send_to_peer-Sent}
use gfgdextension.DeltaReplicator.Server.Running.{
  Call, tick, flushed, marked, element_marked, requested, acked_by, ready, call, run,
}
use gfgdextension.DeltaReplicator.Server.Logging.{Fits, extend, trim_history-Fits}
use gfgdextension.DeltaReplicator.Server.Speaking.{said_nothing, send_to_peer-Fits, send_all-Fits}
use gfgdextension.DeltaReplicator.Server.Completing.{read_values-IsComplete}
use gfgdextension.DeltaReplicator.Client.Agreement.{IsComplete}
use gfgdextension.DeltaReplicator.System.Telling.{
  FormedCall, AllFormed, IsTold, settle-IsTold, record_state-IsTold, recorded_and_sent,
}

physics_validated :
    (σ : Schema) (between : Entries → Entries → Patches) (s : Settings) (log : ℕ → Entries)
    (delta : ℕ) (r : Server)
    → IsTold σ between s log r
    → IsTold σ between s log (is_validation_due s delta r).0
unfolding is_validation_due
physics_validated σ between s log delta r h =
    let passed : ℕ =
      r.time_since_validation + (if ltb 0 s.check_interval then s.check_interval else delta) in
    let after : (t : ℕ) → IsTold σ between s log (record r { time_since_validation = t }) = λ t.
      record {
        fits =
            said_nothing between log r (record r { time_since_validation = t }) refl refl refl
              h.fits;
        complete = h.complete;
      } in
    if_holds (λ (x : Server × Bool). IsTold σ between s log x.0)
      (ltb 0 s.push_validation_interval && not (same_keys s.push_properties [])) _ _
      (λ watched.
        if_holds (λ (x : Server × Bool). IsTold σ between s log x.0)
          (leb s.push_validation_interval passed) _ _ (λ due. after 0) (λ early. after passed))
      (λ other. h)

-- Nothing was recorded.
unrecorded :
    (σ : Schema) (between : Entries → Entries → Patches) (s : Settings) (log : ℕ → Entries)
    (r : Server)
    → Fits between log r
    → ((q : ℕ) → IsComplete σ s (log q))
    → IsTold σ between s (extend r log) r
unrecorded σ between s log r fits whole =
    settle-IsTold σ between s log log r fits whole (λ q ne. refl)

ack_from-Fits :
    (between : Entries → Entries → Patches) (s : Settings) (near : Surroundings) (log : ℕ → Entries)
    (sender seq : ℕ) (r : Server) (found : Option PeerState)
    → Fits between log r
    → Fits between log (ack_from s near sender seq r found)
unfolding ack_from
ack_from-Fits between s near log sender seq r none h = h
ack_from-Fits between s near log sender seq r (some st) h =
    let fits : Bool =
      is_after seq st.acked && leb seq r.latest_seq && is_some (lookup ℕ_discrete seq r.history) in
    let r1 : Server = record r {
      peers = insert ℕ_discrete sender (record st { acked = some seq }) r.peers;
    } in
    if_holds (Fits between log) (near.is_networked_server && fits) _ _
      (λ heard. trim_history-Fits between log s r1 (said_nothing between log r r1 refl refl refl h))
      (λ other. h)

module _ (engine : Engine) (is_smaller : Patch → Variant → Bool) (patches_bytes : Patches → ℕ)
    (values_bytes : Entries → ℕ) where
  -- The states that the server had, by their numbers, while calls arrive.
  unfoldable pub log_of : Settings → List Call → Server → (ℕ → Entries) → ℕ → Entries
  log_of s [] r log = log
  log_of s (c ∷ cs) r log =
      let r' = call engine is_smaller patches_bytes values_bytes s c r in
      log_of s cs r' (extend r' log)

module _ (σ : Schema) (engine : Engine) (is_smaller : Patch → Variant → Bool)
    (patches_bytes : Patches → ℕ) (values_bytes : Entries → ℕ) where
  physics-IsTold :
      (s : Settings) (near : Surroundings) (log : ℕ → Entries) (delta : ℕ) (r : Server)
      → ((name : ℕ) → Conforms σ (σ.property_kind name) (near.current name))
      → IsTold σ (patches_between engine is_smaller s) s log r
      → let r' = physics_process engine is_smaller patches_bytes values_bytes s near delta r in
        IsTold σ (patches_between engine is_smaller s) s (extend r' log) r'
  unfolding physics_process
  physics-IsTold s near log delta r formed h =
      let between = patches_between engine is_smaller s in
      let passed = r.time_since_check + delta in
      let r1 : Server = record r { peers = waited delta r.peers; time_since_check = passed } in
      let r2 : Server = record r1 { time_since_check = 0 } in
      let told2 : IsTold σ between s log r2 = record {
        fits = said_nothing between log r r2 refl refl refl h.fits;
        complete = h.complete;
      } in
      let due : Server × Bool = is_validation_due s delta r2 in
      if_holds (λ (x : Server). IsTold σ between s (extend x log) x) near.is_networked_server _ _
        (λ is_server.
          if_holds (λ (x : Server). IsTold σ between s (extend x log) x)
            (leb s.check_interval passed) _ _
            (λ checked.
              recorded_and_sent σ engine is_smaller patches_bytes values_bytes s near log due.1
                due.0 formed (physics_validated σ between s log delta r2 told2))
            (λ early.
              unrecorded σ between s log _
                (send_all-Fits engine is_smaller patches_bytes values_bytes s near log false r1
                  (said_nothing between log r r1 refl refl refl h.fits))
                h.complete))
        (λ other. unrecorded σ between s log r h.fits h.complete)

  request-IsTold :
      (s : Settings) (near : Surroundings) (log : ℕ → Entries) (sender : ℕ) (r : Server)
      → ((name : ℕ) → Conforms σ (σ.property_kind name) (near.current name))
      → IsTold σ (patches_between engine is_smaller s) s log r
      → let r' =
          server_request_full_state engine is_smaller patches_bytes values_bytes s near sender r in
        IsTold σ (patches_between engine is_smaller s) s (extend r' log) r'
  unfolding server_request_full_state extend
  request-IsTold s near log sender r formed h =
      let between = patches_between engine is_smaller s in
      let r1 : Server = (record_state engine s near false r).0 in
      let told =
        record_state-IsTold σ engine is_smaller patches_bytes values_bytes s near log false r formed
          h in
      let sent : Server × PeerState =
        send_to_peer engine is_smaller patches_bytes values_bytes s near sender true new_peer r1 in
      let latest =
        (Sent-fields r1 new_peer sent.0 sent.1 (
          send_to_peer-Sent engine is_smaller patches_bytes values_bytes s near sender true new_peer
            r1)).0 in
      let r' : Server = record sent.0 { peers = insert ℕ_discrete sender sent.1 sent.0.peers } in
      if_holds (λ (x : Server). IsTold σ between s (extend x log) x)
        (near.is_networked_server && ltb 0 sender && is_in_audience s near sender) _ _
        (λ heard.
          settle-IsTold σ between s log (extend r1 log) r'
            (said_nothing between (extend r1 log) sent.0 r' refl refl refl (
              send_to_peer-Fits engine is_smaller patches_bytes values_bytes s near (extend r1 log)
                sender true new_peer r1 told.fits))
            told.complete
            (λ q ne.
              let elsewhere : (q == r1.latest_seq) ≡ false = rw (← latest) ne in rw elsewhere refl))
        (λ other. unrecorded σ between s log r h.fits h.complete)

  marked-IsTold :
      (s : Settings) (log : ℕ → Entries) (name : ℕ) (r : Server)
      → IsTold σ (patches_between engine is_smaller s) s log r
      → let r' = mark_property_dirty name r in
        IsTold σ (patches_between engine is_smaller s) s (extend r' log) r'
  unfolding mark_property_dirty
  marked-IsTold s log name r h =
      let between = patches_between engine is_smaller s in
      unrecorded σ between s log (mark_property_dirty name r)
        (said_nothing between log r (mark_property_dirty name r) refl refl refl h.fits) h.complete

  call-IsTold :
      (s : Settings) (log : ℕ → Entries) (c : Call) (r : Server)
      → FormedCall σ c
      → IsTold σ (patches_between engine is_smaller s) s log r
      → let r' = call engine is_smaller patches_bytes values_bytes s c r in
        IsTold σ (patches_between engine is_smaller s) s (extend r' log) r'
  unfolding call flush server_ack mark_element_dirty
  call-IsTold s log (tick near delta) r formed h = physics-IsTold s near log delta r formed h
  call-IsTold s log (flushed near) r formed h =
      let between = patches_between engine is_smaller s in
      if_holds (λ (x : Server × Bool). IsTold σ between s (extend x.0 log) x.0)
        near.is_networked_server _ _
        (λ is_server.
          recorded_and_sent σ engine is_smaller patches_bytes values_bytes s near log false r formed
            h)
        (λ other. unrecorded σ between s log r h.fits h.complete)
  call-IsTold s log (marked name) r formed h = marked-IsTold s log name r h
  call-IsTold s log (element_marked name key) r formed h =
      let between = patches_between engine is_smaller s in
      if_holds (λ (x : Server). IsTold σ between s (extend x log) x)
        (is_some (lookup ℕ_discrete name s.keyed_arrays)) _ _
        (λ is_keyed.
          unrecorded σ between s log _ (said_nothing between log r _ refl refl refl h.fits)
            h.complete)
        (λ other. marked-IsTold s log name r h)
  call-IsTold s log (requested near sender) r formed h = request-IsTold s near log sender r formed h
  call-IsTold s log (acked_by near sender none) r formed h =
      unrecorded σ (patches_between engine is_smaller s) s log r h.fits h.complete
  call-IsTold s log (acked_by near sender (some seq)) r formed h =
      let between = patches_between engine is_smaller s in
      unrecorded σ between s log _
        (ack_from-Fits between s near log sender seq r (lookup ℕ_discrete sender r.peers) h.fits)
        h.complete

  pub run-IsTold :
      (s : Settings) (cs : List Call) (r : Server) (log : ℕ → Entries)
      → AllFormed σ cs
      → IsTold σ (patches_between engine is_smaller s) s log r
      → IsTold σ
          (patches_between engine is_smaller s)
          s
          (log_of engine is_smaller patches_bytes values_bytes s cs r log)
          (run engine is_smaller patches_bytes values_bytes s cs r)
  unfolding log_of run
  run-IsTold s [] r log formed h = h
  run-IsTold s (c ∷ cs) r log formed h =
      let r' : Server = call engine is_smaller patches_bytes values_bytes s c r in
      run-IsTold s cs r' (extend r' log) formed.1 (call-IsTold s log c r formed.0 h)

  pub ready-IsTold :
      (s : Settings) (near : Surroundings)
      → near.has_root ≡ true
      → ((name : ℕ) → Conforms σ (σ.property_kind name) (near.current name))
      → IsTold σ
          (patches_between engine is_smaller s)
          s
          (λ q. last_state (ready s near))
          (ready s near)
  unfolding ready lookup ℕ_discrete read_values
  ready-IsTold s near root formed =
      let whole : IsComplete σ s (last_state (ready s near)) =
        rw root (read_values-IsComplete σ s near.current formed) in
      record {
        fits = record {
          has_newest = ground arith;
          no_later = λ q at. ground (arith, at);
          logged = λ q es at. ground (arith, at);
          all_sent = tt;
        };
        complete = λ q. whole;
      }
