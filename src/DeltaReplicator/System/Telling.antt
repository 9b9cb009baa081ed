-- ===== src/DeltaReplicator/System/Telling.antt =====
-- A log of the server's states, kept beside the server while calls arrive.
use gfgdextension.Common.{
  ℕ, suc, ◌+◌, ◌≡◌, refl, ◌∙◌, List, [], ◌∷◌, some, Bool, true, false, if_holds, ◌==◌, lookup,
  insert, lookup-insert, ℕ_discrete, subst, arith,
}
use gfgdextension.DeltaReplicator.Values.{Engine, Variant, Entries, Schema, Conforms}
use gfgdextension.DeltaReplicator.Patches.{Patch, Patches}
use gfgdextension.DeltaReplicator.Server.{PeerState, Settings, Server, Surroundings, trim_history}
use gfgdextension.DeltaReplicator.Server.Recording.{
  record_state, recorded, record_each, last_state, count_skipped,
}
use gfgdextension.DeltaReplicator.Server.Sending.{
  patches_between, visit_peer, send_each, any_gone, send_all,
}
use gfgdextension.DeltaReplicator.Server.Sends.{Sent-fields, visit_peer-Sent}
use gfgdextension.DeltaReplicator.Server.Running.{
  Call, tick, flushed, marked, element_marked, requested, acked_by,
}
use gfgdextension.DeltaReplicator.Server.Logging.{
  Fits, extend, last_state-Fits, extend-same, settle, latest-trim_history,
}
use gfgdextension.DeltaReplicator.Server.Speaking.{said_nothing, send_all-Fits, record_state-Fits}
use gfgdextension.DeltaReplicator.Server.Completing.{record_each-IsComplete}
use gfgdextension.DeltaReplicator.Client.Agreement.{IsComplete}

-- The values that the server's node has are of the kinds of their properties.
abbrev pub FormedCall : Schema → Call → Type 0
FormedCall σ (tick near delta) = (name : ℕ) → Conforms σ (σ.property_kind name) (near.current name)
FormedCall σ (flushed near) = (name : ℕ) → Conforms σ (σ.property_kind name) (near.current name)
FormedCall σ (marked name) = Unit
FormedCall σ (element_marked name key) = Unit
FormedCall σ (requested near sender) =
    (name : ℕ) → Conforms σ (σ.property_kind name) (near.current name)
FormedCall σ (acked_by near sender seq) = Unit

abbrev pub AllFormed : Schema → List Call → Type 0
AllFormed σ [] = Unit
AllFormed σ (c ∷ cs) = FormedCall σ c × AllFormed σ cs

-- The log describes the server, and its states are complete.
pub record IsTold (σ : Schema) (between : Entries → Entries → Patches) (s : Settings)
    (log : ℕ → Entries) (r : Server) : Type 0 where
  pub fits : Fits between log r
  pub complete : (q : ℕ) → IsComplete σ s (log q)

pub settle-IsTold :
    (σ : Schema) (between : Entries → Entries → Patches) (s : Settings) (log log' : ℕ → Entries)
    (r : Server)
    → Fits between log' r
    → ((q : ℕ) → IsComplete σ s (log' q))
    → ((q : ℕ) → (q == r.latest_seq) ≡ false → log' q ≡ log q)
    → IsTold σ between s (extend r log) r
settle-IsTold σ between s log log' r h whole elsewhere = record {
  fits = settle between log log' r h elsewhere;
  complete = λ q. subst (IsComplete σ s) (extend-same between log log' r h elsewhere q) (whole q);
}

pub last-recorded :
    (σ : Schema) (between : Entries → Entries → Patches) (s : Settings) (log : ℕ → Entries)
    (r : Server) (found : Entries × Bool)
    → IsTold σ between s log r
    → IsComplete σ s found.0
    → IsComplete σ s (last_state (recorded s r found).0)
unfolding recorded trim_history
last-recorded σ between s log r (next, false) h here =
    rw (last_state-Fits between log r h.fits) (h.complete r.latest_seq)
last-recorded σ between s log r (next, true) h here =
    let n = suc r.latest_seq in
    let r1 : Server = record r { latest_seq = n; history = insert ℕ_discrete n next r.history } in
    let newest : lookup ℕ_discrete n r1.history ≡ some next =
      rw (lookup-insert ℕ_discrete n n next r.history) (ground arith) in
    let kept : lookup ℕ_discrete n (trim_history s r1).history ≡ some next =
      latest-trim_history s r1 ∙ newest in
    rw kept here

module _ (σ : Schema) (engine : Engine) (is_smaller : Patch → Variant → Bool)
    (patches_bytes : Patches → ℕ) (values_bytes : Entries → ℕ) where
  latest-send_each :
      (s : Settings) (near : Surroundings) (force : Bool) (peers : List (ℕ × PeerState))
      (r : Server)
      → (send_each engine is_smaller patches_bytes values_bytes s near force peers r).0.latest_seq
        ≡ r.latest_seq
  unfolding send_each
  latest-send_each s near force [] r = refl
  latest-send_each s near force ((peer, st) ∷ peers) r =
      let told =
        visit_peer-Sent engine is_smaller patches_bytes values_bytes s near force peer st r in
      let visited : Server × PeerState =
        visit_peer engine is_smaller patches_bytes values_bytes s near force peer st r in
      latest-send_each s near force peers visited.0 ∙ (Sent-fields r st visited.0 visited.1 told).0

  latest-send_all :
      (s : Settings) (near : Surroundings) (force : Bool) (r : Server)
      → (send_all engine is_smaller patches_bytes values_bytes s near force r).latest_seq
        ≡ r.latest_seq
  unfolding send_all trim_history
  latest-send_all s near force r =
      if_holds (λ (x : Server). x.latest_seq ≡ r.latest_seq) (any_gone near r.peers) _ _
        (λ gone. latest-send_each s near force r.peers r)
        (λ all. latest-send_each s near force r.peers r)

  pub record_state-IsTold :
      (s : Settings) (near : Surroundings) (log : ℕ → Entries) (validate : Bool) (r : Server)
      → ((name : ℕ) → Conforms σ (σ.property_kind name) (near.current name))
      → IsTold σ (patches_between engine is_smaller s) s log r
      → let r' = (record_state engine s near validate r).0 in
        IsTold σ (patches_between engine is_smaller s) s (extend r' log) r'
  unfolding record_state extend
  record_state-IsTold s near log validate r formed h =
      let between = patches_between engine is_smaller s in
      let r' : Server = (record_state engine s near validate r).0 in
      let last_whole : IsComplete σ s (last_state r) =
        rw (last_state-Fits between log r h.fits) (h.complete r.latest_seq) in
      let r1 : Server = (record r {
        dirty_properties = [];
        dirty_elements = [];
        comparisons_skipped = r.comparisons_skipped + count_skipped s r validate s.properties;
      }) in
      let told : IsTold σ between s log r1 = record {
        fits = said_nothing between log r r1 refl refl refl h.fits;
        complete = h.complete;
      } in
      let whole : IsComplete σ s (last_state r') =
        if_holds (λ (x : Server × Bool). IsComplete σ s (last_state x.0)) near.has_root _ _
          (λ root.
            let found =
              record_each engine s r validate near.current (last_state r) s.properties
                (last_state r) false in
            last-recorded σ between s log r1 found told (
              record_each-IsComplete σ engine s r validate near.current (last_state r) s.properties
                (last_state r) false formed (λ name inside. inside) last_whole last_whole))
          (λ other. last_whole) in
      record {
        fits =
            record_state-Fits engine is_smaller patches_bytes values_bytes s near log validate r
              h.fits;
        complete = λ q.
            if_holds (IsComplete σ s) (q == r'.latest_seq) _ _ (λ newest. whole)
              (λ other. h.complete q);
      }

  -- Recording, then a round of sending.
  pub recorded_and_sent :
      (s : Settings) (near : Surroundings) (log : ℕ → Entries) (validate : Bool) (r : Server)
      → ((name : ℕ) → Conforms σ (σ.property_kind name) (near.current name))
      → IsTold σ (patches_between engine is_smaller s) s log r
      → let r' =
          send_all engine is_smaller patches_bytes values_bytes s near false
            (record_state engine s near validate r).0 in
        IsTold σ (patches_between engine is_smaller s) s (extend r' log) r'
  unfolding extend
  recorded_and_sent s near log validate r formed h =
      let between = patches_between engine is_smaller s in
      let r1 : Server = (record_state engine s near validate r).0 in
      let told = record_state-IsTold s near log validate r formed h in
      let r' : Server = send_all engine is_smaller patches_bytes values_bytes s near false r1 in
      settle-IsTold σ between s log (extend r1 log) r'
        (send_all-Fits engine is_smaller patches_bytes values_bytes s near (extend r1 log) false r1
          told.fits)
        told.complete
        (λ q ne.
          let elsewhere : (q == r1.latest_seq) ≡ false =
            rw (← latest-send_all s near false r1) ne in
          rw elsewhere refl)
