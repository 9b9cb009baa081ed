-- ===== src/DeltaReplicator/Server/Keeping.antt =====
-- Every operation of the server keeps the history that its peers need.
use gfgdextension.Common.{
  ℕ, suc, ◌+◌, ◌≡◌, refl, List, [], ◌∷◌, Option, none, some, Bool, true, false, not, ◌&&◌,
  if◌then◌else◌, ◌==◌, ltb, leb, is_some, lookup, insert, ℕ_discrete, lookup-insert, ite, if_holds,
  Bool-cases, inl, inr, arith, subst, ◌∙◌,
}
use gfgdextension.DeltaReplicator.Values.{Engine, Variant, Entries}
use gfgdextension.DeltaReplicator.Patches.{Patch, Patches, same_keys}
use gfgdextension.DeltaReplicator.Server.{PeerState, new_peer, Settings, Server, Surroundings}
use gfgdextension.DeltaReplicator.Server.Trimming.{HasSeq, AllKnown, IsValid, trim_history-IsValid}
use gfgdextension.DeltaReplicator.Server.Recording.{
  record_state, recorded, record_each, last_state, count_skipped,
}
use gfgdextension.DeltaReplicator.Server.Sending.{
  waited, send_to_peer, visit_peer, send_each, send_all, any_gone, flush, is_validation_due,
  physics_process, server_request_full_state, is_in_audience, is_after, ack_from, server_ack,
}
use gfgdextension.DeltaReplicator.Server.Sends.{
  Sent-fields, HasSeq-Sent, send_to_peer-Sent, visit_peer-Sent,
}

-- The numbers and the history of a state are another's, and the peers are known.
pub unchanged-IsValid :
    (s : Settings) (r r' : Server)
    → r'.latest_seq ≡ r.latest_seq
    → r'.history ≡ r.history
    → AllKnown r.history r'.peers
    → IsValid s r
    → IsValid s r'
unchanged-IsValid s r r' latest history known h = record {
  numbered = record {
    has_latest = rw (latest, history) h.numbered.has_latest;
    newest = λ q at. rw latest (h.numbered.newest q (subst (λ m. HasSeq m (some q)) history at));
    known = rw history known;
  };
  within = λ q at. rw latest (h.within q (subst (λ m. HasSeq m (some q)) history at));
}

HasSeq-insert :
    (n : ℕ) (es : Entries) (h : List (ℕ × Entries)) (q : Option ℕ)
    → HasSeq h q
    → HasSeq (insert ℕ_discrete n es h) q
HasSeq-insert n es h none at = tt
HasSeq-insert n es h (some a) at = rw (lookup-insert ℕ_discrete n a es h) (ground (arith, at))

AllKnown-insert :
    (n : ℕ) (es : Entries) (h : List (ℕ × Entries)) (peers : List (ℕ × PeerState))
    → AllKnown h peers
    → AllKnown (insert ℕ_discrete n es h) peers
AllKnown-insert n es h [] known = tt
AllKnown-insert n es h ((peer, st) ∷ peers) known =
    (HasSeq-insert n es h st.acked known.0, AllKnown-insert n es h peers known.1)

recorded-IsValid :
    (s : Settings) (r : Server) (found : Entries × Bool)
    → IsValid s r
    → IsValid s (recorded s r found).0
unfolding recorded
recorded-IsValid s r (next, false) h = h
recorded-IsValid s r (next, true) h =
    let n = suc r.latest_seq in
    let r1 : Server = record r { latest_seq = n; history = insert ℕ_discrete n next r.history } in
    trim_history-IsValid s r1 (record {
      has_latest = rw (lookup-insert ℕ_discrete n n next r.history) (ground arith);
      newest = λ q at. elim (Bool-cases (q == n)) [
        | inl e ↦ ground (arith, e)
        | inr e ↦
            let old : HasSeq r.history (some q) =
              ground (arith, e, at, lookup-insert ℕ_discrete n q next r.history) in
            omega (arith, h.numbered.newest q old)
      ];
      known = AllKnown-insert n next r.history r.peers h.numbered.known;
    })

known-ite {ℓ} :
    {P : Type ℓ} (h : List (ℕ × Entries)) (d : Dec P) (ps qs : List (ℕ × PeerState))
    → AllKnown h ps
    → AllKnown h qs
    → AllKnown h (ite d ps qs)
known-ite h (yes e) ps qs a b = a
known-ite h (no e) ps qs a b = b

known-if :
    (h : List (ℕ × Entries)) (b : Bool) (peer : ℕ) (st : PeerState) (peers : List (ℕ × PeerState))
    → HasSeq h st.acked
    → AllKnown h peers
    → AllKnown h (if b then (peer, st) ∷ peers else peers)
known-if h true peer st peers here known = (here, known)
known-if h false peer st peers here known = known

is_validation_due-IsValid :
    (s : Settings) (delta : ℕ) (r : Server)
    → IsValid s r
    → IsValid s (is_validation_due s delta r).0
unfolding is_validation_due
is_validation_due-IsValid s delta r h =
    let passed : ℕ =
      r.time_since_validation + (if ltb 0 s.check_interval then s.check_interval else delta) in
    let after = λ (t : ℕ).
      unchanged-IsValid s r (record r { time_since_validation = t }) refl refl h.numbered.known h in
    elim (Bool-cases (ltb 0 s.push_validation_interval && not (same_keys s.push_properties []))) [
      | inr e ↦ rw e h
      | inl e ↦ elim (Bool-cases (leb s.push_validation_interval passed)) [
        | inl d ↦ rw (e, d) (after 0)
        | inr d ↦ rw (e, d) (after passed)
      ]
    ]

known-peer :
    (h : List (ℕ × Entries)) (peer : ℕ) (st : PeerState) (peers : List (ℕ × PeerState))
    → AllKnown h peers
    → HasSeq h st.acked
    → AllKnown h (insert ℕ_discrete peer st peers)
unfolding insert
known-peer h peer st [] known here = (here, tt)
known-peer h peer st ((q, other) ∷ peers) known here =
    known-ite h (ℕ_discrete peer q) ((peer, st) ∷ peers)
      ((q, other) ∷ insert ℕ_discrete peer st peers) (here, known.1)
      (known.0, known-peer h peer st peers known.1 here)

AllKnown-waited :
    (h : List (ℕ × Entries)) (delta : ℕ) (peers : List (ℕ × PeerState))
    → AllKnown h peers
    → AllKnown h (waited delta peers)
unfolding waited
AllKnown-waited h delta [] known = tt
AllKnown-waited h delta ((peer, st) ∷ peers) known =
    (known.0, AllKnown-waited h delta peers known.1)

module _ (engine : Engine) (is_smaller : Patch → Variant → Bool) (patches_bytes : Patches → ℕ)
    (values_bytes : Entries → ℕ) where
  pub record_state-IsValid :
      (s : Settings) (near : Surroundings) (validate : Bool) (r : Server)
      → IsValid s r
      → IsValid s (record_state engine s near validate r).0
  unfolding record_state
  record_state-IsValid s near validate r h = elim (Bool-cases near.has_root) [
    | inr e ↦ rw e h
    | inl e ↦
        let r1 : Server = (record r {
          dirty_properties = [];
          dirty_elements = [];
          comparisons_skipped = r.comparisons_skipped + count_skipped s r validate s.properties;
        }) in
        rw e (
          recorded-IsValid s r1
            (record_each engine s r validate near.current (last_state r) s.properties (last_state r)
              false)
            (unchanged-IsValid s r r1 refl refl h.numbered.known h))
  ]

  send_each-Sent :
      (s : Settings) (near : Surroundings) (force : Bool) (peers : List (ℕ × PeerState))
      (r : Server)
      → HasSeq r.history (some r.latest_seq)
      → AllKnown r.history peers
      → let sent = send_each engine is_smaller patches_bytes values_bytes s near force peers r in
        (sent.0.latest_seq ≡ r.latest_seq)
        × (sent.0.history ≡ r.history)
        × AllKnown r.history sent.1
  unfolding send_each
  send_each-Sent s near force [] r newest known = (refl, refl, tt)
  send_each-Sent s near force ((peer, st) ∷ peers) r newest known =
      let visited : Server × PeerState =
        visit_peer engine is_smaller patches_bytes values_bytes s near force peer st r in
      let sent =
        visit_peer-Sent engine is_smaller patches_bytes values_bytes s near force peer st r in
      let (latest, history, same_peers) = Sent-fields r st visited.0 visited.1 sent in
      let known1 : HasSeq r.history visited.1.acked =
        HasSeq-Sent r st visited.0 visited.1 sent newest known.0 in
      let rest =
        send_each-Sent s near force peers visited.0 (rw (latest, history) newest)
          (rw history known.1) in
      let known2 =
        subst
          (λ m.
            AllKnown m
              (send_each engine is_smaller patches_bytes values_bytes s near force peers
                visited.0).1)
          history rest.2 in
      (
        rest.0 ∙ latest,
        rest.1 ∙ history,
        known-if r.history (near.is_connected peer) peer visited.1 _ known1 known2,
      )

  pub send_all-IsValid :
      (s : Settings) (near : Surroundings) (force : Bool) (r : Server)
      → IsValid s r
      → IsValid s (send_all engine is_smaller patches_bytes values_bytes s near force r)
  unfolding send_all
  send_all-IsValid s near force r h =
      let sent : Server × List (ℕ × PeerState) =
        send_each engine is_smaller patches_bytes values_bytes s near force r.peers r in
      let r2 : Server = record sent.0 { peers = sent.1 } in
      let (latest, history, known) =
        send_each-Sent s near force r.peers r h.numbered.has_latest h.numbered.known in
      let after = unchanged-IsValid s r r2 latest history known h in
      elim (Bool-cases (any_gone near r.peers)) [
        | inl e ↦ rw e (trim_history-IsValid s r2 after.numbered)
        | inr e ↦ rw e after
      ]

  pub flush-IsValid :
      (s : Settings) (near : Surroundings) (r : Server)
      → IsValid s r
      → IsValid s (flush engine is_smaller patches_bytes values_bytes s near r).0
  unfolding flush
  flush-IsValid s near r h =
      if_holds (λ (p : Server × Bool). IsValid s p.0) near.is_networked_server _ _
        (λ is_server.
          send_all-IsValid s near false (record_state engine s near false r).0
            (record_state-IsValid s near false r h))
        (λ other. h)

  pub physics_process-IsValid :
      (s : Settings) (near : Surroundings) (delta : ℕ) (r : Server)
      → IsValid s r
      → IsValid s (physics_process engine is_smaller patches_bytes values_bytes s near delta r)
  unfolding physics_process
  physics_process-IsValid s near delta r h =
      let passed = r.time_since_check + delta in
      let r1 : Server = record r { peers = waited delta r.peers; time_since_check = passed } in
      let known1 = AllKnown-waited r.history delta r.peers h.numbered.known in
      let valid1 = unchanged-IsValid s r r1 refl refl known1 h in
      let r2 : Server × Bool = is_validation_due s delta (record r1 { time_since_check = 0 }) in
      let valid2 : IsValid s r2.0 =
        is_validation_due-IsValid s delta (record r1 { time_since_check = 0 })
          (unchanged-IsValid s r1 (record r1 { time_since_check = 0 }) refl refl known1 valid1) in
      if_holds (IsValid s) near.is_networked_server _ _
        (λ is_server.
          if_holds (IsValid s) (leb s.check_interval passed) _ _
            (λ due.
              send_all-IsValid s near false (record_state engine s near r2.1 r2.0).0
                (record_state-IsValid s near r2.1 r2.0 valid2))
            (λ early. send_all-IsValid s near false r1 valid1))
        (λ other. h)

  pub server_request_full_state-IsValid :
      (s : Settings) (near : Surroundings) (sender : ℕ) (r : Server)
      → IsValid s r
      → IsValid s
          (server_request_full_state engine is_smaller patches_bytes values_bytes s near sender r)
  unfolding server_request_full_state
  server_request_full_state-IsValid s near sender r h =
      elim (Bool-cases (near.is_networked_server && ltb 0 sender && is_in_audience s near sender)) [
        | inr e ↦ rw e h
        | inl e ↦
            let r1 : Server = (record_state engine s near false r).0 in
            let valid1 = record_state-IsValid s near false r h in
            let sent : Server × PeerState =
              send_to_peer engine is_smaller patches_bytes values_bytes s near sender true new_peer
                r1 in
            let told =
              send_to_peer-Sent engine is_smaller patches_bytes values_bytes s near sender true
                new_peer r1 in
            let (latest, history, peers) = Sent-fields r1 new_peer sent.0 sent.1 told in
            let known1 = HasSeq-Sent r1 new_peer sent.0 sent.1 told valid1.numbered.has_latest tt in
            let known2 : AllKnown r1.history (insert ℕ_discrete sender sent.1 sent.0.peers) =
              rw peers
                (known-peer r1.history sender sent.1 r1.peers valid1.numbered.known known1) in
            rw e (
              unchanged-IsValid s r1
                (record sent.0 { peers = insert ℕ_discrete sender sent.1 sent.0.peers }) latest
                history known2 valid1)
      ]

ack_from-IsValid :
    (s : Settings) (near : Surroundings) (sender seq : ℕ) (r : Server) (found : Option PeerState)
    → IsValid s r
    → IsValid s (ack_from s near sender seq r found)
unfolding ack_from
ack_from-IsValid s near sender seq r none h = h
ack_from-IsValid s near sender seq r (some st) h =
    let fits : Bool =
      is_after seq st.acked && leb seq r.latest_seq && is_some (lookup ℕ_discrete seq r.history) in
    let st1 : PeerState = record st { acked = some seq } in
    let r1 : Server = record r { peers = insert ℕ_discrete sender st1 r.peers } in
    if_holds (IsValid s) (near.is_networked_server && fits) _ _
      (λ heard.
        let here : HasSeq r.history (some seq) = ground (arith, heard) in
        let known = known-peer r.history sender st1 r.peers h.numbered.known here in
        trim_history-IsValid s r1 (unchanged-IsValid s r r1 refl refl known h).numbered)
      (λ other. h)

pub server_ack-IsValid :
    (s : Settings) (near : Surroundings) (sender : ℕ) (seq : Option ℕ) (r : Server)
    → IsValid s r
    → IsValid s (server_ack s near sender seq r)
unfolding server_ack
server_ack-IsValid s near sender none r h = h
server_ack-IsValid s near sender (some seq) r h =
    ack_from-IsValid s near sender seq r (lookup ℕ_discrete sender r.peers) h
