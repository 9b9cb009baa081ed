-- ===== src/DeltaReplicator/Server/Sends.antt =====
-- What a send changes of the server and of its peer.
use gfgdextension.Common.{
  ℕ, suc, ◌≡◌, refl, some, Bool, ◌&&◌, if◌then◌else◌, ltb, Bool-cases, Option-cases, inl, inr, ◌⊎◌,
}
use gfgdextension.DeltaReplicator.Values.{Engine, Variant, Entries}
use gfgdextension.DeltaReplicator.Patches.{Patch, Patches}
use gfgdextension.DeltaReplicator.Server.{
  PeerState, is_seq, Settings, Server, Surroundings, is_acknowledged,
}
use gfgdextension.DeltaReplicator.Server.Trimming.{HasSeq}
use gfgdextension.DeltaReplicator.Server.Sending.{
  build_patches, is_due, confirmed, send_full_state, send_patch, after_send, send_to_peer,
  visit_peer, peer_may_receive,
}

-- A send leaves the numbers, the history and the peers alone, and the peer has confirmed what it had, or
-- counts as having the newest state.
unfoldable pub Sent : Server → PeerState → Server → PeerState → Type 0
Sent r st r' st' =
    (r'.latest_seq ≡ r.latest_seq)
    × (r'.history ≡ r.history)
    × (r'.peers ≡ r.peers)
    × ((st'.acked ≡ st.acked) ⊎ (st'.acked ≡ some r.latest_seq))

kept-Sent : (r : Server) (st : PeerState) → Sent r st r st
unfolding Sent
kept-Sent r st = (refl, refl, refl, inl refl)

after_send-Sent :
    (s : Settings) (r : Server) (st : PeerState) (r' : Server) (st' : PeerState)
    → Sent r st r' st'
    → Sent r st (after_send s (r', st')).0 (after_send s (r', st')).1
unfolding after_send Sent
after_send-Sent s r st r' st' (latest, history, peers, acked) =
    elim (Bool-cases (is_acknowledged s.delivery)) [
      | inl e ↦ (latest, history, peers, rw e acked)
      | inr e ↦ (latest, history, peers, rw (e, latest) (inr refl))
    ]

pub Sent-fields :
    (r : Server) (st : PeerState) (r' : Server) (st' : PeerState)
    → Sent r st r' st'
    → (r'.latest_seq ≡ r.latest_seq) × (r'.history ≡ r.history) × (r'.peers ≡ r.peers)
unfolding Sent
Sent-fields r st r' st' h = (h.0, h.1, h.2)

pub HasSeq-Sent :
    (r : Server) (st : PeerState) (r' : Server) (st' : PeerState)
    → Sent r st r' st'
    → HasSeq r.history (some r.latest_seq)
    → HasSeq r.history st.acked
    → HasSeq r.history st'.acked
unfolding Sent
HasSeq-Sent r st r' st' (latest, history, peers, inl e) newest here = rw e here
HasSeq-Sent r st r' st' (latest, history, peers, inr e) newest here = rw e newest

module _ (engine : Engine) (is_smaller : Patch → Variant → Bool) (patches_bytes : Patches → ℕ)
    (values_bytes : Entries → ℕ) where
  send_patch-Sent :
      (s : Settings) (near : Surroundings) (peer base : ℕ) (st : PeerState) (r : Server)
      → let sent = send_patch engine is_smaller patches_bytes values_bytes s near peer base st r in
        Sent r st sent.0 sent.1
  unfolding send_patch Sent
  send_patch-Sent s near peer base st r =
      let size = patches_bytes (build_patches engine is_smaller s r base r.latest_seq) in
      elim (Bool-cases (is_acknowledged s.delivery && ltb s.max_unreliable_bytes size)) [
        | inl e ↦ rw e (refl, refl, refl, inl refl)
        | inr e ↦ elim (Bool-cases (is_acknowledged s.delivery && near.debug_drop peer)) [
          | inl d ↦ rw (e, d) (refl, refl, refl, inl refl)
          | inr d ↦ rw (e, d) (refl, refl, refl, inl refl)
        ]
      ]

  full_state-Sent :
      (peer : ℕ) (st : PeerState) (r r1 : Server)
      → Sent r st r1 st
      → let sent = send_full_state engine is_smaller patches_bytes values_bytes peer st r1 in
        Sent r st sent.0 sent.1
  unfolding send_full_state Sent
  full_state-Sent peer st r r1 h = h

  pub send_to_peer-Sent :
      (s : Settings) (near : Surroundings) (peer : ℕ) (force : Bool) (st : PeerState) (r : Server)
      → let sent =
          send_to_peer engine is_smaller patches_bytes values_bytes s near peer force st r in
        Sent r st sent.0 sent.1
  unfolding send_to_peer send_full_state Sent
  send_to_peer-Sent s near peer force st r = elim (Bool-cases (is_due s r force st)) [
    | inr e ↦ rw e (kept-Sent r st)
    | inl e ↦
        let r1 : Server = record r {
          resends = if is_seq st.last_sent r.latest_seq then suc r.resends else r.resends;
        } in
        elim (Option-cases (confirmed r st)) [
          | inl n ↦
              let sent : Server × PeerState =
                send_full_state engine is_smaller patches_bytes values_bytes peer st r1 in
              rw (e, n)
                (after_send-Sent s r st sent.0 sent.1
                  (full_state-Sent peer st r r1 (kept-Sent r st)))
          | inr (b, n) ↦
              let sent : Server × PeerState =
                send_patch engine is_smaller patches_bytes values_bytes s near peer b.0 st r1 in
              rw (e, n)
                (after_send-Sent s r st sent.0 sent.1 (send_patch-Sent s near peer b.0 st r1))
        ]
  ]

  pub visit_peer-Sent :
      (s : Settings) (near : Surroundings) (force : Bool) (peer : ℕ) (st : PeerState) (r : Server)
      → let sent = visit_peer engine is_smaller patches_bytes values_bytes s near force peer st r in
        Sent r st sent.0 sent.1
  unfolding visit_peer
  visit_peer-Sent s near force peer st r =
      elim (Bool-cases (near.is_connected peer && peer_may_receive s near peer)) [
        | inl e ↦ rw e (send_to_peer-Sent s near peer force st r)
        | inr e ↦ rw e (kept-Sent r st)
      ]
