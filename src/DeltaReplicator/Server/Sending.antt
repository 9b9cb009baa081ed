-- ===== src/DeltaReplicator/Server/Sending.antt =====
-- framework/delta_replicator.cpp: what is sent to the peers, and what they send to the server.
use gfgdextension.Common.{
  ℕ, suc, ◌+◌, List, [], ◌∷◌, ◌++◌, Option, none, some, Bool, true, false, not, ◌&&◌, ◌||◌,
  if◌then◌else◌, ltb, leb, is_some, lookup, insert, ℕ_discrete, map,
}
use gfgdextension.DeltaReplicator.Values.{Engine, Variant, Entries, find, or_nil}
use gfgdextension.DeltaReplicator.Patches.{
  Patch, Patches, finish, set_each, make_patch, make_patch_by_key, same_keys,
}
use gfgdextension.DeltaReplicator.Server.{
  everyone, owner, PeerState, new_peer, Settings, receive_full_state, receive_patch_reliable,
  receive_patch, Server, Surroundings, is_seq, or_end, is_acknowledged, trim_history,
}
use gfgdextension.DeltaReplicator.Server.Recording.{record_state, last_state}

unfoldable pub is_in_audience : Settings → Surroundings → ℕ → Bool
is_in_audience s near peer = elim s.audience [
  | everyone ↦ true
  | owner ↦ near.has_root && is_seq near.net_owner peer
]

unfoldable pub peer_may_receive : Settings → Surroundings → ℕ → Bool
peer_may_receive s near peer = near.is_ready_peer peer && is_in_audience s near peer

abbrev pub with_seq : ℕ → Option Entries → Option (ℕ × Entries)
with_seq a none = none
with_seq a (some es) = some (a, es)

abbrev pub confirmed_in : List (ℕ × Entries) → Option ℕ → Option (ℕ × Entries)
confirmed_in history none = none
confirmed_in history (some a) = with_seq a (lookup ℕ_discrete a history)

-- The state that a peer confirmed, where the history still has it.
unfoldable pub confirmed : Server → PeerState → Option (ℕ × Entries)
confirmed r st = confirmed_in r.history st.acked

-- Nothing is due for a peer that confirmed the newest state, that was sent it reliably, or that was sent
-- it a short while ago.
unfoldable pub is_due : Settings → Server → Bool → PeerState → Bool
is_due s r force st =
    let newer = not (is_seq st.last_sent r.latest_seq) in
    not (is_seq st.acked r.latest_seq)
    && not (not newer && not force && ltb st.since_send s.resend_interval)
    && not (not newer && st.last_reliable)

-- The time that the peers wait for an acknowledgement.
unfoldable pub waited : ℕ → List (ℕ × PeerState) → List (ℕ × PeerState)
waited delta [] = []
waited delta ((peer, st) ∷ peers) =
    (peer, record st { since_send = st.since_send + delta }) ∷ waited delta peers

-- Reliable delivery needs no word back.
unfoldable pub after_send : Settings → Server × PeerState → Server × PeerState
after_send s (r, st) = (
  r,
  record st {
    last_sent = some r.latest_seq;
    since_send = 0;
    acked = if is_acknowledged s.delivery then st.acked else some r.latest_seq;
  },
)

unfoldable pub any_gone : Surroundings → List (ℕ × PeerState) → Bool
any_gone near [] = false
any_gone near ((peer, st) ∷ peers) = not (near.is_connected peer) || any_gone near peers

-- The debug build, which validates the properties that nobody marked now and then.
unfoldable pub is_validation_due : Settings → ℕ → Server → Server × Bool
is_validation_due s delta r =
    let passed =
      r.time_since_validation + (if ltb 0 s.check_interval then s.check_interval else delta) in
    if ltb 0 s.push_validation_interval && not (same_keys s.push_properties [])
    then (if leb s.push_validation_interval passed
        then (record r { time_since_validation = 0 }, true)
        else (record r { time_since_validation = passed }, false))
    else (r, false)

module _ (engine : Engine) (is_smaller : Patch → Variant → Bool) where
  unfoldable pub patch_of : Option ℕ → Variant → Variant → Option Patch
  patch_of none old new = make_patch engine is_smaller old new
  patch_of (some field) old new = make_patch_by_key engine is_smaller field old new

  unfoldable pub property_patch : Settings → Entries → Entries → ℕ → Option Patch
  property_patch s from to name =
      patch_of (lookup ℕ_discrete name s.keyed_arrays) (or_nil (find name from))
        (or_nil (find name to))

  unfoldable pub patches_between : Settings → Entries → Entries → Patches
  patches_between s from to = set_each (property_patch s from to) s.properties finish

  unfoldable pub build_patches : Settings → Server → ℕ → ℕ → Patches
  build_patches s r base seq =
      patches_between s (or_end (lookup ℕ_discrete base r.history))
        (or_end (lookup ℕ_discrete seq r.history))

module _ (engine : Engine) (is_smaller : Patch → Variant → Bool) (patches_bytes : Patches → ℕ)
    (values_bytes : Entries → ℕ) where
  -- The full values, reliably.
  unfoldable pub send_full_state : ℕ → PeerState → Server → Server × PeerState
  send_full_state peer st r =
      let values = last_state r in
      (
        record r {
          sent = r.sent ++ receive_full_state peer r.latest_seq values ∷ [];
          bytes_sent = r.bytes_sent + values_bytes values;
        },
        record st { last_reliable = true },
      )

  unfoldable pub send_patch :
      Settings → Surroundings → ℕ → ℕ → PeerState → Server → Server × PeerState
  send_patch s near peer base st r =
      let patches = build_patches engine is_smaller s r base r.latest_seq in
      let size = patches_bytes patches in
      let r1 = record r { patches_sent = suc r.patches_sent; bytes_sent = r.bytes_sent + size } in
      if is_acknowledged s.delivery && ltb s.max_unreliable_bytes size
      then (
        record r1 {
          reliable_patches = suc r.reliable_patches;
          sent = r.sent ++ receive_patch_reliable peer base r.latest_seq patches ∷ [];
        },
        record st { last_reliable = true },
      )
      else (
        if is_acknowledged s.delivery && near.debug_drop peer
            then r1
            else record r1 { sent = r.sent ++ receive_patch peer base r.latest_seq patches ∷ [] },
        record st { last_reliable = not (is_acknowledged s.delivery) },
      )

  unfoldable pub send_to_peer :
      Settings → Surroundings → ℕ → Bool → PeerState → Server → Server × PeerState
  send_to_peer s near peer force st r =
      if is_due s r force st
      then (let r1 = (record r {
        resends = if is_seq st.last_sent r.latest_seq then suc r.resends else r.resends;
      }) in
          after_send s (elim (confirmed r st) [
            | none ↦ send_full_state peer st r1
            | some (base, from) ↦ send_patch s near peer base st r1
          ]))
      else (r, st)

  unfoldable pub visit_peer :
      Settings → Surroundings → Bool → ℕ → PeerState → Server → Server × PeerState
  visit_peer s near force peer st r =
      if near.is_connected peer && peer_may_receive s near peer
      then send_to_peer s near peer force st r
      else (r, st)

  -- A peer that disconnected is dropped, one that is not ready is skipped.
  unfoldable pub send_each :
      Settings → Surroundings → Bool → List (ℕ × PeerState) → Server → Server × List (ℕ × PeerState)
  send_each s near force [] r = (r, [])
  send_each s near force ((peer, st) ∷ peers) r =
      let (r1, st1) = visit_peer s near force peer st r in
      let (r2, rest) = send_each s near force peers r1 in
      (r2, if near.is_connected peer then (peer, st1) ∷ rest else rest)

  unfoldable pub send_all : Settings → Surroundings → Bool → Server → Server
  send_all s near force r =
      let (r1, peers) = send_each s near force r.peers r in
      let r2 = record r1 { peers = peers } in
      if any_gone near r.peers then trim_history s r2 else r2

  unfoldable pub flush : Settings → Surroundings → Server → Server × Bool
  flush s near r =
      if near.is_networked_server
      then (let (r1, changed) = record_state engine s near false r in
          (send_all s near false r1, changed))
      else (r, false)

  unfoldable pub physics_process : Settings → Surroundings → ℕ → Server → Server
  physics_process s near delta r =
      if near.is_networked_server
      then (let passed = r.time_since_check + delta in
          let r1 = record r { peers = waited delta r.peers; time_since_check = passed } in
          if leb s.check_interval passed
          then (let (r2, validate) =
                is_validation_due s delta (record r1 { time_since_check = 0 }) in
              let (r3, changed) = record_state engine s near validate r2 in
              send_all s near false r3)
          else send_all s near false r1)
      else r

  -- An answer to the request of a client, which has to be the root's owner where only that one hears.
  unfoldable pub server_request_full_state : Settings → Surroundings → ℕ → Server → Server
  server_request_full_state s near sender r =
      if near.is_networked_server && ltb 0 sender && is_in_audience s near sender
      then (let (r1, changed) = record_state engine s near false r in
          let (r2, st) = send_to_peer s near sender true new_peer r1 in
          record r2 { peers = insert ℕ_discrete sender st r2.peers })
      else r

-- -1 stands below every number.
abbrev pub is_after : ℕ → Option ℕ → Bool
is_after seq none = true
is_after seq (some a) = ltb a seq

unfoldable pub ack_from : Settings → Surroundings → ℕ → ℕ → Server → Option PeerState → Server
ack_from s near sender seq r none = r
ack_from s near sender seq r (some st) =
    let fits =
      is_after seq st.acked && leb seq r.latest_seq && is_some (lookup ℕ_discrete seq r.history) in
    if near.is_networked_server && fits
    then trim_history s
        (record r { peers = insert ℕ_discrete sender (record st { acked = some seq }) r.peers })
    else r

unfoldable pub server_ack : Settings → Surroundings → ℕ → Option ℕ → Server → Server
server_ack s near sender none r = r
server_ack s near sender (some seq) r =
    ack_from s near sender seq r (lookup ℕ_discrete sender r.peers)

unfoldable pub get_subscribers : Server → List ℕ
get_subscribers r = map (λ (e : ℕ × PeerState). e.0) r.peers

unfoldable pub get_peer_acked_sequence : Server → ℕ → Option ℕ
get_peer_acked_sequence r peer = elim (lookup ℕ_discrete peer r.peers) [
  | none ↦ none
  | some st ↦ st.acked
]
