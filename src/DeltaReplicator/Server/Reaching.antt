-- ===== src/DeltaReplicator/Server/Reaching.antt =====
-- Who has been sent the newest state.
use gfgdextension.Common.{ℕ, ◌≡◌, ◌⊎◌, List, [], ◌∷◌, some, Bool, true, false, Has}
use gfgdextension.DeltaReplicator.Values.{Engine, Variant, Entries}
use gfgdextension.DeltaReplicator.Patches.{Patch, Patches}
use gfgdextension.DeltaReplicator.Server.{
  PeerState, Settings, Server, Surroundings, Message, receive_full_state, receive_patch,
  receive_patch_reliable,
}
use gfgdextension.DeltaReplicator.Server.Sending.{peer_may_receive}

-- A message to a peer that brings it to a state.
abbrev pub IsFor : ℕ → ℕ → Message → Type 0
IsFor peer seq (receive_full_state p q values) = (p ≡ peer) × (q ≡ seq)
IsFor peer seq (receive_patch_reliable p base q patches) = (p ≡ peer) × (q ≡ seq)
IsFor peer seq (receive_patch p base q patches) = (p ≡ peer) × (q ≡ seq)

-- Among the messages is one to the peer that brings it to the state, unless the debug setting dropped it.
abbrev pub IsSent : Surroundings → ℕ → ℕ → List Message → Type 0
IsSent near peer latest sent =
    near.debug_drop peer ≡ false → (m : Message) × Has m sent × IsFor peer latest m

-- A peer that may receive had confirmed the state or was sent it last, or is sent it now; another stays
-- as it was.
abbrev pub IsReached :
    Settings → Surroundings → ℕ → List Message → ℕ → PeerState → PeerState → Type 0
IsReached s near latest sent peer st st' =
    (peer_may_receive s near peer ≡ true
      → ((st' ≡ st) × ((st.acked ≡ some latest) ⊎ (st.last_sent ≡ some latest)))
        ⊎ ((st'.last_sent ≡ some latest) × IsSent near peer latest sent))
    × (peer_may_receive s near peer ≡ false → st' ≡ st)

-- The peers that are connected are still there, in order and reached, and the others are gone.
abbrev pub AllReached :
    Settings
    → Surroundings
    → ℕ
    → List Message
    → List (ℕ × PeerState)
    → List (ℕ × PeerState)
    → Type 0
AllReached s near latest sent [] after = after ≡ []
AllReached s near latest sent ((peer, st) ∷ peers) after =
    (near.is_connected peer ≡ true
      → (st' : PeerState) × (rest : List (ℕ × PeerState)) × (after ≡ (peer, st') ∷ rest)
        × IsReached s near latest sent peer st st'
        × AllReached s near latest sent peers rest)
    × (near.is_connected peer ≡ false → AllReached s near latest sent peers after)

module _ (engine : Engine) (is_smaller : Patch → Variant → Bool) (patches_bytes : Patches → ℕ)
    (values_bytes : Entries → ℕ) where
  -- What a send to a peer says, given what was sent before and after: nothing is taken back.
  Speaks : Surroundings → ℕ → ℕ → List Message → List Message → Type 0
  Speaks near peer latest before after =
      ((m : Message) → Has m before → Has m after) × IsSent near peer latest after
