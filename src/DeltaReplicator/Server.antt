-- ===== src/DeltaReplicator/Server.antt =====
-- framework/delta_replicator.{h,cpp}: the node on the server. Sequence numbers that are -1 in the source
-- are `none`. Times are counted in ticks. A value is never changed in place here, so `deep_copy` leaves
-- nothing to do, and a warning that is only printed is left out.
pub mod Trimming
pub mod Recording
pub mod Sending
pub mod Sends
pub mod Keeping
pub mod Running
pub mod Reaching
pub mod Logging
pub mod Speaking
pub mod Completing
use gfgdextension.Common.{
  ℕ, suc, ◌+◌, List, [], ◌∷◌, ◌++◌, Option, none, some, Bool, true, false, not, ◌&&◌, ◌||◌,
  if◌then◌else◌, ◌==◌, ltb, min, map, keep, is_some, lookup, insert, erase, ℕ_discrete,
}
use gfgdextension.DeltaReplicator.Values.{
  Variant, nil, leaf, array, dictionary, Items, done, item, Entries, end, entry, as_array, find,
  or_nil, put_entry, has_key,
}
use gfgdextension.DeltaReplicator.Patches.{
  Patch, Patches, finish, add_patch, element_key, index_by_key, make_patch, make_patch_by_key,
}

pub data Audience : Type 0 where
  everyone owner : Audience

pub data Delivery : Type 0 where
  acknowledged reliable : Delivery

pub record PeerState : Type 0 where
  pub acked : Option ℕ
  pub last_sent : Option ℕ
  pub since_send : ℕ
  pub last_reliable : Bool

abbrev pub new_peer : PeerState
new_peer = record { acked = none; last_sent = none; since_send = 0; last_reliable = false }

pub record Settings : Type 0 where
  pub properties : List ℕ
  pub keyed_arrays : List (ℕ × ℕ)
  pub push_properties : List ℕ
  pub audience : Audience
  pub delivery : Delivery
  pub check_interval : ℕ
  pub push_validation_interval : ℕ
  pub resend_interval : ℕ
  pub max_history : ℕ
  pub max_unreliable_bytes : ℕ

-- The calls that are made on a peer, with the names the source gives them less `client_`.
pub data Message : Type 0 where
  receive_full_state : ℕ → ℕ → Entries → Message
  receive_patch_reliable receive_patch : ℕ → ℕ → ℕ → Patches → Message

-- `history` has the numbered states, `dirty_elements` the marked keys by property, `sent` what was sent.
pub record Server : Type 0 where
  pub latest_seq : ℕ
  pub history : List (ℕ × Entries)
  pub peers : List (ℕ × PeerState)
  pub time_since_check : ℕ
  pub time_since_validation : ℕ
  pub dirty_properties : List ℕ
  pub dirty_elements : List (ℕ × List ℕ)
  pub comparisons_skipped : ℕ
  pub bytes_sent : ℕ
  pub patches_sent : ℕ
  pub resends : ℕ
  pub reliable_patches : ℕ
  pub sent : List Message

-- What the node finds around it: whether it is the server's, whether there is a root node, the values of
-- its properties, the peers that are connected and ready, the root's owner, and the debug setting that
-- drops what is sent unreliably to a peer.
pub record Surroundings : Type 0 where
  pub is_networked_server : Bool
  pub has_root : Bool
  pub current : ℕ → Variant
  pub is_connected : ℕ → Bool
  pub is_ready_peer : ℕ → Bool
  pub net_owner : Option ℕ
  pub debug_drop : ℕ → Bool

abbrev pub is_seq : Option ℕ → ℕ → Bool
is_seq none n = false
is_seq (some a) n = a == n

abbrev pub or_end : Option Entries → Entries
or_end none = end
or_end (some es) = es

abbrev pub is_nil : Variant → Bool
is_nil nil = true
is_nil (leaf n) = false
is_nil (array t xs) = false
is_nil (dictionary t es) = false

abbrev pub is_acknowledged : Delivery → Bool
is_acknowledged acknowledged = true
is_acknowledged reliable = false

unfoldable pub read_values : (ℕ → Variant) → List ℕ → Entries → Entries
read_values current [] found = found
read_values current (name ∷ names) found =
    read_values current names (put_entry name (current name) found)

-- An element that nobody marked is the old state's.
abbrev pub rebuilt_element : List ℕ → Entries → ℕ → Variant → Variant
rebuilt_element marked old_by_key key element =
    if has_key key marked
    then element
    else elim (find key old_by_key) [ none ↦ element | some old ↦ old ]

abbrev pub rebuilt_item : Bool → Variant → Option Items → Option Items
rebuilt_item true v rest = none
rebuilt_item false v none = none
rebuilt_item false v (some rest) = some (item v rest)

-- Nothing for an element that has no key, or one that was seen.
unfoldable pub rebuild_items : ℕ → List ℕ → Entries → List ℕ → Items → Option Items
rebuild_items field marked old_by_key seen done = some done
rebuild_items field marked old_by_key seen (item element elements) =
    elim (element_key field element) [
      | none ↦ none
      | some key ↦
          rebuilt_item (has_key key seen) (rebuilt_element marked old_by_key key element)
            (rebuild_items field marked old_by_key (key ∷ seen) elements)
    ]

abbrev pub array_or_nil : ℕ → Option Items → Variant
array_or_nil t none = nil
array_or_nil t (some xs) = array t xs

unfoldable pub rebuild_keyed : Variant → Variant → ℕ → List ℕ → Variant
rebuild_keyed old current field marked = elim (as_array current) [
  | none ↦ nil
  | some (u, ys) ↦ elim (as_array old) [
    | none ↦ nil
    | some (t, xs) ↦ elim (index_by_key field xs) [
      | none ↦ nil
      | some old_by_key ↦
          if t == u then array_or_nil t (rebuild_items field marked old_by_key [] ys) else nil
    ]
  ]
]

unfoldable pub mark_property_dirty : ℕ → Server → Server
mark_property_dirty name r = record r {
  dirty_properties =
      if has_key name r.dirty_properties then r.dirty_properties else name ∷ r.dirty_properties;
}

abbrev marked_keys : Option (List ℕ) → List ℕ
marked_keys none = []
marked_keys (some ks) = ks

unfoldable pub mark_element_dirty : Settings → ℕ → ℕ → Server → Server
mark_element_dirty s name key r =
    if is_some (lookup ℕ_discrete name s.keyed_arrays)
    then (let ks = marked_keys (lookup ℕ_discrete name r.dirty_elements) in
        record r {
          dirty_elements =
              insert ℕ_discrete name (if has_key key ks then ks else ks ++ key ∷ [])
                r.dirty_elements;
        })
    else mark_property_dirty name r

-- A peer that fell further behind than the history reaches has nothing confirmed.
abbrev pub acked_in_reach : ℕ → ℕ → Option ℕ → Option ℕ
acked_in_reach latest max_history none = none
acked_in_reach latest max_history (some a) = if ltb (a + max_history) latest then none else some a

abbrev pub in_reach : ℕ → ℕ → PeerState → PeerState
in_reach latest max_history st = record st { acked = acked_in_reach latest max_history st.acked }

abbrev pub needed_for : Option ℕ → ℕ → ℕ
needed_for none needed = needed
needed_for (some a) needed = min needed a

abbrev pub oldest_needed : ℕ → List (ℕ × PeerState) → ℕ
oldest_needed latest [] = latest
oldest_needed latest ((peer, st) ∷ peers) = needed_for st.acked (oldest_needed latest peers)

unfoldable pub reached : ℕ → ℕ → List (ℕ × PeerState) → List (ℕ × PeerState)
reached latest max_history [] = []
reached latest max_history ((peer, st) ∷ peers) =
    (peer, in_reach latest max_history st) ∷ reached latest max_history peers

-- The states from a number on.
unfoldable pub from_seq : ℕ → List (ℕ × Entries) → List (ℕ × Entries)
from_seq n [] = []
from_seq n ((seq, es) ∷ history) =
    let rest = from_seq n history in if ltb seq n then rest else (seq, es) ∷ rest

unfoldable pub trim_history : Settings → Server → Server
trim_history s r =
    let peers = reached r.latest_seq s.max_history r.peers in
    record r { peers = peers; history = from_seq (oldest_needed r.latest_seq peers) r.history }
