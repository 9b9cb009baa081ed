-- ===== src/DeltaReplicator/Client.antt =====
-- framework/delta_replicator.cpp: the node on a client, which applies full states and patches. `client_seq`
-- is `none` where the source has -1; a value is never changed in place, so copies are not needed.
pub mod Agreement
pub mod Showing
pub mod Converging
pub mod Repeating
use gfgdextension.Common.{
  ℕ, List, [], ◌∷◌, ◌++◌, Option, none, some, Bool, not, ◌&&◌, if◌then◌else◌, ◌==◌, is_some, lookup,
  insert, ℕ_discrete,
}
use gfgdextension.DeltaReplicator.Values.{
  Engine, same, Variant, Entries, end, entry, as_array, find, or_nil, keys,
}
use gfgdextension.DeltaReplicator.Patches.{Patches, index_by_key, apply_entries}
use gfgdextension.DeltaReplicator.Server.{
  Settings, Message, receive_full_state, receive_patch, receive_patch_reliable, is_acknowledged,
  or_end, read_values, from_seq,
}
use gfgdextension.DeltaReplicator.Server.Sending.{is_after}

-- The signals, with the property and the key.
pub data Signal : Type 0 where
  property_changed : ℕ → Signal
  element_removed : ℕ → ℕ → Signal
  element_added element_changed : ℕ → ℕ → Variant → Signal
  synchronized : Signal

-- `shown` are the values of the root node, `acks` the numbers sent to the server with `server_ack`.
pub record Client : Type 0 where
  pub client_seq : Option ℕ
  pub client_history : List (ℕ × Entries)
  pub shown : ℕ → Variant
  pub signals : List Signal
  pub acks : List (Option ℕ)

abbrev pub new_client : (ℕ → Variant) → Client
new_client shown = record {
  client_seq = none;
  client_history = [];
  shown = shown;
  signals = [];
  acks = [];
}

unfoldable pub has_full_state : Client → Bool
has_full_state c = is_some c.client_seq

unfoldable pub removed_signals : ℕ → Entries → List ℕ → List Signal
removed_signals property new_by_key [] = []
removed_signals property new_by_key (k ∷ ks) =
    let rest = removed_signals property new_by_key ks in
    if is_some (find k new_by_key) then rest else element_removed property k ∷ rest

abbrev pub or_added : ℕ → Option Entries → List (ℕ × Entries) → List (ℕ × Entries)
or_added seq none history = insert ℕ_discrete seq end history
or_added seq (some es) history = history

abbrev pub last_added : Option ℕ → List (ℕ × Entries) → List (ℕ × Entries)
last_added none history = history
last_added (some seq) history = or_added seq (lookup ℕ_discrete seq history) history

-- Reading the last state adds an empty one where it is missing.
unfoldable pub read_last : Client → Client
read_last c = record c { client_history = last_added c.client_seq c.client_history }

-- What the client compares with: the last state, or what the root node has before the first.
unfoldable pub previous_state : Settings → Client → Entries
previous_state s c = elim c.client_seq [
  | none ↦ read_values c.shown s.properties end
  | some seq ↦ or_end (lookup ℕ_discrete seq c.client_history)
]

-- An acknowledgement may get lost, also by the debug setting.
unfoldable pub acknowledge : Settings → Bool → Client → Client
acknowledge s dropped c =
    if is_acknowledged s.delivery && not dropped
    then record c { acks = c.acks ++ c.client_seq ∷ [] }
    else c

module _ (engine : Engine) where
  abbrev element_signal : ℕ → ℕ → Variant → Option Variant → List Signal → List Signal
  element_signal property k new none rest = element_added property k new ∷ rest
  element_signal property k new (some old) rest =
      if same engine old new then rest else element_changed property k new ∷ rest

  unfoldable pub updated_signals : ℕ → Entries → Entries → List Signal
  updated_signals property old_by_key end = []
  updated_signals property old_by_key (entry k v new_by_key) =
      element_signal property k v (find k old_by_key)
        (updated_signals property old_by_key new_by_key)

  -- The elements of the old value, none where it is no Array.
  unfoldable pub old_elements : ℕ → Variant → Option Entries
  old_elements field old = elim (as_array old) [
    | none ↦ some end
    | some (t, xs) ↦ index_by_key field xs
  ]

  unfoldable pub new_elements : ℕ → Variant → Option Entries
  new_elements field new = elim (as_array new) [
    | none ↦ none
    | some (t, xs) ↦ index_by_key field xs
  ]

  unfoldable pub emit_element_signals : ℕ → ℕ → Variant → Variant → List Signal
  emit_element_signals property field old new = elim (old_elements field old) [
    | none ↦ []
    | some old_by_key ↦ elim (new_elements field new) [
      | none ↦ []
      | some new_by_key ↦
          removed_signals property new_by_key (keys old_by_key)
          ++ updated_signals property old_by_key new_by_key
    ]
  ]

  abbrev key_signals : ℕ → Option ℕ → Variant → Variant → List Signal
  key_signals property none old new = []
  key_signals property (some field) old new = emit_element_signals property field old new

  unfoldable pub set_property : Settings → ℕ → Variant → Variant → Client → Client
  set_property s name old new c = record c {
    shown = λ n. if n == name then new else c.shown n;
    signals =
        c.signals
        ++ property_changed name ∷ key_signals name (lookup ℕ_discrete name s.keyed_arrays) old new;
  }

  unfoldable pub show_property : Settings → ℕ → Variant → Option Variant → Client → Client
  show_property s name old none c = c
  show_property s name old (some new) c =
      if is_some c.client_seq && same engine old new then c else set_property s name old new c

  unfoldable pub show_each : Settings → Entries → Entries → List ℕ → Client → Client
  show_each s previous values [] c = c
  show_each s previous values (name ∷ names) c =
      show_each s previous values names
        (show_property s name (or_nil (find name previous)) (find name values) c)

  -- Nothing without a root node.
  unfoldable pub apply_state : Settings → Bool → ℕ → Entries → Client → Client
  apply_state s has_root seq values c =
      if has_root
      then (let c1 = show_each s (previous_state s c) values s.properties (read_last c) in
          record c1 {
            client_history = insert ℕ_discrete seq values c1.client_history;
            client_seq = some seq;
            signals = c1.signals ++ synchronized ∷ [];
          })
      else c

  unfoldable pub client_receive_full_state : Settings → Bool → Bool → ℕ → Entries → Client → Client
  client_receive_full_state s has_root dropped seq values c = acknowledge s dropped (
      if is_after seq c.client_seq
      then record (apply_state s has_root seq values c) { client_history = (seq, values) ∷ [] }
      else c)

  unfoldable pub apply_on : Settings → Bool → ℕ → ℕ → Patches → Option Entries → Client → Client
  apply_on s has_root base seq patches none c = c
  apply_on s has_root base seq patches (some values) c =
      let c1 = apply_state s has_root seq (apply_entries patches values) c in
      record c1 { client_history = from_seq base c1.client_history }

  -- A patch is ignored before the full state, and applied when it is newer and its base is there.
  unfoldable pub client_receive_patch : Settings → Bool → Bool → ℕ → ℕ → Patches → Client → Client
  client_receive_patch s has_root dropped base seq patches c =
      if is_some c.client_seq
      then acknowledge s dropped (
          if is_after seq c.client_seq
          then apply_on s has_root base seq patches (lookup ℕ_discrete base c.client_history) c
          else c)
      else c

  -- A message that arrives, by the call that it makes.
  unfoldable pub deliver : Settings → Bool → Bool → Message → Client → Client
  deliver s has_root dropped (receive_full_state peer seq values) c =
      client_receive_full_state s has_root dropped seq values c
  deliver s has_root dropped (receive_patch_reliable peer base seq patches) c =
      client_receive_patch s has_root dropped base seq patches c
  deliver s has_root dropped (receive_patch peer base seq patches) c =
      client_receive_patch s has_root dropped base seq patches c
