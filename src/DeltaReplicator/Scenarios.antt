-- ===== src/DeltaReplicator/Scenarios.antt =====
-- Runs of the replication on small values.
use gfgdextension.Common.{
  ℕ, ◌≡◌, refl, List, [], ◌∷◌, none, some, Bool, true, false, ◌==◌, ◌&&◌, ltb, lookup, insert,
  ℕ_discrete, inl, inr, arith,
}
use gfgdextension.DeltaReplicator.Server.Recording.{
  last_state, record_state, recorded, record_each, new_value, is_compared, taken,
}
use gfgdextension.DeltaReplicator.System.Arriving.{log_of}
use gfgdextension.DeltaReplicator.System.Showing.{AllFrom, run-shown}
use gfgdextension.DeltaReplicator.Values.{
  Variant, nil, leaf, array, dictionary, done, item, Entries, end, entry, as_array, as_dictionary,
  find, or_nil, put_entry, has_key, Engine, ComparesContents, same, Schema, Conforms, Same,
}
use gfgdextension.DeltaReplicator.Patches.{
  set_each, put_patch, Patch, whole, keyed, changes, Patches, finish, patch, make_patch,
  make_patch_by_key, make_keyed_patch, smaller_of, make_entries, make_items, index_by_key,
  removed_keys, expected_order, same_keys, apply_any,
}
use gfgdextension.DeltaReplicator.Keyed.{apply-make_patch_by_key, apply-make_patch}
use gfgdextension.DeltaReplicator.Server.{
  reached, from_seq, read_values, everyone, acknowledged, PeerState, new_peer, Settings, Message,
  receive_full_state, receive_patch, Server, Surroundings, trim_history,
}
use gfgdextension.DeltaReplicator.Server.Sending.{
  flush, send_all, any_gone, send_each, visit_peer, peer_may_receive, is_in_audience, send_to_peer,
  is_due, confirmed, send_full_state, send_patch, after_send, server_request_full_state, server_ack,
  ack_from, build_patches, patches_between, property_patch, patch_of,
}
use gfgdextension.DeltaReplicator.Server.Trimming.{IsNumbered, IsValid, AllKept, trim_history_keeps}
use gfgdextension.DeltaReplicator.Server.Running.{
  call, Call, tick, flushed, requested, acked_by, ready, run, run-IsValid,
}
use gfgdextension.DeltaReplicator.Client.{
  Client, new_client, client_receive_patch, client_receive_full_state, acknowledge, apply_state,
  apply_on, deliver,
}
use gfgdextension.DeltaReplicator.Client.Converging.{deliver_all}
use gfgdextension.DeltaReplicator.Client.Repeating.{IsUnchanged, deliver_twice}

abbrev same_leaves : Variant → Variant → Bool
same_leaves (leaf m) (leaf n) = m == n
same_leaves (leaf m) nil = false
same_leaves (leaf m) (array t xs) = false
same_leaves (leaf m) (dictionary t es) = false
same_leaves nil b = false
same_leaves (array t xs) b = false
same_leaves (dictionary t es) b = false

-- Types by numbers: null, others, arrays and dictionaries.
abbrev type_of : Variant → ℕ
type_of nil = 0
type_of (leaf n) = 1
type_of (array t xs) = 28
type_of (dictionary t es) = 27

abbrev leaves : Engine
leaves = record { get_type = type_of; equals = same_leaves }

leaves-ComparesContents : ComparesContents leaves
leaves-ComparesContents (leaf m) (leaf n) typed h =
    let same : m ≡ n = ground (arith, h) in rw same refl
leaves-ComparesContents (leaf m) nil typed h = absurd (ground (arith, h))
leaves-ComparesContents (leaf m) (array t xs) typed h = absurd (ground (arith, h))
leaves-ComparesContents (leaf m) (dictionary t es) typed h = absurd (ground (arith, h))
leaves-ComparesContents nil b typed h = absurd (ground (arith, h))
leaves-ComparesContents (array t xs) b typed h = absurd (ground (arith, h))
leaves-ComparesContents (dictionary t es) b typed h = absurd (ground (arith, h))

-- Arrays of one element type, and dictionaries of any.
abbrev plain : Schema
plain = record {
  array_type = λ q. 0;
  dictionary_type = λ q. 0;
  element_kind = λ q. 0;
  entry_kind = λ q k. 0;
  property_kind = λ name. 0;
}

-- An Array[int] and an untyped Array with the same element: `==` holds, and no patch is made.
abbrev typed_array : Variant
typed_array = array 2 (item (leaf 1) done)

abbrev untyped_array : Variant
untyped_array = array 0 (item (leaf 1) done)

abbrev contents : Engine
contents = record { get_type = type_of; equals = λ a b. true }

retyped : make_patch contents (λ p v. true) typed_array untyped_array ≡ none
unfolding make_patch same
retyped = refl

-- Patches that are never longer than the value.
abbrev always_smaller : Patch → Variant → Bool
always_smaller p v = true

-- An order with an id and a count; the receiver has the two entries the other way round.
abbrev order : ℕ → ℕ → Variant
order id n = dictionary 0 (entry 0 (leaf id) (entry 1 (leaf n) end))

abbrev turned_order : ℕ → ℕ → Variant
turned_order id n = dictionary 0 (entry 1 (leaf n) (entry 0 (leaf id) end))

abbrev old_orders : Variant
old_orders = array 0 (item (order 7 10) (item (order 8 20) done))

abbrev receiver_orders : Variant
receiver_orders = array 0 (item (turned_order 7 10) (item (turned_order 8 20) done))

abbrev new_orders : Variant
new_orders = array 0 (item (order 8 21) (item (order 9 30) (item (order 7 10) done)))

order-Same : (id n : ℕ) → Same (turned_order id n) (order id n)
unfolding find has_key
order-Same id n = (
  entry 1 (leaf n) (entry 0 (leaf id) end),
  refl,
  (leaf id, refl, refl, (leaf n, refl, refl, tt)),
  λ k at. ground (arith, at),
)

receiver-Same : Same receiver_orders old_orders
receiver-Same = (
  item (turned_order 7 10) (item (turned_order 8 20) done),
  refl,
  (
    turned_order 7 10,
    item (turned_order 8 20) done,
    refl,
    order-Same 7 10,
    (turned_order 8 20, done, refl, order-Same 8 20, refl),
  ),
)

order-Conforms : (id n : ℕ) → Conforms plain 0 (order id n)
unfolding has_key
order-Conforms id n = (refl, (refl, tt, (refl, tt, tt)))

old-Conforms : Conforms plain 0 old_orders
old-Conforms = (refl, (order-Conforms 7 10, (order-Conforms 8 20, tt)))

new-Conforms : Conforms plain 0 new_orders
new-Conforms = (refl, (order-Conforms 8 21, (order-Conforms 9 30, (order-Conforms 7 10, tt))))

keyed_patch :
    make_patch_by_key leaves always_smaller 0 old_orders new_orders
    ≡ some (
        keyed 0
          (patch 8
            (changes (patch 1 (whole (leaf 21)) finish) [])
            (patch 9 (whole (order 9 30)) (patch 7 (changes finish []) finish)))
          []
          (some (8 ∷ 9 ∷ 7 ∷ [])))
unfolding make_patch_by_key make_keyed_patch smaller_of same make_patch make_entries make_items
    as_array as_dictionary index_by_key find has_key removed_keys expected_order same_keys
keyed_patch = refl

apply-make_patch_by_key_example :
    Same
      (apply_any receiver_orders (make_patch_by_key leaves always_smaller 0 old_orders new_orders))
      new_orders
apply-make_patch_by_key_example =
    apply-make_patch_by_key leaves always_smaller leaves-ComparesContents plain 0 0 old_orders
      new_orders receiver_orders (inl old-Conforms) new-Conforms receiver-Same

apply-make_patch_example :
    Same
      (apply_any receiver_orders (make_patch leaves always_smaller old_orders new_orders))
      new_orders
apply-make_patch_example =
    apply-make_patch leaves always_smaller leaves-ComparesContents plain 0 old_orders new_orders
      receiver_orders (inl old-Conforms) new-Conforms receiver-Same

-- One property that everyone is sent.
abbrev small_settings : Settings
small_settings = record {
  properties = 0 ∷ [];
  keyed_arrays = [];
  push_properties = [];
  audience = everyone;
  delivery = acknowledged;
  check_interval = 2;
  push_validation_interval = 10;
  resend_interval = 3;
  max_history = 2;
  max_unreliable_bytes = 100;
}

-- The server's root node has the given value, and the peers 2 and 3 are there.
abbrev around : ℕ → Surroundings
around v = record {
  is_networked_server = true;
  has_root = true;
  current = λ name. leaf v;
  is_connected = λ peer. ltb 1 peer && ltb peer 4;
  is_ready_peer = λ peer. ltb 1 peer && ltb peer 4;
  net_owner = none;
  debug_drop = λ peer. false;
}

abbrev ten_bytes : Patches → ℕ
ten_bytes ps = 10

abbrev twenty_bytes : Entries → ℕ
twenty_bytes es = 20

abbrev small_calls : List Call
small_calls =
    requested (around 5) 2
    ∷ flushed (around 6)
    ∷ acked_by (around 6) 2 (some 0)
    ∷ flushed (around 7)
    ∷ flushed (around 8)
    ∷ tick (around 8) 3
    ∷ []

abbrev small_server : Server
small_server =
    run leaves always_smaller ten_bytes twenty_bytes small_settings small_calls
      (ready small_settings (around 5))

run-IsNumbered : IsNumbered small_server
run-IsNumbered =
    (run-IsValid leaves always_smaller ten_bytes twenty_bytes small_settings (around 5)
      small_calls).numbered

trim_history_keeps_example :
    let r' = trim_history small_settings small_server in
    IsValid small_settings r'
    × (r'.latest_seq ≡ small_server.latest_seq)
    × (lookup ℕ_discrete small_server.latest_seq r'.history
        ≡ lookup ℕ_discrete small_server.latest_seq small_server.history)
    × AllKept small_server.latest_seq 2 small_server.history r'.history small_server.peers r'.peers
trim_history_keeps_example = trim_history_keeps small_settings small_server run-IsNumbered

run-IsValid_example : IsValid small_settings small_server
run-IsValid_example =
    run-IsValid leaves always_smaller ten_bytes twenty_bytes small_settings (around 5) small_calls

abbrev two_peers : List (ℕ × PeerState)
two_peers = (2, new_peer) ∷ (3, record new_peer { acked = some 0; last_sent = some 0 }) ∷ []

-- A client asks for the full state and confirms it, and the value changes twice.
abbrev short_calls : List Call
short_calls =
    requested (around 5) 2
    ∷ acked_by (around 5) 2 (some 0)
    ∷ flushed (around 6)
    ∷ flushed (around 7)
    ∷ []

abbrev short_server : Server
short_server =
    run leaves always_smaller ten_bytes twenty_bytes small_settings short_calls
      (ready small_settings (around 5))

-- The last value, as a patch of the first.
abbrev last_patches : Patches
last_patches = patch 0 (whole (leaf 7)) finish

short_sent :
    short_server.sent
    ≡ receive_full_state 2 0 (entry 0 (leaf 5) end)
      ∷ receive_patch 2 0 1 (patch 0 (whole (leaf 6)) finish)
      ∷ receive_patch 2 0 2 last_patches
      ∷ []
unfolding run call flush send_all any_gone send_each visit_peer peer_may_receive is_in_audience
    send_to_peer is_due confirmed send_full_state send_patch after_send record_state recorded
    record_each new_value is_compared taken trim_history reached from_seq insert lookup ℕ_discrete
    server_request_full_state server_ack ack_from ready read_values put_entry find build_patches
    patches_between set_each property_patch patch_of make_patch same smaller_of has_key put_patch
short_sent = refl

-- The value changes before the first state is confirmed, which the history then has no more.
abbrev late_calls : List Call
late_calls =
    requested (around 5) 2
    ∷ flushed (around 6)
    ∷ acked_by (around 6) 2 (some 0)
    ∷ flushed (around 7)
    ∷ []

late_sent :
    (run leaves always_smaller ten_bytes twenty_bytes small_settings late_calls
      (ready small_settings (around 5))).sent
    ≡ receive_full_state 2 0 (entry 0 (leaf 5) end)
      ∷ receive_full_state 2 1 (entry 0 (leaf 6) end)
      ∷ receive_full_state 2 2 (entry 0 (leaf 7) end)
      ∷ []
unfolding run call flush send_all any_gone send_each visit_peer peer_may_receive is_in_audience
    send_to_peer is_due confirmed send_full_state send_patch after_send record_state recorded
    record_each new_value is_compared taken trim_history reached from_seq insert lookup ℕ_discrete
    server_request_full_state server_ack ack_from ready read_values put_entry find build_patches
    patches_between set_each property_patch patch_of make_patch same smaller_of has_key put_patch
late_sent = refl

-- The first patch gets lost, and the second comes twice, also before the first.
abbrev short_messages : List (Bool × Message)
short_messages =
    (false, receive_patch 2 0 2 last_patches)
    ∷ (false, receive_full_state 2 0 (entry 0 (leaf 5) end))
    ∷ (true, receive_patch 2 0 2 last_patches)
    ∷ []

short_arrived :
    (deliver_all leaves small_settings short_messages (new_client (λ name. nil))).client_seq
    ≡ some 2
unfolding deliver_all deliver client_receive_patch client_receive_full_state acknowledge apply_state
    apply_on same lookup ℕ_discrete
short_arrived = refl

short_messages-AllFrom : AllFrom short_server.sent short_messages
short_messages-AllFrom =
    rw short_sent (inr (inr (inl refl)), (inl refl, (inr (inr (inl refl)), tt)))

run-shown_example :
    let log =
      log_of leaves always_smaller ten_bytes twenty_bytes small_settings short_calls
        (ready small_settings (around 5))
        (λ q. last_state (ready small_settings (around 5))) in
    Same
      ((deliver_all leaves small_settings short_messages (new_client (λ name. nil))).shown 0)
      (or_nil (find 0 (log 2)))
    × (last_state short_server ≡ log short_server.latest_seq)
unfolding has_key
run-shown_example =
    run-shown leaves always_smaller ten_bytes twenty_bytes leaves-ComparesContents plain
      small_settings (around 5) short_calls short_messages (λ name. nil) 2 0 refl (λ k. tt)
      ((λ k. tt), (tt, ((λ k. tt), ((λ k. tt), tt)))) short_messages-AllFrom short_arrived refl

abbrev first_patches : Patches
first_patches =
    patches_between leaves always_smaller small_settings (entry 0 (leaf 5) end)
      (entry 0 (leaf 6) end)

abbrev started_client : Client
started_client =
    deliver leaves small_settings true false (receive_full_state 2 0 (entry 0 (leaf 5) end))
      (new_client (λ name. nil))

deliver_twice_example :
    let c' =
      deliver leaves small_settings true false (receive_patch 2 0 1 first_patches) started_client in
    IsUnchanged c' (deliver leaves small_settings true true (receive_patch 2 0 1 first_patches) c')
deliver_twice_example =
    deliver_twice leaves small_settings false true (receive_patch 2 0 1 first_patches)
      started_client
