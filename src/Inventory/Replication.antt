-- ===== src/Inventory/Replication.antt =====
-- inventory/component_replication.{h,cpp}: who mirrors, who sends, and to which peers. What the world
-- and the multiplayer API answer is an argument.
use gfgdextension.Common.{ℕ, List, [], ◌∷◌, Bool, true, false, not, ◌&&◌, ◌||◌, if◌then◌else◌, ◌==◌}

pub data Audience : Type 0 where
  audience_none audience_owner audience_everyone : Audience

-- `in_world` says that the node is in the tree of a `World`. `owner_peer` is `get_net_owner_peer` of
-- the parent, `connected` the peers of the multiplayer API, `sender` the remote sender, 0 for none.
pub record Network : Type 0 where
  pub in_world : Bool
  pub networked : Bool
  pub authority : Bool
  pub owner_peer : ℕ
  pub connected : List ℕ
  pub sender : ℕ

abbrev pub is_none : Audience → Bool
is_none audience_none = true
is_none _ = false

abbrev pub is_owner : Audience → Bool
is_owner audience_owner = true
is_owner _ = false

unfoldable pub is_mirror : Network → Audience → Bool
is_mirror net audience =
    if is_none audience then false else net.in_world && net.networked && not net.authority

unfoldable pub is_sending_server : Network → Audience → Bool
is_sending_server net audience =
    if is_none audience then false else net.in_world && net.networked && net.authority

-- The server's peer, outside a world.
abbrev pub server_peer_id : ℕ
server_peer_id = 1

pub get_owner_peer : Network → ℕ
get_owner_peer net = if net.in_world then net.owner_peer else server_peer_id

pub has_peer : ℕ → List ℕ → Bool
has_peer p [] = false
has_peer p (q ∷ qs) = p == q || has_peer p qs

-- The loop over the subscribers: whom to send to, and who is still connected.
pub split_peers : Network → Audience → List ℕ → List ℕ × List ℕ
split_peers net audience [] = ([], [])
split_peers net audience (peer ∷ rest) =
    let (peers, kept) = split_peers net audience rest in
    if not (has_peer peer net.connected)
    then (peers, kept)
    else if is_owner audience && not (peer == get_owner_peer net)
    then (peers, peer ∷ kept)
    else (peer ∷ peers, peer ∷ kept)

-- The peers, and the subscribers with those gone taken out.
pub resolve_peers : Network → Audience → List ℕ → List ℕ × List ℕ
resolve_peers net audience [] = ([], [])
resolve_peers net audience (p ∷ subscribers) =
    if is_none audience then ([], p ∷ subscribers) else split_peers net audience (p ∷ subscribers)

pub sender_is_owner : Network → Bool
sender_is_owner net = net.sender == get_owner_peer net
