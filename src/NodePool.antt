-- ===== src/NodePool.antt =====
-- framework/node_pool.{h,cpp}: the pool of nodes, with the part of the scene tree that it works on. What
-- the scene or the factory makes is a new node; whether it makes one is an argument, as is the node that
-- a path to the container leads to. A node's own `_on_acquired` and `_on_released` do not call the pool.
mod Handing
mod Scenarios
use gfgdextension.Common.{
  ℕ, zero, suc, ◌+◌, List, [], ◌∷◌, ◌++◌, Option, none, some, Bool, true, false, not, ◌&&◌, ◌||◌,
  if◌then◌else◌, ◌==◌, length, keep, is_some,
}

pub data Event : Type 0 where
  on_acquired node_acquired on_released node_released : ℕ → Event

-- Nodes by their instance ids. `deferred` are the calls of `detach_deferred` that wait for the end of
-- the frame, `dying` the nodes that `queue_free` was called on.
pub record Tree : Type 0 where
  pub alive : ℕ → Bool
  pub parent : ℕ → Option ℕ
  pub deferred : List ℕ
  pub dying : List ℕ
  pub next_id : ℕ
  pub events : List Event

-- `free_nodes` has the last one first.
pub record NodePool : Type 0 where
  pub owned : List ℕ
  pub free_nodes : List ℕ

unfoldable pub has : List ℕ → ℕ → Bool
has [] id = false
has (x ∷ xs) id = x == id || has xs id

-- The first occurrence goes.
unfoldable pub erase_id : ℕ → List ℕ → List ℕ
erase_id id [] = []
erase_id id (x ∷ xs) = let rest = erase_id id xs in if x == id then xs else x ∷ rest

abbrev pub set_parent : ℕ → Option ℕ → Tree → Tree
set_parent id container t = record t { parent = λ n. if n == id then container else t.parent n }

abbrev pub tell : List Event → Tree → Tree
tell events t = record t { events = t.events ++ events }

unfoldable pub create_node : Bool → Tree → Tree × Option ℕ
create_node makes t =
    if makes
    then (
      record t {
        alive = λ n. if n == t.next_id then true else t.alive n;
        parent = λ n. if n == t.next_id then none else t.parent n;
        next_id = t.next_id + 1;
      },
      some t.next_id,
    )
    else (t, none)

-- `_ready`: the nodes made in advance, until one is not made.
unfoldable pub ready : ℕ → (ℕ → Bool) → Tree → NodePool → Tree × NodePool
ready zero makes t p = (t, p)
ready (suc n) makes t p =
    let (t', made) = create_node (makes n) t in
    elim made [
      | none ↦ (t', p)
      | some id ↦
          ready n makes t' (record { owned = p.owned ++ id ∷ []; free_nodes = id ∷ p.free_nodes })
    ]

unfoldable pub resolve_container : Option ℕ → ℕ → ℕ
resolve_container none pool_node = pool_node
resolve_container (some container) pool_node = container

-- The loop of `acquire`: the first free node that is still there, and the pool without those gone.
unfoldable pub take_free : (ℕ → Bool) → List ℕ → List ℕ → Option ℕ × NodePool
take_free alive [] owned = (none, record { owned = owned; free_nodes = [] })
take_free alive (id ∷ free) owned =
    let rest = take_free alive free (erase_id id owned) in
    if alive id then (some id, record { owned = owned; free_nodes = free }) else rest

-- The end of `acquire`, for the node to hand out.
unfoldable pub hand_out : ℕ → ℕ → Tree → Tree
hand_out container id t =
    tell (on_acquired id ∷ node_acquired id ∷ [])
      (if is_some (t.parent id) then t else set_parent id (some container) t)

-- A new node is handed out, if one was made.
unfoldable pub acquire_new : ℕ → NodePool → Tree × Option ℕ → Tree × NodePool × Option ℕ
acquire_new container p (t, none) = (t, p, none)
acquire_new container p (t, some id) =
    (hand_out container id t, record p { owned = p.owned ++ id ∷ [] }, some id)

unfoldable pub acquire_found : Bool → ℕ → Tree → Option ℕ × NodePool → Tree × NodePool × Option ℕ
acquire_found makes container t (some id, p) = (hand_out container id t, p, some id)
acquire_found makes container t (none, p) = acquire_new container p (create_node makes t)

unfoldable pub acquire : Bool → ℕ → Tree → NodePool → Tree × NodePool × Option ℕ
acquire makes container t p =
    acquire_found makes container t (take_free t.alive p.free_nodes p.owned)

unfoldable pub let_go : ℕ → Tree → Tree
let_go id t =
    let t1 = if is_some (t.parent id) then record t { deferred = t.deferred ++ id ∷ [] } else t in
    tell (on_released id ∷ node_released id ∷ []) t1

-- For a null node nothing happens.
unfoldable pub release : Option ℕ → Tree → NodePool → Tree × NodePool
release none t p = (t, p)
release (some id) t p =
    if has p.free_nodes id
    then (t, p)
    else (let_go id t, record p { free_nodes = id ∷ p.free_nodes })

unfoldable pub release_each : List ℕ → Tree → NodePool → Tree × NodePool
release_each [] t p = (t, p)
release_each (id ∷ ids) t p =
    let (t', p') = if t.alive id && is_some (t.parent id) then release (some id) t p else (t, p) in
    release_each ids t' p'

unfoldable pub release_all : Tree → NodePool → Tree × NodePool
release_all t p = release_each p.owned t p

-- The nodes die at the end of the frame.
unfoldable pub clear : Tree → NodePool → Tree × NodePool
clear t p =
    (record t { dying = t.dying ++ keep t.alive p.owned }, record { owned = []; free_nodes = [] })

unfoldable pub is_active : Tree → NodePool → ℕ → Bool
is_active t p id = not (has p.free_nodes id) && t.alive id

unfoldable pub get_active : Tree → NodePool → List ℕ
get_active t p = keep (is_active t p) p.owned

unfoldable pub count_active : Tree → NodePool → List ℕ → ℕ
count_active t p [] = 0
count_active t p (id ∷ ids) = (if is_active t p id then 1 else 0) + count_active t p ids

unfoldable pub get_active_count : Tree → NodePool → ℕ
get_active_count t p = count_active t p p.owned

unfoldable pub get_total_created : NodePool → ℕ
get_total_created p = length p.owned

unfoldable pub detach_deferred : ℕ → Tree → Tree
detach_deferred id t = if t.alive id then set_parent id none t else t

-- The deferred calls, at the end of the frame.
unfoldable pub run_deferred : List ℕ → Tree → Tree
run_deferred [] t = record t { deferred = [] }
run_deferred (id ∷ ids) t = run_deferred ids (detach_deferred id t)
