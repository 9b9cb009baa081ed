-- ===== src/NodePool/Handing.antt =====
-- Who holds a node of the pool.
use gfgdextension.Common.{
  ℕ, ◌+◌, ◌≡◌, refl, List, [], ◌∷◌, ◌++◌, Option, none, some, Bool, true, false, ◌<◌, ◌==◌, length,
  keep, is_some, Bool-cases, inl, inr, arith, ◌∙◌,
}
use gfgdextension.NodePool.{
  Tree, NodePool, has, erase_id, take_free, acquire, acquire_found, acquire_new, release, let_go,
  hand_out, create_node, run_deferred, detach_deferred, get_active, get_active_count, count_active,
  is_active,
}

-- No node is free twice, and every free one was made.
abbrev pub IsFreeList : ℕ → List ℕ → Type 0
IsFreeList n [] = Unit
IsFreeList n (id ∷ ids) = (id < n) × (has ids id ≡ false) × IsFreeList n ids

unfoldable pub IsValid : Tree → NodePool → Type 0
IsValid t p = IsFreeList t.next_id p.free_nodes

-- The node that `take_free` finds is not free any more.
taken :
    (n : ℕ) (alive : ℕ → Bool) (free owned : List ℕ)
    → IsFreeList n free
    → let r = take_free alive free owned in
      IsFreeList n r.1.free_nodes
      × ((id : ℕ) → r.0 ≡ some id → (id < n) × (has r.1.free_nodes id ≡ false) × (alive id ≡ true))
unfolding take_free
taken n alive [] owned h = (tt, λ id e. absurd (ground (arith, e)))
taken n alive (x ∷ free) owned h = elim (Bool-cases (alive x)) [
  | inl e ↦ rw e (
    h.2,
    λ id same.
        let at : x ≡ id = ground (arith, same) in (rw (← at) h.0, rw (← at) h.1, rw (← at) e),
  )
  | inr e ↦ rw e (taken n alive free (erase_id x owned) h.2)
]

grown : (n : ℕ) (free : List ℕ) → IsFreeList n free → IsFreeList (n + 1) free
grown n [] h = tt
grown n (x ∷ free) h = (omega (arith, h.0), h.1, grown n free h.2)

fresh : (n : ℕ) (free : List ℕ) → IsFreeList n free → has free n ≡ false
unfolding has
fresh n [] h = refl
fresh n (x ∷ free) h = rw (fresh n free h.2) (ground (arith, h.0))

next-hand_out : (container id : ℕ) (t : Tree) → (hand_out container id t).next_id ≡ t.next_id
unfolding hand_out
next-hand_out container id t = ground arith

found-IsValid :
    (makes : Bool) (container : ℕ) (t : Tree) (r : Option ℕ × NodePool)
    → IsFreeList t.next_id r.1.free_nodes
    → ((id : ℕ) → r.0 ≡ some id → has r.1.free_nodes id ≡ false)
    → let u = acquire_found makes container t r in
      IsValid u.0 u.1 × ((id : ℕ) → u.2 ≡ some id → has u.1.free_nodes id ≡ false)
unfolding acquire_found acquire_new create_node IsValid
found-IsValid makes container t (some id, p) h out = (rw (next-hand_out container id t) h, out)
found-IsValid true container t (none, p) h out =
    let n = t.next_id in
    (
      rw (next-hand_out container n (create_node true t).0) (grown n p.free_nodes h),
      λ id same. let at : n ≡ id = ground (arith, same) in rw (← at) (fresh n p.free_nodes h),
    )
found-IsValid false container t (none, p) h out = (h, out)

next-let_go : (id : ℕ) (t : Tree) → (let_go id t).next_id ≡ t.next_id
unfolding let_go
next-let_go id t = ground arith

alive-let_go : (id : ℕ) (t : Tree) → (let_go id t).alive ≡ t.alive
unfolding let_go
alive-let_go id t = elim (Bool-cases (is_some (t.parent id))) [
  | inl e ↦ rw e refl
  | inr e ↦ rw e refl
]

parent-let_go : (id : ℕ) (t : Tree) → (let_go id t).parent ≡ t.parent
unfolding let_go
parent-let_go id t = elim (Bool-cases (is_some (t.parent id))) [
  | inl e ↦ rw e refl
  | inr e ↦ rw e refl
]

deferred-let_go :
    (id : ℕ) (t : Tree)
    → is_some (t.parent id) ≡ true
    → (let_go id t).deferred ≡ t.deferred ++ id ∷ []
unfolding let_go
deferred-let_go id t inside = rw inside refl

eq_self : (n : ℕ) → (n == n) ≡ true
eq_self n = ground arith

-- In a valid pool, where no free node stands twice, `acquire` leaves the pool valid, and the node that
-- it hands out is not free any more.
pub acquire-IsValid :
    (makes : Bool) (container : ℕ) (t : Tree) (p : NodePool)
    → IsValid t p
    → let r = acquire makes container t p in
      IsValid r.0 r.1 × ((id : ℕ) → r.2 ≡ some id → has r.1.free_nodes id ≡ false)
unfolding acquire IsValid
acquire-IsValid makes container t p h =
    let free = taken t.next_id t.alive p.free_nodes p.owned h in
    found-IsValid makes container t (take_free t.alive p.free_nodes p.owned) free.0
      (λ id e. (free.1 id e).1)

-- Releasing a node that was made leaves a valid pool valid, also when it was free before.
pub release-IsValid :
    (id : ℕ) (t : Tree) (p : NodePool)
    → id < t.next_id
    → IsValid t p
    → let r = release (some id) t p in IsValid r.0 r.1
unfolding release IsValid
release-IsValid id t p made h = elim (Bool-cases (has p.free_nodes id)) [
  | inl e ↦ rw e h
  | inr e ↦
      let below : id < (let_go id t).next_id = rw (next-let_go id t) made in
      let others : IsFreeList (let_go id t).next_id p.free_nodes = rw (next-let_go id t) h in
      rw e (below, e, others)
]

-- A second release of a node, right after the first, does nothing.
pub release_twice :
    (id : ℕ) (t : Tree) (p : NodePool)
    → let r = release (some id) t p in release (some id) r.0 r.1 ≡ r
unfolding release has
release_twice id t p = elim (Bool-cases (has p.free_nodes id)) [
  | inl e ↦ rw (e, e) refl
  | inr e ↦ rw (e, eq_self id) refl
]

alive-hand_out : (container id : ℕ) (t : Tree) → (hand_out container id t).alive id ≡ t.alive id
unfolding hand_out
alive-hand_out container id t = ground arith

deferred-hand_out :
    (container id : ℕ) (t : Tree)
    → is_some (t.parent id) ≡ true
    → (hand_out container id t).deferred ≡ t.deferred
unfolding hand_out
deferred-hand_out container id t inside = rw inside refl

alive-detach : (n id : ℕ) (t : Tree) → (detach_deferred n t).alive id ≡ t.alive id
unfolding detach_deferred
alive-detach n id t = ground arith

run-detach :
    (ids : List ℕ) (id : ℕ) (t : Tree)
    → t.alive id ≡ true
    → (run_deferred (ids ++ id ∷ []) t).parent id ≡ none
unfolding run_deferred detach_deferred
run-detach [] id t alive = rw (detach_deferred, alive, eq_self id) refl
run-detach (n ∷ ids) id t alive =
    run-detach ids id (detach_deferred n t) (rw (alive-detach n id t) alive)

last-detach :
    (waiting ids : List ℕ) (id : ℕ) (t : Tree)
    → waiting ≡ ids ++ id ∷ []
    → t.alive id ≡ true
    → (run_deferred waiting t).parent id ≡ none
last-detach waiting ids id t last alive = rw last (run-detach ids id t alive)

-- A node in the tree that is released and handed out again in the same frame is out of the tree when the frame ends: the detachment that its release deferred still runs.
pub acquire-release_detached :
    (id container : ℕ) (makes : Bool) (t : Tree) (p : NodePool)
    → t.alive id ≡ true
    → is_some (t.parent id) ≡ true
    → has p.free_nodes id ≡ false
    → let r = release (some id) t p in
      let a = acquire makes container r.0 r.1 in
      (a.2 ≡ some id) × ((run_deferred a.0.deferred a.0).parent id ≡ none)
unfolding release acquire acquire_found take_free
acquire-release_detached id container makes t p alive inside held =
    let in_hand : is_some ((let_go id t).parent id) ≡ true = rw (parent-let_go id t) inside in
    let still : (let_go id t).alive id ≡ true = rw (alive-let_go id t) alive in
    let after = hand_out container id (let_go id t) in
    let waits : after.deferred ≡ t.deferred ++ id ∷ [] =
      deferred-hand_out container id (let_go id t) in_hand ∙ deferred-let_go id t inside in
    let out : (run_deferred after.deferred after).parent id ≡ none =
      last-detach after.deferred t.deferred id after waits
        (rw (alive-hand_out container id (let_go id t)) still) in
    rw (held, still) (refl, out)

count-keep :
    (t : Tree) (p : NodePool) (ids : List ℕ)
    → count_active t p ids ≡ length (keep (is_active t p) ids)
unfolding count_active
count-keep t p [] = refl
count-keep t p (id ∷ ids) = ground (arith, count-keep t p ids)

-- `get_active_count` is the number of nodes that `get_active` lists.
pub get_active_count-get_active :
    (t : Tree) (p : NodePool) → get_active_count t p ≡ length (get_active t p)
unfolding get_active_count get_active
get_active_count-get_active t p = count-keep t p p.owned
