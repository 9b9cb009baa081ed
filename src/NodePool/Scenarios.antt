-- ===== src/NodePool/Scenarios.antt =====
-- A pool of the node 5, which is in the tree under node 1.
use gfgdextension.Common.{
  ℕ, ◌≡◌, refl, [], ◌∷◌, some, none, true, false, if◌then◌else◌, ◌==◌, arith,
}
use gfgdextension.NodePool.{Tree, NodePool, has, acquire, release, run_deferred}
use gfgdextension.NodePool.Handing.{
  IsValid, acquire-IsValid, release-IsValid, acquire-release_detached,
}

abbrev scene : Tree
scene = record {
  alive = λ n. n == 5;
  parent = λ n. if n == 5 then some 1 else none;
  deferred = [];
  dying = [];
  next_id = 6;
  events = [];
}

abbrev pool : NodePool
pool = record { owned = 5 ∷ []; free_nodes = [] }

scene-IsValid : IsValid scene pool
unfolding IsValid
scene-IsValid = tt

acquire-IsValid_example :
    let r = acquire true 1 scene pool in
    IsValid r.0 r.1 × ((id : ℕ) → r.2 ≡ some id → has r.1.free_nodes id ≡ false)
acquire-IsValid_example = acquire-IsValid true 1 scene pool scene-IsValid

release-IsValid_example : let r = release (some 5) scene pool in IsValid r.0 r.1
release-IsValid_example = release-IsValid 5 scene pool (omega arith) scene-IsValid

acquire-release_detached_example :
    let r = release (some 5) scene pool in
    let a = acquire true 1 r.0 r.1 in
    (a.2 ≡ some 5) × ((run_deferred a.0.deferred a.0).parent 5 ≡ none)
unfolding has
acquire-release_detached_example = acquire-release_detached 5 1 true scene pool refl refl refl
