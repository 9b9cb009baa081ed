-- ===== src/DeltaReplicator/Server/Completing.antt =====
-- The states that are recorded have a value for each property, of the kind of the property.
use gfgdextension.Common.{
  ℕ, ◌≡◌, refl, List, [], ◌∷◌, Option, none, some, Bool, true, false, not, ◌&&◌, if◌then◌else◌,
  if_holds, ◌==◌, lookup, ℕ_discrete, Bool-cases, Option-cases, inl, inr, arith, ◌∙◌,
}
use gfgdextension.DeltaReplicator.Values.{
  Schema, Conforms, ItemsConform, Engine, same, Variant, nil, Items, done, item, Entries, end,
  as_array, find, or_nil, put_entry, has_key,
}
use gfgdextension.DeltaReplicator.Entries.{find-put_entry}
use gfgdextension.DeltaReplicator.Patches.{element_key, index_by_key}
use gfgdextension.DeltaReplicator.Typing.{
  as_array-Conforms, AllConform, find-AllConform, index-AllConform,
}
use gfgdextension.DeltaReplicator.Server.{
  Settings, Server, is_nil, read_values, rebuilt_element, rebuilt_item, rebuild_items, array_or_nil,
  rebuild_keyed,
}
use gfgdextension.DeltaReplicator.Server.Recording.{
  taken, taken_marked, is_compared, new_value, record_each,
}
use gfgdextension.DeltaReplicator.Client.Agreement.{IsComplete}

find-read_values :
    (k : ℕ) (current : ℕ → Variant) (names : List ℕ) (found : Entries)
    → find k (read_values current names found)
      ≡ (if has_key k names then some (current k) else find k found)
unfolding read_values has_key
find-read_values k current [] found = refl
find-read_values k current (name ∷ names) found =
    let later = find-read_values k current names (put_entry name (current name) found) in
    let first = find-put_entry k name (current name) found in
    elim (Bool-cases (name == k)) [
      | inl e ↦
          let here : name ≡ k = ground (arith, e) in
          elim (Bool-cases (has_key k names)) [
            | inl d ↦ rw (later, e, d) refl
            | inr d ↦ rw (later, first, e, d, here) refl
          ]
      | inr e ↦ rw (later, first, e) refl
    ]

pub read_values-IsComplete :
    (σ : Schema) (s : Settings) (current : ℕ → Variant)
    → ((name : ℕ) → Conforms σ (σ.property_kind name) (current name))
    → IsComplete σ s (read_values current s.properties end)
unfolding IsComplete
read_values-IsComplete σ s current formed name inside =
    (current name, find-read_values name current s.properties end ∙ rw inside refl, formed name)

-- Items, if there are any.
abbrev FormedItems : Schema → ℕ → Option Items → Type 0
FormedItems σ q none = Unit
FormedItems σ q (some xs) = ItemsConform σ q xs

formed-rebuilt_item :
    (σ : Schema) (q : ℕ) (seen : Bool) (v : Variant) (rest : Option Items)
    → Conforms σ q v
    → FormedItems σ q rest
    → FormedItems σ q (rebuilt_item seen v rest)
formed-rebuilt_item σ q true v rest here later = tt
formed-rebuilt_item σ q false v none here later = tt
formed-rebuilt_item σ q false v (some rest) here later = (here, later)

formed-rebuilt_element :
    (σ : Schema) (q : ℕ) (marked : List ℕ) (old : Entries) (key : ℕ) (element : Variant)
    → AllConform σ q old
    → Conforms σ q element
    → Conforms σ q (rebuilt_element marked old key element)
formed-rebuilt_element σ q marked old key element h here =
    if_holds (Conforms σ q) (has_key key marked) _ _ (λ is_marked. here)
      (λ other. elim (Option-cases (find key old)) [
        | inl n ↦ rw n here
        | inr (v, n) ↦ rw n (find-AllConform σ q key v old h n)
      ])

formed-rebuild_items :
    (σ : Schema) (q : ℕ) (field : ℕ) (marked : List ℕ) (old : Entries) (seen : List ℕ) (xs : Items)
    → AllConform σ q old
    → ItemsConform σ q xs
    → FormedItems σ q (rebuild_items field marked old seen xs)
unfolding rebuild_items
formed-rebuild_items σ q field marked old seen done h here = tt
formed-rebuild_items σ q field marked old seen (item x xs) h here =
    elim (Option-cases (element_key field x)) [
      | inl n ↦ rw (rebuild_items, n) tt
      | inr (key, n) ↦
          rw (rebuild_items, n)
            (formed-rebuilt_item σ q (has_key key seen) (rebuilt_element marked old key x)
              (rebuild_items field marked old (key ∷ seen) xs)
              (formed-rebuilt_element σ q marked old key x h here.0)
              (formed-rebuild_items σ q field marked old (key ∷ seen) xs h here.1))
    ]

formed-array_or_nil :
    (σ : Schema) (q t : ℕ) (o : Option Items)
    → t ≡ σ.array_type q
    → FormedItems σ (σ.element_kind q) o
    → Conforms σ q (array_or_nil t o)
formed-array_or_nil σ q t none typed h = tt
formed-array_or_nil σ q t (some xs) typed h = (typed, h)

formed-rebuild_keyed :
    (σ : Schema) (q : ℕ) (old current : Variant) (field : ℕ) (marked : List ℕ)
    → Conforms σ q old
    → Conforms σ q current
    → Conforms σ q (rebuild_keyed old current field marked)
unfolding rebuild_keyed
formed-rebuild_keyed σ q old current field marked had has = elim (Option-cases (as_array current)) [
  | inl n ↦ rw (rebuild_keyed, n) tt
  | inr ((u, ys), n) ↦ elim (Option-cases (as_array old)) [
    | inl m ↦ rw (rebuild_keyed, n, m) tt
    | inr ((t, xs), m) ↦ elim (Option-cases (index_by_key field xs)) [
      | inl i ↦ rw (rebuild_keyed, n, m, i) tt
      | inr (es, i) ↦
          let (typed, olds) = as_array-Conforms σ q old t xs had m in
          let formed = index-AllConform σ (σ.element_kind q) field xs es olds i in
          rw (rebuild_keyed, n, m, i)
            (if_holds (Conforms σ q) (t == u) _ _
              (λ alike. formed-array_or_nil σ q t (rebuild_items field marked es [] ys) typed (
                formed-rebuild_items σ (σ.element_kind q) field marked es [] ys formed
                  (as_array-Conforms σ q current u ys has n).1))
              (λ other. tt))
    ]
  ]
]

module _ (σ : Schema) (engine : Engine) where
  formed-taken :
      (q : ℕ) (old current : Variant)
      → Conforms σ q old
      → Conforms σ q current
      → Conforms σ q (taken engine old current)
  unfolding taken
  formed-taken q old current had has =
      if_holds (Conforms σ q) (same engine old current) _ _ (λ e. had) (λ e. has)

  formed-taken_marked :
      (q : ℕ) (field : Option ℕ) (marked : List ℕ) (old current : Variant)
      → Conforms σ q old
      → Conforms σ q current
      → Conforms σ q (taken_marked engine field marked old current)
  unfolding taken_marked
  formed-taken_marked q none marked old current had has =
      if_holds (Conforms σ q) (is_nil nil && not (is_nil current)) _ _
        (λ e. formed-taken q old current had has) (λ e. tt)
  formed-taken_marked q (some f) marked old current had has =
      if_holds (Conforms σ q) (is_nil (rebuild_keyed old current f marked) && not (is_nil current))
        _ _ (λ e. formed-taken q old current had has)
        (λ e. formed-rebuild_keyed σ q old current f marked had has)

  formed-new_value :
      (q : ℕ) (s : Settings) (r : Server) (validate : Bool) (current : Variant) (name : ℕ)
      (old : Variant)
      → Conforms σ q old
      → Conforms σ q current
      → Conforms σ q (new_value engine s r validate current name old)
  unfolding new_value
  formed-new_value q s r validate current name old had has =
      if_holds (Conforms σ q) (is_compared s r name) _ _
        (λ compared. formed-taken q old current had has)
        (λ other. elim (Option-cases (lookup ℕ_discrete name r.dirty_elements)) [
          | inl n ↦ rw n (
              if_holds (Conforms σ q) validate _ _ (λ e. formed-taken q old current had has)
                (λ e. had))
          | inr (marked, n) ↦ rw n (
              formed-taken_marked q (lookup ℕ_discrete name s.keyed_arrays) marked old current had
                has)
        ])

  put-IsComplete :
      (s : Settings) (name : ℕ) (v : Variant) (es : Entries)
      → Conforms σ (σ.property_kind name) v
      → IsComplete σ s es
      → IsComplete σ s (put_entry name v es)
  unfolding IsComplete
  put-IsComplete s name v es formed h k inside =
      let (w, found, here) = h k inside in
      elim (Bool-cases (name == k)) [
        | inl e ↦
            let here : name ≡ k = ground (arith, e) in
            (v, find-put_entry k name v es ∙ rw e refl, rw (← here) formed)
        | inr e ↦ (w, find-put_entry k name v es ∙ rw e found, here)
      ]

  -- The next state is complete where the last is.
  pub record_each-IsComplete :
      (s : Settings) (r : Server) (validate : Bool) (current : ℕ → Variant) (last : Entries)
      (names : List ℕ) (next : Entries) (changed : Bool)
      → ((name : ℕ) → Conforms σ (σ.property_kind name) (current name))
      → ((name : ℕ) → has_key name names ≡ true → has_key name s.properties ≡ true)
      → IsComplete σ s last
      → IsComplete σ s next
      → IsComplete σ s (record_each engine s r validate current last names next changed).0
  unfolding record_each has_key IsComplete
  record_each-IsComplete s r validate current last [] next changed formed among whole h = h
  record_each-IsComplete s r validate current last (name ∷ names) next changed formed among whole
        h =
      let old = or_nil (find name last) in
      let new = new_value engine s r validate (current name) name old in
      let (v, found, here) = whole name (among name (ground arith)) in
      let new_formed : Conforms σ (σ.property_kind name) new =
        formed-new_value (σ.property_kind name) s r validate (current name) name old (rw found here)
          (formed name) in
      record_each-IsComplete s r validate current last names _ _ formed
        (λ k inside. among k (ground (arith, inside))) whole
        (if_holds (IsComplete σ s) (same engine old new) _ _ (λ e. h)
          (λ e. put-IsComplete s name new next new_formed h))
