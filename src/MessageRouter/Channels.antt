-- ===== src/MessageRouter/Channels.antt =====
-- The ancestors of a channel.
use mathlib.Core.List.{append-nil, append_assoc}
use gfgdextension.Common.{
  ◌≡◌, sym, ◌∙◌, ◌⊎◌, inl, inr, ◌↔◌, List, [], ◌∷◌, ◌++◌, foldl, Has, Has-append,
}
use gfgdextension.Names.{Name}
use gfgdextension.Names.Prefixes.{IsAncestor, each_prefix_lem, prefixes, prefixes_iff}
use gfgdextension.MessageRouter.{channel_ancestors}

foldl-push : (found names : List Name) → foldl (λ f n. f ++ n ∷ []) found names ≡ found ++ names
foldl-push found [] = sym (append-nil found)
foldl-push found (n ∷ names) =
    foldl-push (found ++ n ∷ []) names ∙ append_assoc found (n ∷ []) names

pub channel_ancestors_lem : (c : Name) → channel_ancestors c ≡ prefixes [] c ++ c ∷ []
unfolding channel_ancestors
channel_ancestors_lem c = rw (
  each_prefix_lem (λ (f : List Name) (n : Name). f ++ n ∷ []) c [],
  foldl-push [] (prefixes [] c),
)

-- A channel's ancestors are the channel itself and the texts before its full stops.
pub channel_ancestors_iff : (c b : Name) → Has b (channel_ancestors c) ↔ ((b ≡ c) ⊎ IsAncestor b c)
channel_ancestors_iff c b =
    let split = Has-append b (prefixes [] c) (c ∷ []) in
    let proper = prefixes_iff c b in
    rw (channel_ancestors_lem c) (
      λ h. elim (split.0 h) [
        | inl early ↦ inr (proper.0 early)
        | inr (inl last) ↦ inl last
        | inr (inr e) ↦ absurd e
      ],
      elim [ inl same ↦ split.1 (inr (inl same)) | inr a ↦ split.1 (inl (proper.1 a)) ],
    )
