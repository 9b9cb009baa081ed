-- ===== src/MessageRouter/Scenarios.antt =====
-- A bus with three listeners: 7 on "Fx" for the whole branch, 8 on "Fx.Hit" exactly, and 9, which is
-- no longer valid, on "Fx.Hit".
use gfgdextension.Common.{
  ℕ, ◌≡◌, refl, ◌⊎◌, inl, ◌↔◌, ◌≢◌, [], ◌∷◌, map, Bool, true, not, ◌==◌, lookup, insert, erase,
  ℕ_discrete, arith, Has, keep,
}
use gfgdextension.Names.{Name, name_dec, find_dot, index_of_dot}
use gfgdextension.Names.Prefixes.{each_prefix, IsAncestor}
use gfgdextension.MessageRouter.{
  GameplayMessageRouter, match_exact, match_partial, new_router, register_listener, add_listener,
  unregister_listener, broadcast, collect, visit_bucket, sweep, store, bucket, has_listeners,
  is_empty, channel_ancestors,
}
use gfgdextension.MessageRouter.Channels.{channel_ancestors_iff}
use gfgdextension.MessageRouter.Sweep.{is_live, heard_all}
use gfgdextension.MessageRouter.Delivery.{Hears, broadcast_calls, broadcast_iff}
use gfgdextension.MessageRouter.Pruning.{has_listeners_iff, broadcast_prunes}
use gfgdextension.MessageRouter.Handles.{IsValid, new_router-IsValid}
use gfgdextension.MessageRouter.Registering.{register_listener-IsValid, unregister-register}
use gfgdextension.MessageRouter.Unregistering.{unregister_listener-IsValid}
use gfgdextension.MessageRouter.Dropping.{broadcast-IsValid}

abbrev fx : Name
fx = 70 ∷ 120 ∷ []

abbrev fx_hit : Name
fx_hit = 70 ∷ 120 ∷ 46 ∷ 72 ∷ []

-- Every callable was valid at registration; 9 is not any more at the broadcast.
abbrev at_first : ℕ → Bool
at_first c = true

abbrev valid_now : ℕ → Bool
valid_now c = not (c == 9)

abbrev one_listener : GameplayMessageRouter ℕ
one_listener = (register_listener at_first new_router fx 7 match_partial).0

abbrev two_listeners : GameplayMessageRouter ℕ
two_listeners = (register_listener at_first one_listener fx_hit 8 match_exact).0

abbrev payload : ℕ
payload = 5

abbrev bus : GameplayMessageRouter ℕ
bus = (register_listener at_first two_listeners fx_hit 9 match_exact).0

fx_hit_named : fx_hit ≢ []
fx_hit_named e = ground (arith, e)

ancestors_run : channel_ancestors fx_hit ≡ fx ∷ fx_hit ∷ []
unfolding channel_ancestors each_prefix find_dot index_of_dot
ancestors_run = refl

broadcast_run :
    (broadcast valid_now bus fx_hit payload).1 ≡ (7, fx_hit, payload) ∷ (8, fx_hit, payload) ∷ []
unfolding broadcast collect visit_bucket sweep store new_router register_listener add_listener
    insert erase lookup name_dec ℕ_discrete channel_ancestors each_prefix find_dot index_of_dot
broadcast_run = refl

bus-IsValid : IsValid bus
bus-IsValid = register_listener-IsValid at_first two_listeners fx_hit 9 match_exact (
    register_listener-IsValid at_first one_listener fx_hit 8 match_exact
      (register_listener-IsValid at_first new_router fx 7 match_partial new_router-IsValid))

channel_ancestors_iff_example :
    Has fx (channel_ancestors fx_hit) ↔ ((fx ≡ fx_hit) ⊎ IsAncestor fx fx_hit)
channel_ancestors_iff_example = channel_ancestors_iff fx_hit fx

broadcast_iff_example :
    Has {A = ℕ × Name × ℕ} (7, fx_hit, payload) (broadcast valid_now bus fx_hit payload).1
    ↔ Hears valid_now bus fx_hit 7
broadcast_iff_example = broadcast_iff valid_now bus fx_hit payload 7 fx_hit_named

broadcast_calls_example :
    (broadcast valid_now bus fx_hit payload).1
    ≡ map (λ f. (f, fx_hit, payload)) (heard_all valid_now bus fx_hit (channel_ancestors fx_hit))
broadcast_calls_example = broadcast_calls valid_now bus fx_hit payload fx_hit_named

has_listeners_iff_example :
    has_listeners valid_now bus fx_hit ≡ not (is_empty (broadcast valid_now bus fx_hit payload).1)
has_listeners_iff_example = has_listeners_iff valid_now bus fx_hit payload fx_hit_named

broadcast_prunes_example :
    bucket (broadcast valid_now bus fx_hit payload).0 fx_hit
    ≡ keep (is_live valid_now) (bucket bus fx_hit)
broadcast_prunes_example =
    broadcast_prunes valid_now bus fx_hit fx_hit payload fx_hit_named (inl refl)

register_listener-IsValid_example : IsValid (register_listener at_first bus fx 9 match_exact).0
register_listener-IsValid_example =
    register_listener-IsValid at_first bus fx 9 match_exact bus-IsValid

unregister_listener-IsValid_example : IsValid (unregister_listener bus 2)
unregister_listener-IsValid_example = unregister_listener-IsValid bus 2 bus-IsValid

broadcast-IsValid_example : IsValid (broadcast valid_now bus fx_hit payload).0
broadcast-IsValid_example = broadcast-IsValid valid_now bus fx_hit payload bus-IsValid

unregister-register_example :
    bucket (unregister_listener two_listeners 2) fx_hit ≡ bucket one_listener fx_hit
unfolding register_listener new_router add_listener
unregister-register_example =
    unregister-register at_first one_listener fx_hit 8 match_exact fx_hit
      (register_listener-IsValid at_first new_router fx 7 match_partial new_router-IsValid)
