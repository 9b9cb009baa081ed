-- ===== src/Lib.antt =====
-- A model of the core of GFGDExtension, a gameplay framework for Godot 4 in C++: the message router, the
-- gameplay tags, the inventory with its quick bar and the equipment, the node pool, and the delta replicator.
--
-- The parts, and where the files model them:
-- - Names: StringNames as lists of code points, and their parts between full stops, which tags and
--   channels share (Names/Prefixes, Names/Parents for the dotted ancestors).
-- - MessageRouter: src/framework/gameplay_message_router.{h,cpp}. The state is the map of listeners by
--   channel, the map of handles and the next handle; `register_listener`, `unregister_listener`,
--   `broadcast`, `has_listeners` and `clear` are functions of that state. A broadcast returns the calls
--   that it makes, in order. Callables are values of any type, with a validity that is an argument.
-- - Tags: src/gameplay_tags/gameplay_tag.{h,cpp}. Tags/Manager is
--   src/gameplay_tags/gameplay_tags_manager.{h,cpp} with gameplay_tag_table.{h,cpp}, Tags/Container
--   gameplay_tag_container.{h,cpp}, Tags/Count gameplay_tag_count_container.{h,cpp}. A tag is an object
--   identity and a name. The manager hands out the tags that containers hold and counts count.
-- - Inventory/Replication: src/inventory/component_replication.{h,cpp}, who mirrors and who sends.
--   Inventory/Store has the data of src/inventory/inventory_manager_component.{h,cpp} and its reads,
--   Inventory/Operations what changes an inventory on the server, Inventory/Mirroring what travels and
--   what a mirror makes of it, with the stats of inventory_item_instance.{h,cpp}. Inventories and
--   instances are shared objects, so they stand in a store under their identities, and the signals that
--   a call emits are listed in it. Inventory/Stacks, Adding, Fitting, Conserving and Stats have the
--   proofs.
-- - Inventory/QuickBar: src/inventory/quick_bar_component.{h,cpp}; Inventory/QuickBar/Messages has its
--   replication and the signals that it listens to. What the bar reads of the inventory and of the
--   equipment manager beside it is an argument, `Neighbours`.
-- - Inventory/Equipment: src/inventory/equipment_manager_component.{h,cpp} with equipment_instance.h. The ability
--   system that it grants from and the definitions are arguments; Inventory/Equipment/Mirroring has the proofs.
-- - NodePool: src/framework/node_pool.{h,cpp}, over the part of the scene tree that it works on: who is
--   alive, who has a parent, and the calls that wait for the end of the frame.
-- - DeltaReplicator: src/framework/delta_replicator.{h,cpp}. DeltaReplicator/Values has the engine's
--   Variants and `same`, DeltaReplicator/Patches `make_patch` and `apply_patch`.
--   DeltaReplicator/Server is the node on the server, with `record_state` in Server/Recording, what is
--   sent and acknowledged in Server/Sending, and the calls that it gets in Server/Running;
--   DeltaReplicator/Client is the node on a client. The two meet in the messages, which are values:
--   DeltaReplicator/System runs a server with a log of its states beside it, and delivers its messages
--   to a client. DeltaReplicator/Sameness, Typing, Entries, Applying, RoundTrip, Keyed, and Trimming,
--   Sends, Keeping, Reaching, Logging, Speaking, Completing under Server and Agreement, Showing,
--   Converging, Repeating under Client have the proofs.
-- - Common: shared names, tests on numbers, lists, association lists for Godot's maps.
--
-- Bounds and fuel. Numbers that the source keeps in int or int64_t are natural numbers: counts,
-- handles and ids stay below the limits of their types, whose overflow is not modelled, except for the
-- int in which `can_add_item_definition` sums up the room, which wraps around; -1 and null are `none`.
-- A loop over a name has the length of the name as fuel, since each round shortens it; the loop that
-- opens stacks has the number of units left, since each round takes one at least; the loop that cycles
-- through slots has the number of slots, since each round moves by one slot around the bar, and being
-- out of rounds is told apart from being back at the start; the loop that takes all the equipment off
-- has the number of instances.
--
-- Assumed of the engine: HashMap and Dictionary keep the last value written under a key, HashSet holds
-- an id once, arrays behave as lists, and a deferred call runs at the end of the frame. `strip_edges`,
-- the engine's sort, the resource loader, the validity of a Callable, the state of the network and
-- what a scene or a factory makes are arguments. A Variant that is neither null nor a container, and a
-- key, is a number that stands for it; an element of a keyed array whose key is no such value counts
-- as having none; the type and `==` of Variants, which `same` puts together, and the lengths that
-- `var_to_bytes` gives are arguments. `==` is taken to compare contents and not the element types of
-- containers; writes into a typed container succeed, so theorems on patches speak of values of one
-- kind, whose containers in one place have the same element types. Times are counted in ticks.
-- Listeners of signals and called callables do not call back into the object while it works.
--
-- Not modelled: bindings and editor code, errors and warnings that are only printed, the free-form
-- data of item instances, the scenes that equipment spawns, the abilities, movement, input, the
-- relevance of nodes (net_replication), the world and its network driver, save games, and the debug
-- tools.
pub mod Common
pub mod DeltaReplicator
pub mod Inventory
pub mod MessageRouter
pub mod Names
pub mod NodePool
pub mod Tags
