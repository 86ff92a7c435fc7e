-- ===== src/Lib.antt =====
-- A VA space allocator: it reserves a range of addresses and hands out parts of it.
--
-- The program. src/va_allocator_default.c keeps one reservation as a list of blocks in the order
-- of their addresses, and the free blocks in a radix tree under their sizes (utils/radix.c).
-- `default_alloc` takes the best fit from the tree and splits it; `default_free` merges the block
-- with its free neighbours. src/va_allocator_arenas.c keeps reservations by size class, cut into
-- blocks of one size (a slab, whose blocks are bits of utils/bitvector.c) or managed by an object
-- allocator (the code of the default allocator again); utils/addrtracker.c, over utils/avl.c,
-- leads from an address to its reservation. src/va_allocator.c chooses between the two.
--
-- The files.
--   Base            names and lemmas that the others share: Boolean tests, lists, single bits of a
--                   number, and `Run`, a result or `stop`.
--   Radix           utils/radix.c: radixTreeInit, Insert, FindGEQ, Remove and their helpers.
--     Spec          when a tree is valid, and how often a node occurs in it under a key.
--     Insert, Candidates, Find, Remove, Digits      the proofs about one operation each, and about
--                   digits.
--   Blocks          the list of blocks with its size tree: insert_addr_list, remove_addr_list, and
--                   the parts of default_alloc and default_free that work on the two.
--     Spec          the invariant: the blocks tile the reservation, no two free blocks are
--                   neighbours, and the tree holds exactly the free blocks.
--     Walk, Taken, Split, Alloc, Free, Canonical      the proofs.
--   Default         src/va_allocator_default.c: init_default_allocator, default_alloc,
--                   default_free, the two getters, default_destroy.
--     Valid         the allocator's invariant, and what each call does on every branch.
--     Live          the allocator as a client sees it: the ranges that are handed out.
--     Session       sequences of calls, a freed allocation, init and destroy.
--     Runs          what a client can count on from init on, after any sequence of calls.
--   Objects         src/va_allocator_arenas.c, the object allocator: initialize_obj_allocator,
--                   allocate_from_obj_allocator, free_to_obj_allocator.
--     Valid, Restore      its invariant and what each call does; a freed allocation.
--   Slab            src/va_allocator_arenas.c, the slab allocator: initialize_slab,
--                   allocate_from_slab, free_to_slab, deinitialize_slab.
--     Counts, Valid, Free      counts of bits; the invariant and what each call does.
--   Bitvector       utils/bitvector.c, all operations that change or read a vector.
--     Words, Bit    single bits of words; creation and the operations on one bit.
--     Ranges, Search      the masks of a range; the search for the lowest bit in it.
--   Avl             utils/avl.c, all operations: initialisation, the searches, InsertOrReturnExisting,
--                   Insert, Remove, the neighbours in order.
--     Spec, Sorted        balance and contexts; the list of the nodes in order and its operations.
--     Balance, Climb      the rebalancing of one node, and the loop up to the root.
--     Insert, Remove, Search, Neighbours, Shape      the proofs about the operations.
--   Tracker         utils/addrtracker.c, all operations: ranges of addresses in an AVL tree.
--     Spec          the invariant: the ranges lie apart and inside the tracker's.
--     Init, Lookup, Register, New      the comparison of addresses; the searches; the changes.
--     Restore       a range that is registered and unregistered.
--   Arenas          src/va_allocator_arenas.c, the rest: get_arena_idx_for_size,
--                   create_reservation, destroy_reservation, allocate_from_reservation,
--                   allocate_from_arena, arena_alloc, arena_free, the getters, arena_destroy,
--                   init_arena_allocator.
--     Spec          the invariant: each reservation is in the tracker and has a valid strategy.
--     Classes, Strategies, Create, Serve, Alloc, Free, Init      the proofs.
--   Dispatch        src/va_allocator.c: va_allocator_init, va_allocator_destroy, va_alloc, va_free
--                   and the getters, over the static tables of operations.
-- Each part has its runs at concrete values in Examples.
--
-- How state and effects are modelled. A handler takes the state and returns the new one. A failed
-- assertion and undefined behaviour (a shift by a wrapped count, a read of freed memory) are
-- `stop`. What `calloc` and `mmap` return is an argument. Nodes are named by their addresses,
-- which are numbers; `container_of` is the look-up of a name. A place in the AVL tree, which has
-- parent pointers, is the subtree there with the frames above it; the tracker's nodes are in a
-- memory, a function from names. NvU64 and uint64_t are natural numbers, and each sum or difference
-- that the code could wrap is taken modulo 2 ^ 64.
--
-- Bounds. The loops over the radix tree recur on the number of bits left, which is the code's
-- `cur_key_bit`, and the walks along lists on the list, so no fuel is used. The default allocator's
-- tree has 63 bits and its reservation 2 ^ 32 bytes; its range is taken to lie below 2 ^ 63, as
-- user addresses do. A bit vector has at most 2 ^ 64 - 64 bits, above which its rounding wraps.
--
-- The AVL tree's operations recur on the tree or on the frames above a place. The tracker compares
-- addresses by a signed difference of 64 bits, so its invariant keeps them below 2 ^ 63; the arenas'
-- tracker ends at 2 ^ 57.
--
-- Nodes that callers own. The code clears a node on insertion and follows a node's links on removal.
-- In the model a node is in a tree, or has no links: the insertion of one that is in the tree stops,
-- in the AVL tree and the radix tree; the removal of one that is not stops in the radix tree and
-- empties the AVL tree, as the code does with null links. A tracker's node has a field that says
-- whether it points to the tracker.
--
-- Not modelled. Printing; the tests and benchmarks; the debug check cuAvlTreeAssertValid, which runs
-- only where CU_AVLTREE_DEBUG is set, and it is 0. Assertions on what the model's types already say
-- are left out: that a node that comes into a radix tree has no links (radixTreeReplaceNode), and
-- that a reservation that was just made has no strategy (initialize_slab, initialize_obj_allocator).
-- What only frees memory (cubitvectorDestroy, deinitialize_obj_allocator) is left out. The locks of
-- the tracker are comments in the code.
pub mod Base
pub mod Radix
pub mod Blocks
pub mod Default
pub mod Objects
pub mod Slab
pub mod Bitvector
pub mod Avl
pub mod Tracker
pub mod Arenas
pub mod Dispatch
