-- ===== src/Arenas/Examples.antt =====
-- The arenas on concrete states, and their theorems at them.
use allocator_bench.Base.{
  ℕ, ◌+◌, ◌-◌, ◌^◌, Bool, List, ◌≡◌, refl, true, false, some, [], ◌∷◌, Run, ok, stop,
}
use allocator_bench.Avl
use allocator_bench.Avl.{leaf, node}
use allocator_bench.Radix
use allocator_bench.Blocks
use allocator_bench.Objects
use allocator_bench.Objects.{Reservation, ObjAllocator}
use allocator_bench.Arenas
use allocator_bench.Tracker
use allocator_bench.Tracker.{
  Nodes, Tracker, TrackerNode, zeroed, entry, store, tree_node, compare_addresses,
}
use allocator_bench.Arenas.{
  ArenaReservation, Arena, Allocator, Outside, Strategy, objects, arena_info, arena_info_table,
  get_arena_idx_for_size, first_class, new_arenas,
}

abbrev empty_tracker : Tracker
empty_tracker = record { tree = Avl.initialize compare_addresses; lo = 0; after_hi = 2 ^ 57 }

abbrev empty : Allocator
empty = record {
  arenas = new_arenas 0 arena_info_table;
  total_va_size = 0;
  used_va_size = 0;
  res_tracker = empty_tracker;
  nodes = λ id. zeroed;
}

abbrev outside : Outside
outside = record {
  reservation = some 1000;
  va = 2 ^ 30;
  first = true;
  second = true;
  third = true;
  block = λ id. true;
}

abbrev index_or : ℕ → Run ℕ → ℕ
index_or d (ok k) = k
index_or d stop = d

classes :
    (get_arena_idx_for_size 0 ≡ ok 0)
    × (get_arena_idx_for_size 512 ≡ ok 0)
    × (get_arena_idx_for_size 513 ≡ ok 1)
    × (get_arena_idx_for_size (2 ^ 40) ≡ ok 7)
unfolding get_arena_idx_for_size first_class
classes = (refl, refl, refl, refl)

-- What the allocation leaves: a reservation of 8 MB in the fourth arena, with a used block.
abbrev place : Reservation
place = record { size = 8388608; addr = 2 ^ 30; node_addr = 2 ^ 30 }

abbrev busy_objects : ObjAllocator
busy_objects = record {
  pool = record {
    addr_list =
        record { start_addr = 2 ^ 30; size = 3000; is_free = false }
        ∷ (record { start_addr = 2 ^ 30 + 3000; size = 8385608; is_free = true } ∷ []);
    size_tree = record {
      root = Radix.node (Radix.list_init 8385608 (2 ^ 30 + 3000)) Radix.leaf Radix.leaf;
      key_bits = 63;
    };
  };
  parent_reservation = place;
}

abbrev range : TrackerNode
range = entry (2 ^ 30) 8388608 1000

abbrev arena : (idx max size : ℕ) → Bool → List ArenaReservation → Arena
arena idx max size is_slab reservations = record {
  info = arena_info max size;
  idx = idx;
  is_slab = is_slab;
  reservations = reservations;
}

abbrev busy : Allocator
busy = record {
  arenas =
      arena 0 512 (2 ^ 21) true []
      ∷ (arena 1 1024 (2 ^ 21) true []
          ∷ (arena 2 2048 (2 ^ 22) true []
              ∷ (arena 3 4096 (2 ^ 23) false (
                    record {
                      id = 1000;
                      size = 8388608;
                      addr = 2 ^ 30;
                      strategy = objects busy_objects;
                    }
                    ∷ [])
                  ∷ (arena 4 (2 ^ 16) (2 ^ 25) false []
                      ∷ (arena 5 (2 ^ 21) (2 ^ 26) false []
                          ∷ (arena 6 (2 ^ 35) (2 ^ 39) false []
                              ∷ (arena 7 (2 ^ 64 - 1) (2 ^ 31) false [] ∷ [])))))));
  total_va_size = 8388608;
  used_va_size = 3000;
  res_tracker = record empty_tracker {
    tree = record {
      compare = compare_addresses;
      root = node leaf (tree_node 1000 (2 ^ 30)) 1 leaf;
    };
  };
  nodes = store (λ id. zeroed) 1000 range;
}
