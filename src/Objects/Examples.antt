-- ===== src/Objects/Examples.antt =====
-- Runs of the object allocator, and its theorems at a reservation of 1000 bytes.
use allocator_bench.Base.{◌≡◌, refl, true, false, some, [], ◌∷◌, arith, ok, Returns}
use allocator_bench.Radix
use allocator_bench.Radix.{leaf, node, list_init}
use allocator_bench.Blocks.{
  alloc_block, use_block, split_block, take_block, update, insert_addr_list, locate,
}
use allocator_bench.Objects.{
  Reservation, ObjAllocator, first_block, initialize_obj_allocator, allocate_from_obj_allocator,
  free_to_obj_allocator, give,
}
use allocator_bench.Objects.Valid.{
  IsValid, IsNew, ObjOutcome, ObjFreeOutcome, initialize_obj_allocator-IsNew, allocate-ObjOutcome,
  free-ObjFreeOutcome,
}
use allocator_bench.Objects.Restore.{SameBlocks, free-allocate}

abbrev range : Reservation
range = record { size = 1000; addr = 4096; node_addr = 4096 }

abbrev fresh : ObjAllocator
fresh = record {
  pool = record {
    addr_list = first_block range ∷ [];
    size_tree = record { root = node (list_init 1000 4096) leaf leaf; key_bits = 63 };
  };
  parent_reservation = range;
}

abbrev busy : ObjAllocator
busy = record {
  pool = record {
    addr_list =
        record { start_addr = 4096; size = 100; is_free = false }
        ∷ record { start_addr = 4196; size = 900; is_free = true }
        ∷ [];
    size_tree = record { root = node (list_init 900 4196) leaf leaf; key_bits = 63 };
  };
  parent_reservation = range;
}

init_runs : initialize_obj_allocator true true range ≡ ok (some fresh)
unfolding initialize_obj_allocator Radix.init Radix.insert Radix.is_linked Radix.insert_loop
init_runs = refl

alloc_runs : allocate_from_obj_allocator true 100 fresh ≡ ok (4096, busy)
unfolding allocate_from_obj_allocator give alloc_block use_block split_block take_block update
    insert_addr_list locate Radix.find_geq Radix.find_loop Radix.get_smaller_node Radix.is_bit_set
    Radix.insert Radix.is_linked Radix.insert_loop Radix.remove Radix.remove_node
    Radix.remove_primary Radix.cut
alloc_runs = refl

-- `busy` is what the initialisation and one allocation come to, so it is valid.
fresh-IsValid : IsValid range fresh
fresh-IsValid =
    (rw init_runs at
      (initialize_obj_allocator-IsNew range (omega arith) (omega arith) (omega arith))).0

busy-IsValid : IsValid range busy
busy-IsValid =
    (rw alloc_runs at (allocate-ObjOutcome fresh-IsValid true 100 (omega arith) (omega arith))).0

initialize_obj_allocator-IsNew_example :
    Returns (IsNew range) (initialize_obj_allocator true true range)
initialize_obj_allocator-IsNew_example =
    initialize_obj_allocator-IsNew range (omega arith) (omega arith) (omega arith)

allocate-ObjOutcome_example :
    Returns (ObjOutcome range true 100 fresh) (allocate_from_obj_allocator true 100 fresh)
allocate-ObjOutcome_example = allocate-ObjOutcome fresh-IsValid true 100 (omega arith) (omega arith)

free-ObjFreeOutcome_example :
    Returns (ObjFreeOutcome range 4096 busy) (free_to_obj_allocator 4096 busy)
free-ObjFreeOutcome_example = free-ObjFreeOutcome busy-IsValid 4096 (omega arith) (omega arith)

free-allocate_example : Returns (SameBlocks fresh) (free_to_obj_allocator 4096 busy)
free-allocate_example =
    free-allocate fresh-IsValid true 100 4096 busy (omega arith) (omega arith) alloc_runs
      (omega arith)
