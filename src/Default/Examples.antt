-- ===== src/Default/Examples.antt =====
-- The default allocator on concrete calls, and its theorems at them.
use allocator_bench.Base.{◌≡◌, refl, true, false, some, List, [], ◌∷◌, arith, ok, stop, Returns}
use allocator_bench.Radix
use allocator_bench.Radix.{RadixTree, leaf, node, list_init}
use allocator_bench.Radix.Spec.{occurs}
use allocator_bench.Blocks.{
  update, insert_addr_list, locate, rejoin, take_block, split_block, use_block, alloc_block,
  merge_prev, merge_next, free_block,
}
use allocator_bench.Default.{
  Allocator, va_reservation_size, initial_block, init, account, alloc, free, free_at_cursor,
  destroy,
}
use allocator_bench.Default.Valid.{IsValid, Outcome, FreeOutcome, alloc-Outcome, free-FreeOutcome}
use allocator_bench.Default.Live.{live, set_live, AllocLive, alloc-AllocLive, free-live, AreApart}
use allocator_bench.Default.Session.{
  IsNew, init-IsNew, alloc_request, free_request, run, run-IsValid, Restored, free-alloc,
  destroy-stop, Request, serve,
}
use allocator_bench.Default.Runs.{run-AreApart, run-Restored}

-- A reservation at 4096 of which nothing is in use.
abbrev fresh : Allocator
fresh = record {
  pool = record {
    addr_list = initial_block 4096 ∷ [];
    size_tree = record {
      root = node (list_init va_reservation_size 4096) leaf leaf;
      key_bits = 63;
    };
  };
  total_va_size = va_reservation_size;
  used_va_size = 0;
}

-- After a first allocation of 100 bytes.
abbrev busy : Allocator
busy = record {
  pool = record {
    addr_list =
        record { start_addr = 4096; size = 100; is_free = false }
        ∷ record { start_addr = 4196; size = 4294967196; is_free = true }
        ∷ [];
    size_tree = record { root = node (list_init 4294967196 4196) leaf leaf; key_bits = 63 };
  };
  total_va_size = va_reservation_size;
  used_va_size = 100;
}

-- The whole code, run.
init_runs : init true (some 4096) true ≡ ok (some fresh)
unfolding init Radix.init Radix.insert Radix.is_linked Radix.insert_loop
init_runs = refl

alloc_runs : alloc true 100 fresh ≡ ok (4096, busy)
unfolding alloc account alloc_block use_block split_block take_block update insert_addr_list locate
    Radix.find_geq Radix.find_loop Radix.get_smaller_node Radix.is_bit_set Radix.insert
    Radix.is_linked Radix.insert_loop Radix.remove Radix.remove_node Radix.remove_primary Radix.cut
alloc_runs = refl

free_runs : free 4096 busy ≡ ok fresh
unfolding free free_at_cursor free_block merge_prev merge_next rejoin locate Radix.insert
    Radix.is_linked Radix.insert_loop Radix.remove Radix.remove_node Radix.remove_primary Radix.cut
free_runs = refl

fresh-IsValid : IsValid 4096 fresh
unfolding occurs
fresh-IsValid = record {
  blocks = record {
    tiles = omega arith;
    apart = ((λ e. cc), tt);
    valid = omega arith;
    bits = refl;
    nodes = λ k i. ground arith;
    bounded = omega arith;
  };
  reserved = refl;
  counted = refl;
  not_null = omega arith;
}

busy-IsValid : IsValid 4096 busy
unfolding occurs
busy-IsValid = record {
  blocks = record {
    tiles = omega arith;
    apart = ((λ e. cc), ((λ e. cc), tt));
    valid = omega arith;
    bits = refl;
    nodes = λ k i. ground arith;
    bounded = omega arith;
  };
  reserved = refl;
  counted = refl;
  not_null = omega arith;
}

run-IsValid_example : Returns (IsValid 4096) (
    run
      (alloc_request true 7 ∷ free_request 9 ∷ alloc_request false 3 ∷ free_request 4096 ∷ [])
      fresh)
run-IsValid_example =
    run-IsValid
      (alloc_request true 7 ∷ free_request 9 ∷ alloc_request false 3 ∷ free_request 4096 ∷ []) fresh
      fresh-IsValid

alloc-AllocLive_example : Returns (AllocLive 4096 50 busy) (alloc true 50 busy)
alloc-AllocLive_example = alloc-AllocLive busy-IsValid true 50

free-live_example :
    Returns (λ s. IsValid 4096 s × (live s ≡ set_live 4096 0 (live busy))) (free 4096 busy)
free-live_example = free-live busy-IsValid 4096

alloc-Outcome_example : Returns (Outcome 4096 true 50 busy) (alloc true 50 busy)
alloc-Outcome_example = alloc-Outcome busy-IsValid true 50

free-FreeOutcome_example : Returns (FreeOutcome 4096 4096 busy) (free 4096 busy)
free-FreeOutcome_example = free-FreeOutcome busy-IsValid 4096

free-alloc_example : Returns (Restored fresh) (free 4096 busy)
free-alloc_example = free-alloc fresh-IsValid true 100 4096 busy alloc_runs (omega arith)

init-IsNew_example : Returns (IsNew 4096) (init true (some 4096) true)
init-IsNew_example = init-IsNew 4096 (omega arith) (omega arith)

destroy-stop_example : destroy busy ≡ stop
destroy-stop_example = destroy-stop busy busy-IsValid

-- The blocks of 100 and 50 bytes, and then the first one back, with a third one between or not.
abbrev straight : List Request
straight = alloc_request true 100 ∷ alloc_request true 50 ∷ free_request 4096 ∷ []

abbrev detour : List Request
detour =
    alloc_request true 100
    ∷ alloc_request true 50
    ∷ alloc_request true 30
    ∷ free_request 4246
    ∷ free_request 4096
    ∷ []

abbrev one_left : Allocator
one_left = record {
  pool = record {
    addr_list =
        record { start_addr = 4096; size = 100; is_free = true }
        ∷ record { start_addr = 4196; size = 50; is_free = false }
        ∷ record { start_addr = 4246; size = 4294967146; is_free = true }
        ∷ [];
    size_tree = record {
      root = node (list_init 100 4096) (node (list_init 4294967146 4246) leaf leaf) leaf;
      key_bits = 63;
    };
  };
  total_va_size = va_reservation_size;
  used_va_size = 50;
}

straight_runs : run straight fresh ≡ ok one_left
unfolding run serve alloc account alloc_block use_block split_block take_block update
    insert_addr_list locate Radix.find_geq Radix.find_loop Radix.get_smaller_node Radix.is_bit_set
    Radix.insert Radix.is_linked Radix.insert_loop Radix.remove Radix.remove_node
    Radix.remove_primary Radix.cut free free_at_cursor free_block merge_prev merge_next rejoin
straight_runs = refl

detour_runs : run detour fresh ≡ ok one_left
unfolding run serve alloc account alloc_block use_block split_block take_block update
    insert_addr_list locate Radix.find_geq Radix.find_loop Radix.get_smaller_node Radix.is_bit_set
    Radix.insert Radix.is_linked Radix.insert_loop Radix.remove Radix.remove_node
    Radix.remove_primary Radix.cut free free_at_cursor free_block merge_prev merge_next rejoin
detour_runs = refl

run-AreApart_example : Returns (AreApart 4096) (run detour fresh)
run-AreApart_example = run-AreApart 4096 fresh (omega arith) (omega arith) init_runs detour

run-Restored_example : Restored one_left one_left
run-Restored_example =
    run-Restored 4096 fresh (omega arith) (omega arith) init_runs straight detour one_left one_left
      straight_runs detour_runs (λ f u. refl)
