-- ===== src/VirtualMemory/Tests.antt =====
-- An address space of 1600 with granules of 2.
use zgc_primax.Base.{◌+◌, ◌≡◌, refl, true, some, [], ◌∷◌, arith, leb, ◌||◌, add64, sub64}
use zgc_primax.Memory.{Manager, no_callbacks, free}
use zgc_primax.VirtualMemory.{
  Space, reserve, reserve_at, reserve_range, calculate_min_range, reserve_loop,
  reserve_discontiguous, contiguous_loop, reserve_contiguous, reserve_size, alloc_memory,
}
use zgc_primax.VirtualMemory.Reserve.{ReserveOutcome, reserve-ReserveOutcome}
use zgc_primax.VirtualMemory.RoundTrip.{IsRestored, free_memory-alloc_memory}

-- The system gives what ends at 300 or starts at 800 or above.
abbrev space : Space
space = record {
  offset_max = 1600;
  granule = 2;
  heap_limit = 1000;
  size_small = 4;
  pd_reserve = λ start size. leb (start + size) 300 || leb 800 start;
}

abbrev manager : Manager
manager = record { freelist = []; callbacks = no_callbacks; calls = [] }

reserve-ReserveOutcome_example :
    ReserveOutcome space (omega arith) (omega arith) 100 manager (reserve space 100 manager)
unfolding reserve_size
reserve-ReserveOutcome_example =
    reserve-ReserveOutcome space (omega arith) (omega arith) 100 manager (omega arith) refl

-- It has two pieces, which are all that it asks for.
two_pieces :
    reserve space 100 manager
    ≡ some (
      1000,
      true,
      record manager {
        freelist = record { start = 0; end = 296 } ∷ record { start = 812; end = 1516 } ∷ [];
      },
    )
unfolding reserve reserve_contiguous contiguous_loop reserve_at reserve_discontiguous reserve_loop
    reserve_range calculate_min_range reserve_size free add64 sub64 no_callbacks
two_pieces = refl

abbrev given : Manager
given = record manager { freelist = record { start = 100; end = 300 } ∷ [] }

free_memory-alloc_memory_example : IsRestored given (alloc_memory space 6 true given)
free_memory-alloc_memory_example =
    free_memory-alloc_memory 1600 (omega arith) space 6 true given (omega arith)
      (omega arith, omega arith, omega arith)
