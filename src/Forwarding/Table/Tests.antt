-- ===== src/Forwarding/Table/Tests.antt =====
-- A forwarding table of four entries, and three threads, two of them with the same object.
use zgc_primax.Base.{
  ℕ, ◌≡◌, ◌<◌, refl, List, [], ◌∷◌, true, false, length, arith, get_or, IsAt, zero, suc, run_in,
  step_in, inl,
}
use zgc_primax.Forwarding.Entry.{
  new_entry, populated, from_index, to_offset, encode, decode, new_entry_fields,
}
use zgc_primax.Forwarding.Table.{
  uint32_to_uint32, at, first, next, find, forwarded, relocates, relocate_step, find_read, exchange,
  insert_read,
}
use zgc_primax.Forwarding.Table.Probe.{IsTable}
use zgc_primax.Forwarding.Table.Agreement.{in_the_end, relocations_agree}
use zgc_primax.Forwarding.Table.Chained.{IsChained, no_entries-IsChained, in_the_end-IsChained}
use zgc_primax.Forwarding.Table.Ends.{FindOutcome, find-FindOutcome}

abbrev empty_table : List ℕ
empty_table = 0 ∷ 0 ∷ 0 ∷ 0 ∷ []

abbrev jobs : List (ℕ × ℕ)
jobs = (5, 100) ∷ (5, 200) ∷ (6, 300) ∷ []

-- The second thread stores its entry between the read and the exchange of the first one.
abbrev schedule : List (ℕ × Unit {0})
schedule = (0, tt) ∷ (1, tt) ∷ (1, tt) ∷ (0, tt) ∷ (0, tt) ∷ []

zeros : (p : ℕ) → get_or empty_table p 0 ≡ 0
zeros zero = refl
zeros (suc zero) = refl
zeros (suc (suc zero)) = refl
zeros (suc (suc (suc zero))) = refl
zeros (suc (suc (suc (suc p)))) = refl

empty_table-IsTable : IsTable 2 empty_table
empty_table-IsTable = record { size = refl; whole = λ p. inl (zeros p) }

first_done : IsAt 0 (forwarded 5 200) (in_the_end 2 schedule empty_table jobs).0
unfolding relocates relocate_step find_read exchange insert_read first next uint32_to_uint32
    new_entry encode decode populated from_index to_offset run_in step_in
first_done = refl

second_done : IsAt 1 (forwarded 5 200) (in_the_end 2 schedule empty_table jobs).0
unfolding relocates relocate_step find_read exchange insert_read first next uint32_to_uint32
    new_entry encode decode populated from_index to_offset run_in step_in
second_done = refl

-- What both have got.
abbrev got : ℕ
got = 200

relocations_agree_example : got ≡ got
relocations_agree_example =
    relocations_agree 2 schedule empty_table jobs 0 1 5 200 200 empty_table-IsTable
      ((omega arith, omega arith), ((omega arith, omega arith), ((omega arith, omega arith), tt)))
      first_done second_done

new_entry_fields_example :
    (populated (new_entry 5 200) ≡ true)
    × (from_index (new_entry 5 200) ≡ 5)
    × (to_offset (new_entry 5 200) ≡ 200)
new_entry_fields_example = new_entry_fields 5 200 (omega arith) (omega arith)

-- The table that two threads have left.
abbrev filled_table : List ℕ
filled_table = (in_the_end 2 schedule empty_table jobs).1

filled_table-Chained : IsTable 2 filled_table × IsChained 2 filled_table
filled_table-Chained =
    in_the_end-IsChained 2 schedule empty_table jobs empty_table-IsTable
      ((omega arith, omega arith), ((omega arith, omega arith), ((omega arith, omega arith), tt)))
      (no_entries-IsChained 2 empty_table zeros)

filled_table-free : (0 < length filled_table) × (populated (at filled_table 0) ≡ false)
unfolding relocates relocate_step find_read exchange insert_read first next uint32_to_uint32
    new_entry encode decode populated from_index to_offset run_in step_in
filled_table-free = (omega arith, refl)

filled_table-has : populated (at filled_table 3) ≡ true
unfolding relocates relocate_step find_read exchange insert_read first next uint32_to_uint32
    new_entry encode decode populated from_index to_offset run_in step_in
filled_table-has = refl

find-FindOutcome_example : FindOutcome 2 filled_table 5 (find filled_table 5)
find-FindOutcome_example =
    find-FindOutcome 2 filled_table 5 0 filled_table-Chained.0 filled_table-free.0
      filled_table-free.1 filled_table-Chained.1
