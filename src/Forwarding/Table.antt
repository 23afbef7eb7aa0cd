-- ===== src/Forwarding/Table.antt =====
-- The forwarding table of zForwarding.inline.hpp, with linear probing: `find` and `insert`, one access to
-- an entry at a time, and the hash of zHash.inline.hpp. A thread relocates one object, as `relocate_object`
-- of zRelocate.cpp does it with the table.
pub mod Probe
pub mod Agreement
pub mod Chained
pub mod Ends
mod Tests
use zgc_primax.Base.{
  ℕ, zero, suc, ◌+◌, ◌-◌, ◌*◌, ◌/◌, ◌%◌, ◌^◌, Bool, true, false, List, [], ◌∷◌, bit_and, bit_xor,
  ◌==◌, if◌then◌else◌, get_or, set, length,
}
use zgc_primax.Forwarding.Entry.{new_entry, populated, from_index, to_offset}

abbrev low32 : ℕ → ℕ
low32 a = a % 2 ^ 32

-- `ZHash::uint32_to_uint32`
pub uint32_to_uint32 : ℕ → ℕ
uint32_to_uint32 key =
    let a = low32 (2 ^ 32 - 1 - key + low32 (key * 2 ^ 15)) in
    let b = bit_xor a (a / 2 ^ 12) in
    let c = low32 (b + low32 (b * 2 ^ 2)) in
    let d = bit_xor c (c / 2 ^ 4) in let e = low32 (d * 2057) in bit_xor e (e / 2 ^ 16)

-- `at`
abbrev pub at : List ℕ → ℕ → ℕ
at entries cursor = get_or entries cursor 0

-- The cursors of `first` and `next`.
pub first : List ℕ → ℕ → ℕ
unfolding uint32_to_uint32
first entries from_index = bit_and (uint32_to_uint32 (low32 from_index)) (length entries - 1)

pub next : List ℕ → ℕ → ℕ
next entries cursor = bit_and (cursor + 1) (length entries - 1)

-- The loop of `find` with so many rounds: the cursor, and whether the loop has come to an end.
pub find_loop : ℕ → List ℕ → ℕ → ℕ → ℕ × Bool
unfolding next
find_loop zero entries key cursor = (cursor, false)
find_loop (suc rounds) entries key cursor =
    let later = find_loop rounds entries key (next entries cursor) in
    if populated (at entries cursor)
    then (if from_index (at entries cursor) == key then (cursor, true) else later)
    else (cursor, true)

-- `find`, with a round for each entry.
pub find : List ℕ → ℕ → ℕ × Bool
unfolding first find_loop
find entries key = find_loop (length entries) entries key (first entries key)

-- Where a thread is that relocates the object at an index to an offset: at a read of the loop of `find`, at
-- the exchange of `insert`, at a read of its loop, or done, with the offset that it has got.
pub data Relocation : Type 0 where
  finds : (key offset cursor : ℕ) → Relocation
  exchanges : (key offset cursor : ℕ) → Relocation
  searches : (key offset cursor : ℕ) → Relocation
  forwarded : (key offset : ℕ) → Relocation

-- The thread with the first cursor.
pub relocates : List ℕ → ℕ → ℕ → Relocation
unfolding first
relocates entries key offset = finds key offset (first entries key)

-- A read in the loop of `find`.
pub find_read : ℕ → ℕ → ℕ → List ℕ → Relocation
unfolding next
find_read key offset cursor entries =
    if populated (at entries cursor)
    then (if from_index (at entries cursor) == key
        then forwarded key (to_offset (at entries cursor))
        else finds key offset (next entries cursor))
    else exchanges key offset cursor

-- The exchange of `insert`, which stores the new entry where there is none.
pub exchange : ℕ → ℕ → ℕ → List ℕ → Relocation × List ℕ
exchange key offset cursor entries = (
  if populated (at entries cursor) then searches key offset cursor else forwarded key offset,
  if at entries cursor == 0 then set entries cursor (new_entry key offset) else entries,
)

-- A read in the inner loop of `insert`.
pub insert_read : ℕ → ℕ → ℕ → List ℕ → Relocation
unfolding next
insert_read key offset cursor entries =
    if populated (at entries cursor)
    then (if from_index (at entries cursor) == key
        then forwarded key (to_offset (at entries cursor))
        else searches key offset (next entries cursor))
    else exchanges key offset cursor

-- One step of a thread. There is one action.
unfoldable pub relocate_step : Relocation → Unit {0} → List ℕ → Relocation × List ℕ
unfolding find_read exchange insert_read
relocate_step (finds key offset cursor) u entries = (find_read key offset cursor entries, entries)
relocate_step (exchanges key offset cursor) u entries = exchange key offset cursor entries
relocate_step (searches key offset cursor) u entries =
    (insert_read key offset cursor entries, entries)
relocate_step (forwarded key offset) u entries = (forwarded key offset, entries)
