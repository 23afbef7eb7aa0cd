-- ===== src/Forwarding/Remembered/Protocol.antt =====
-- The order in which the collections call the hand-over of remembered fields of one forwarding:
-- zRelocate.cpp and ZRemembered::scan_forwarding. The page is relocated, then its last reference is
-- released. Each YC visits the forwarding once while it marks, and can retain the page until then.
use zgc_primax.Base.{
  ℕ, ◌+◌, Bool, true, false, not, ◌&&◌, Option, none, some, List, [], ◌∷◌, ◌++◌, if◌then◌else◌,
}
use zgc_primax.Forwarding.Remembered.{
  Fields, new_fields, register, after_relocate, notify_concurrent_scan_of, applied_fields,
  apply_to_published,
}

pub record State : Type 0 where
  pub fields : Fields
  -- The OC has relocated all objects of the page, and has released it.
  pub relocated : Bool
  pub released : Bool
  -- The number of the YC, whether it marks, and whether it has visited the forwarding.
  pub young_seqnum : ℕ
  pub marks : Bool
  pub visited : Bool
  -- What has happened: the fields that the OC found while a YC marked and had not rejected them, the
  -- fields that a YC took, and whether a YC has scanned the page itself.
  pub found : List ℕ
  pub taken : List ℕ
  pub scanned : Bool

pub data Event : Type 0 where
  oc_finds : ℕ → Event
  oc_relocated oc_releases : Event
  yc_starts yc_visits yc_ends : Event

abbrev with_fields : (Fields → State) → Option Fields → Option State
with_fields next none = none
with_fields next (some f) = some (next f)

-- An event that cannot happen changes nothing. `none` is an assertion that fails.
unfoldable pub step : Event → State → Option State
step (oc_finds p) s =
    if s.marks && not s.relocated
    then with_fields
        (λ f. record s { fields = f; found = if s.scanned then s.found else s.found ++ p ∷ [] })
        (register p s.fields)
    else some s
step oc_relocated s =
    if s.relocated
    then some s
    else with_fields (λ f. record s { fields = f; relocated = true })
        (after_relocate s.young_seqnum s.marks s.fields)
step oc_releases s = if s.relocated then some (record s { released = true }) else some s
step yc_starts s =
    if s.marks
    then some s
    else some (record s { young_seqnum = s.young_seqnum + 1; marks = true; visited = false })
step yc_visits s =
    if s.marks && not s.visited
    then (if s.released
        then with_fields
            (λ f. record s {
              fields = f;
              visited = true;
              taken = s.taken ++ applied_fields s.fields;
            })
            (apply_to_published s.young_seqnum s.fields)
        else with_fields (λ f. record s { fields = f; visited = true; scanned = true })
            (notify_concurrent_scan_of s.fields))
    else some s
step yc_ends s = if s.visited then some (record s { marks = false }) else some s

unfoldable pub run : List Event → State → Option State
unfolding step
run [] s = some s
run (e ∷ es) s = elim (step e s) [ none ↦ none | some t ↦ run es t ]

-- Before the first YC, whose predecessor has the number 1.
unfoldable pub start : State
unfolding new_fields
start = record {
  fields = new_fields;
  relocated = false;
  released = false;
  young_seqnum = 1;
  marks = false;
  visited = true;
  found = [];
  taken = [];
  scanned = false;
}
