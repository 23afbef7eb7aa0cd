-- ===== src/Forwarding/Remembered/Tests.antt =====
-- Runs of the hand-over of remembered fields at concrete events.
use zgc_primax.Base.{ℕ, ◌≡◌, refl, Bool, true, false, Option, none, some, List, [], ◌∷◌, ◌⊎◌}
use zgc_primax.Forwarding.Remembered.{
  register, after_relocate, notify_concurrent_scan_of, apply_to_published, applied_fields,
  is_concurrently_scanned, published_contains,
}
use zgc_primax.Forwarding.Remembered.Protocol.{
  State, Event, oc_finds, oc_relocated, oc_releases, yc_starts, yc_visits, run, start,
}
use zgc_primax.Forwarding.Remembered.HandOver.{IsHandedOver, run-IsHandedOver}

-- A YC marks while the page is relocated, and visits the forwarding after its release.
abbrev published_run : List Event
published_run = yc_starts ∷ oc_finds 8 ∷ oc_finds 16 ∷ oc_relocated ∷ oc_releases ∷ yc_visits ∷ []

abbrev seen : Option State → List ℕ × Bool
seen none = ([], false)
seen (some s) = (s.taken, s.scanned)

published_taken : seen (run published_run start) ≡ (8 ∷ 16 ∷ [], false)
unfolding run start register after_relocate notify_concurrent_scan_of apply_to_published
    applied_fields
published_taken = refl

-- A YC scans the page between the two fields.
scanned_taken :
    seen (run (yc_starts ∷ oc_finds 8 ∷ yc_visits ∷ oc_finds 16 ∷ oc_relocated ∷ []) start)
    ≡ ([], true)
unfolding run start register after_relocate notify_concurrent_scan_of apply_to_published
    applied_fields
scanned_taken = refl

contains_last : published_contains 16 (8 ∷ 16 ∷ []) ≡ true
unfolding published_contains
contains_last = refl

run-IsHandedOver_example :
    (s : State) × (run published_run start ≡ some s)
    × (IsHandedOver s
        ⊎ ((s.visited ≡ false) × (s.marks ≡ true) × (is_concurrently_scanned s.fields ≡ false)))
run-IsHandedOver_example = run-IsHandedOver published_run
