-- ===== src/Forwarding/Remembered/HandOver.antt =====
-- What the hand-over of remembered fields guarantees in every run of its protocol.
use zgc_primax.Base.{
  ℕ, ◌≤◌, ◌<◌, ◌≡◌, refl, ◌≢◌, ◌⊎◌, inl, inr, true, false, Option, none, some, List, [], ◌∷◌, arith,
  append-nil, Option-cases, subst,
}
use zgc_primax.Forwarding.Remembered.{
  unset, published, reject, accept, new_fields, register, publish, after_relocate,
  notify_concurrent_scan_of, applied_fields, apply_to_published, is_concurrently_scanned,
}
use zgc_primax.Forwarding.Remembered.Protocol.{
  State, Event, oc_finds, oc_relocated, oc_releases, yc_starts, yc_visits, yc_ends, step, run,
  start,
}

-- A YC has scanned the page itself, or has taken just the fields that were found.
abbrev pub IsHandedOver : State → Type 0
IsHandedOver s = ((s.scanned ≡ true) × (s.taken ≡ [])) ⊎ ((s.scanned ≡ false) × (s.taken ≡ s.found))

-- The fields wait in the array, and no YC has come.
abbrev IsWaiting : State → Type 0
IsWaiting s = (s.fields.array ≡ s.found) × (s.taken ≡ []) × (s.scanned ≡ false)

pub record Inv (s : State) : Type 0 where
  pub numbered : 0 < s.young_seqnum
  pub relocation :
      ((s.relocated ≡ false) × (s.released ≡ false))
      ⊎ ((s.relocated ≡ true)
          × (0 < s.fields.publish_young_seqnum)
          × (s.fields.publish_young_seqnum ≤ s.young_seqnum))
  pub while_unset :
      (s.fields.state ≢ unset)
      ⊎ (IsWaiting s
          × ((s.found ≡ []) ⊎ ((s.relocated ≡ false) × (s.marks ≡ true)))
          × ((s.marks ≡ false) ⊎ (s.visited ≡ false)))
  pub while_published :
      (s.fields.state ≢ published)
      ⊎ (IsWaiting s × (s.relocated ≡ true) × (s.marks ≡ true) × (s.visited ≡ false))
  pub while_reject :
      (s.fields.state ≢ reject) ⊎ (IsHandedOver s × ((s.scanned ≡ true) ⊎ (s.released ≡ true)))
  pub while_accept :
      (s.fields.state ≢ accept)
      ⊎ (IsHandedOver s × (s.released ≡ true) × (s.fields.publish_young_seqnum < s.young_seqnum))

abbrev after : State → Option State → State
after s none = s
after s (some t) = t

finds-Inv : (p : ℕ) (s : State) → Inv s → Inv (after s (step (oc_finds p) s))
unfolding step register publish after_relocate notify_concurrent_scan_of applied_fields
    apply_to_published
finds-Inv p s v = ground (arith, append-nil s.taken)

finds_some : (p : ℕ) (s : State) → Inv s → step (oc_finds p) s ≢ none
unfolding step register publish after_relocate notify_concurrent_scan_of applied_fields
    apply_to_published
finds_some p s v = ground arith

relocated-Inv : (s : State) → Inv s → Inv (after s (step oc_relocated s))
unfolding step register publish after_relocate notify_concurrent_scan_of applied_fields
    apply_to_published
relocated-Inv s v = ground (arith, append-nil s.taken)

relocated_some : (s : State) → Inv s → step oc_relocated s ≢ none
unfolding step register publish after_relocate notify_concurrent_scan_of applied_fields
    apply_to_published
relocated_some s v = ground arith

releases-Inv : (s : State) → Inv s → Inv (after s (step oc_releases s))
unfolding step register publish after_relocate notify_concurrent_scan_of applied_fields
    apply_to_published
releases-Inv s v = ground (arith, append-nil s.taken)

releases_some : (s : State) → Inv s → step oc_releases s ≢ none
unfolding step register publish after_relocate notify_concurrent_scan_of applied_fields
    apply_to_published
releases_some s v = ground arith

starts-Inv : (s : State) → Inv s → Inv (after s (step yc_starts s))
unfolding step register publish after_relocate notify_concurrent_scan_of applied_fields
    apply_to_published
starts-Inv s v = ground (arith, append-nil s.taken)

starts_some : (s : State) → Inv s → step yc_starts s ≢ none
unfolding step register publish after_relocate notify_concurrent_scan_of applied_fields
    apply_to_published
starts_some s v = ground arith

visits-Inv : (s : State) → Inv s → Inv (after s (step yc_visits s))
unfolding step register publish after_relocate notify_concurrent_scan_of applied_fields
    apply_to_published
visits-Inv s v = ground (arith, append-nil s.taken)

visits_some : (s : State) → Inv s → step yc_visits s ≢ none
unfolding step register publish after_relocate notify_concurrent_scan_of applied_fields
    apply_to_published
visits_some s v = ground arith

ends-Inv : (s : State) → Inv s → Inv (after s (step yc_ends s))
unfolding step register publish after_relocate notify_concurrent_scan_of applied_fields
    apply_to_published
ends-Inv s v = ground (arith, append-nil s.taken)

ends_some : (s : State) → Inv s → step yc_ends s ≢ none
unfolding step register publish after_relocate notify_concurrent_scan_of applied_fields
    apply_to_published
ends_some s v = ground arith

start-Inv : Inv start
unfolding start new_fields
start-Inv = ground arith

step-Inv : (e : Event) (s : State) → Inv s → Inv (after s (step e s))
step-Inv (oc_finds p) = finds-Inv p
step-Inv oc_relocated = relocated-Inv
step-Inv oc_releases = releases-Inv
step-Inv yc_starts = starts-Inv
step-Inv yc_visits = visits-Inv
step-Inv yc_ends = ends-Inv

step_some : (e : Event) (s : State) → Inv s → step e s ≢ none
step_some (oc_finds p) = finds_some p
step_some oc_relocated = relocated_some
step_some oc_releases = releases_some
step_some yc_starts = starts_some
step_some yc_visits = visits_some
step_some yc_ends = ends_some

run-Inv : (es : List Event) (s : State) → Inv s → (t : State) × (run es s ≡ some t) × Inv t
unfolding run
run-Inv [] s v = (s, refl, v)
run-Inv (e ∷ es) s v = elim (Option-cases (step e s)) [
  | inl n ↦ absurd (step_some e s v n)
  | inr (t, eq) ↦ rw (eq, run) (run-Inv es t (subst (λ o. Inv (after s o)) eq (step-Inv e s v)))
]

-- Whatever order the collections call the operations of one forwarding in, as the protocol lets them:
-- no assertion fails. A YC has scanned the page itself and taken nothing, or it has taken just the
-- fields that the OC found, in their order and each once, unless a YC marks that has not visited the
-- forwarding, and the fields do not count as scanned concurrently.
pub run-IsHandedOver :
    (es : List Event)
    → (s : State) × (run es start ≡ some s)
      × (IsHandedOver s
          ⊎ ((s.visited ≡ false) × (s.marks ≡ true) × (is_concurrently_scanned s.fields ≡ false)))
unfolding is_concurrently_scanned
run-IsHandedOver es = let (s, eq, v) = run-Inv es start start-Inv in (s, eq, ground arith)
