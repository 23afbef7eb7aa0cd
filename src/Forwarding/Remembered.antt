-- ===== src/Forwarding/Remembered.antt =====
-- The hand-over of remembered fields of zForwarding.cpp: the old collection (OC) gathers, while it
-- relocates a page, the fields that the young collection (YC) has to scan, and the YC takes them or
-- scans the page itself. An assertion that fails is `none`.
pub mod Protocol
pub mod HandOver
mod Tests
use zgc_primax.Base.{
  ℕ, Bool, true, false, Option, none, some, List, [], ◌∷◌, ◌++◌, ◌==◌, if◌then◌else◌,
}

-- `ZPublishState`
pub data PublishState : Type 0 where
  unset published reject accept : PublishState

-- The fields of `ZForwarding` with the prefix `_relocated_remembered_fields`.
pub record Fields : Type 0 where
  pub state : PublishState
  pub array : List ℕ
  pub publish_young_seqnum : ℕ

-- The part of the constructor of `ZForwarding`.
pub new_fields : Fields
new_fields = record { state = unset; array = []; publish_young_seqnum = 0 }

abbrev pub is_accept : PublishState → Bool
is_accept accept = true
is_accept _ = false

-- `relocated_remembered_fields_register`, which pushes at the end.
pub register : ℕ → Fields → Option Fields
register p f = elim f.state [
  | unset ↦ some (record f { array = f.array ++ p ∷ [] })
  | reject ↦ some f
  | _ ↦ none
]

-- `relocated_remembered_fields_publish`
pub publish : Fields → Option Fields
publish f = elim f.state [
  | unset ↦ some (record f { state = published })
  | reject ↦ some (record f { array = [] })
  | _ ↦ none
]

-- `relocated_remembered_fields_after_relocate`, with the number of the YC and whether it marks.
pub after_relocate : ℕ → Bool → Fields → Option Fields
unfolding publish
after_relocate young_seqnum young_marks f =
    let f' = record f { publish_young_seqnum = young_seqnum } in
    if young_marks then publish f' else some f'

-- `relocated_remembered_fields_notify_concurrent_scan_of`
pub notify_concurrent_scan_of : Fields → Option Fields
notify_concurrent_scan_of f = elim f.state [
  | unset ↦ some (record f { state = reject })
  | published ↦ some (record f { state = reject; array = [] })
  | reject ↦ some f
  | accept ↦ none
]

-- The fields to which `relocated_remembered_fields_apply_to_published` applies its function.
pub applied_fields : Fields → List ℕ
applied_fields f = elim f.state [ published ↦ f.array | _ ↦ [] ]

-- `relocated_remembered_fields_apply_to_published` for the YC with the given number.
pub apply_to_published : ℕ → Fields → Option Fields
apply_to_published young_seqnum f =
    let rest : List ℕ = elim f.state [ published ↦ [] | _ ↦ f.array ] in
    if f.publish_young_seqnum == 0
    then none
    else (if f.publish_young_seqnum == young_seqnum
        then (if is_accept f.state then none else some (record f { array = rest; state = reject }))
        else some (record f { array = rest; state = accept }))

-- `relocated_remembered_fields_is_concurrently_scanned`
pub is_concurrently_scanned : Fields → Bool
is_concurrently_scanned f = elim f.state [ reject ↦ true | _ ↦ false ]

-- `relocated_remembered_fields_published_contains`
pub published_contains : ℕ → List ℕ → Bool
published_contains p [] = false
published_contains p (elem ∷ array) =
    let later = published_contains p array in if elem == p then true else later
