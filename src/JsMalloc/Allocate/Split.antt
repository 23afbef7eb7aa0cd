-- ===== src/JsMalloc/Allocate/Split.antt =====
-- The end of find_block of JSMallocZ: what is left of a block beyond the request becomes a block, if
-- it is large enough to be one.
use zgc_primax.Base.{
  ℕ, suc, ◌+◌, ◌-◌, ◌%◌, ◌≤◌, ◌<◌, ◌≡◌, refl, ◌∙◌, ◌⊎◌, inl, inr, true, false, leb, if◌then◌else◌,
  some, List, ◌∷◌, All, All-map, All-both, total, sub64, sub64_lem, arith, Bool-cases, le_of_leb,
}
use zgc_primax.JsMalloc.{Pool, write, size_word, link_word, get_size, is_last, mbs}
use zgc_primax.JsMalloc.Operations.{split_block, split_if_larger}
use zgc_primax.JsMalloc.Lists.{Block, Apart, Holds, IsBlock}
use zgc_primax.JsMalloc.Insert.{CanInsert, InsertedAs}
use zgc_primax.JsMalloc.Insert.Keeps.{insert_block-Holds}
use zgc_primax.JsMalloc.Allocate.{Holds-same}

flagged_size : (size : ℕ) → size % 4 ≡ 0 → get_size (size + 1) ≡ size
unfolding get_size
flagged_size size h = omega arith

flagged_last : (size : ℕ) → size % 4 ≡ 0 → is_last (size + 1) ≡ false
unfolding is_last
flagged_last size h = ground arith

even_size : (size : ℕ) → size % 4 ≡ 0 → get_size size ≡ size
unfolding get_size
even_size size h = omega arith

le→leb : (a b : ℕ) → a ≤ b → leb a b ≡ true
le→leb a b h = ground arith

-- The block cut to `a` bytes.
abbrev pub shrunk : Block → ℕ → Pool → Pool
shrunk b a q = record q {
  memory = write (write q.memory (size_word b.address) a) (size_word (b.address + a)) (b.size - a);
}

abbrev pub remainder : Block → ℕ → Block
remainder b a = record { address = b.address + a; size = b.size - a }

-- The free blocks after the request was cut off a block.
abbrev pub cut_free : Block → ℕ → List Block → List Block
cut_free b a rest = if leb mbs (b.size - a) then remainder b a ∷ rest else rest

-- A block that is not among the free ones of the pool any more.
pub record IsTaken (q : Pool) (rest : List Block) (b : Block) (a : ℕ) : Type 0 where
  pub holds : Holds q rest
  pub marked : q.memory (size_word b.address) ≡ b.size + 1
  pub unflagged : b.size % 4 ≡ 0
  pub starts : q.block_start ≤ b.address
  pub ends : b.address + b.size ≤ q.block_start + q.pool_size
  pub apart : All (Apart b) rest
  pub room : b.size + total (λ c. c.size) rest ≤ q.pool_size
  pub least : mbs ≤ a
  pub aligned : a % 4 ≡ 0
  pub enough : a ≤ b.size

-- Words outside of the block are as they were.
abbrev pub KeptOutside : Block → Pool → Pool → Type 0
KeptOutside b p q =
    (word : ℕ) → (word < b.address) ⊎ (b.address + b.size ≤ word) → q.memory word ≡ p.memory word

module _ {q : Pool} {rest : List Block} {b : Block} {a : ℕ} (t : IsTaken q rest b a) where
  size_before : get_size (q.memory (size_word b.address)) ≡ b.size
  size_before = rw t.marked (flagged_size b.size t.unflagged)

  surplus : sub64 (get_size (q.memory (size_word b.address))) a ≡ b.size - a
  surplus = rw size_before (sub64_lem b.size a t.enough (omega (arith, t.ends, t.holds.fits)))

  split_block_lem : split_block b.address a q ≡ (shrunk b a q, b.address + a)
  unfolding split_block
  split_block_lem =
      let flag : is_last (q.memory (size_word b.address)) ≡ false =
        rw t.marked (flagged_last b.size t.unflagged) in
      let size : get_size a ≡ a = even_size a t.aligned in rw (flag, size, surplus) refl

  module _ (large : mbs ≤ b.size - a) where
    shrunk_kept : KeptOutside b q (shrunk b a q)
    unfolding write
    shrunk_kept word (inl lt) = ground (arith, t.enough)
    shrunk_kept word (inr le) = ground (arith, t.enough, t.least)

    outside :
        (c : Block)
        → IsBlock q c × Apart b c
        → ((shrunk b a q).memory (size_word c.address) ≡ q.memory (size_word c.address))
          × ((shrunk b a q).memory (link_word c.address) ≡ q.memory (link_word c.address))
    outside c (k, inl le) = (shrunk_kept _ (inr (omega arith)), shrunk_kept _ (inr (omega arith)))
    outside c (k, inr le) =
        (shrunk_kept _ (inl (omega (arith, k.least))), shrunk_kept _ (inl (omega (arith, k.least))))

    shrunk-Holds : Holds (shrunk b a q) rest
    shrunk-Holds =
        Holds-same q (shrunk b a q) rest refl refl refl refl
          (All-map _ _ rest outside (All-both (IsBlock q) (Apart b) rest t.holds.blocks t.apart))
          t.holds

    remainder_apart : (c : Block) → Apart b c → Apart (remainder b a) c
    remainder_apart c (inl le) = inl (omega (arith, t.enough))
    remainder_apart c (inr le) = inr (omega arith)

    remainder_word : (shrunk b a q).memory (size_word (b.address + a)) ≡ b.size - a
    unfolding write
    remainder_word = ground arith

    remainder-CanInsert : CanInsert (shrunk b a q) rest (remainder b a)
    remainder-CanInsert = record {
      least = large;
      unflagged = omega (arith, t.unflagged, t.aligned, t.enough);
      starts = omega (arith, t.starts);
      ends = omega (arith, t.ends, t.enough);
      sized = remainder_word;
      apart = All-map (Apart b) _ rest remainder_apart t.apart;
      room = omega (arith, t.room);
    }

    -- The words outside of the block are not written by the insertion of the rest of it.
    kept_after :
        (c : ℕ) (r : Pool) → InsertedAs c (b.address + a) (shrunk b a q) r → KeptOutside b q r
    kept_after c r as' word (inl lt) =
        as'.kept word (ground arith) (ground arith) ∙ shrunk_kept word (inl lt)
    kept_after c r as' word (inr le) =
        as'.kept word (ground (arith, t.enough)) (ground (arith, t.enough))
        ∙ shrunk_kept word (inr le)

    large_split :
        (n : ℕ)
        → (r : Pool) × (split_if_larger (suc n) a b.address q ≡ some (r, some b.address))
          × Holds r (remainder b a ∷ rest)
          × (r.block_start ≡ q.block_start)
          × (r.pool_size ≡ q.pool_size)
          × KeptOutside b q r
    unfolding split_if_larger
    large_split n =
        let (r, e, as', holds) =
          insert_block-Holds n (shrunk b a q) rest (remainder b a) shrunk-Holds
            remainder-CanInsert in
        let test : leb mbs (sub64 (get_size (q.memory (size_word b.address))) a) ≡ true =
          rw surplus (le→leb mbs (b.size - a) large) in
        (
          r,
          rw (test, split_block_lem, e) refl,
          holds,
          as'.same_start,
          as'.same_size,
          kept_after _ r as',
        )

  -- The rest of the block is free again, if it can be a block. Nothing outside of it is written.
  pub split_if_larger-Holds :
      (n : ℕ)
      → (r : Pool) × (split_if_larger (suc n) a b.address q ≡ some (r, some b.address))
        × Holds r (cut_free b a rest)
        × (r.block_start ≡ q.block_start)
        × (r.pool_size ≡ q.pool_size)
        × KeptOutside b q r
  unfolding split_if_larger
  split_if_larger-Holds n = elim (Bool-cases (leb mbs (b.size - a))) [
    | inl large ↦ rw large (large_split (le_of_leb large) n)
    | inr small ↦
        let test : leb mbs (sub64 (get_size (q.memory (size_word b.address))) a) ≡ false =
          rw surplus small in
        rw small (q, rw test refl, t.holds, refl, refl, λ word h. refl)
  ]
