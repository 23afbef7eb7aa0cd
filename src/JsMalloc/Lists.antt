-- ===== src/JsMalloc/Lists.antt =====
-- The free blocks of a JSMallocZ as one list, the block freed last first, and the chains of links
-- that the heads of the size classes start.
use zgc_primax.Base.{
  ℕ, ◌+◌, ◌*◌, ◌/◌, ◌%◌, ◌^◌, ◌≤◌, ◌<◌, ◌≡◌, ◌≢◌, refl, ◌⊎◌, inl, inr, Bool, true, false, ◌==◌,
  if◌then◌else◌, List, [], ◌∷◌, All, total, length, arith, Bool-cases, ℕ_discrete,
}
use zgc_primax.Base.BitSets.{bit}
use zgc_primax.JsMalloc.{Pool, get_mapping, no_offset, num_lists, mbs, size_word, link_word}

pub record Block : Type 0 where
  pub address : ℕ
  pub size : ℕ

-- The blocks of one class.
unfoldable pub of_class : ℕ → List Block → List Block
of_class c [] = []
of_class c (b ∷ bs) = if get_mapping b.size == c then b ∷ of_class c bs else of_class c bs

-- The first block of a class, and the blocks without it.
pub data Takes (c : ℕ) (b : Block) : List Block → List Block → Type 0 where
  first : (bs : List Block) → get_mapping b.size ≡ c → Takes c b (b ∷ bs) bs
  later :
      (a : Block) {bs rest : List Block}
      → get_mapping a.size ≢ c
      → Takes c b bs rest
      → Takes c b (a ∷ bs) (a ∷ rest)

abbrev pub Apart : Block → Block → Type 0
Apart a b = (a.address + a.size ≤ b.address) ⊎ (b.address + b.size ≤ a.address)

abbrev pub AllApart : List Block → Type 0
AllApart [] = Unit
AllApart (b ∷ bs) = All (Apart b) bs × AllApart bs

-- What a head says: the offset of the first block.
abbrev pub head_offset : ℕ → ℕ
head_offset word = if word == 0 then no_offset else word / 2 ^ 32

-- The links from that offset lead through these blocks, and no further.
abbrev pub Chain : ℕ → (ℕ → ℕ) → ℕ → List Block → Type 0
Chain start memory offset [] = offset ≡ no_offset
Chain start memory offset (b ∷ bs) =
    (offset < no_offset)
    × (b.address ≡ start + offset)
    × Chain start memory (memory (link_word b.address) % 2 ^ 32) bs

abbrev pub is_cons : List Block → Bool
is_cons [] = false
is_cons (b ∷ bs) = true

pub record IsBlock (p : Pool) (b : Block) : Type 0 where
  pub least : mbs ≤ b.size
  pub unflagged : b.size % 4 ≡ 0
  pub starts : p.block_start ≤ b.address
  pub ends : b.address + b.size ≤ p.block_start + p.pool_size
  pub marked : p.memory (size_word b.address) ≡ b.size + 1

-- The pool is that of these free blocks.
pub record Holds (p : Pool) (free : List Block) : Type 0 where
  pub small : p.pool_size < no_offset
  pub fits : p.block_start + p.pool_size < 2 ^ 64
  pub chains :
      (c : ℕ)
      → c ≤ num_lists
      → Chain p.block_start p.memory (head_offset (p.blocks c)) (of_class c free)
  pub versions : (c : ℕ) → c ≤ num_lists → p.blocks c % 2 ^ 32 + length (of_class c free) < 2 ^ 32
  pub bits : (c : ℕ) → c < 64 → bit c p.fl_bitmap ≡ is_cons (of_class c free)
  pub bitmap : p.fl_bitmap < 2 ^ 64
  pub blocks : All (IsBlock p) free
  pub apart : AllApart free
  pub room : total (λ b. b.size) free ≤ p.pool_size

pub of_class_same :
    (b : Block) (bs : List Block)
    → of_class (get_mapping b.size) (b ∷ bs) ≡ b ∷ of_class (get_mapping b.size) bs
unfolding of_class
of_class_same b bs = ground arith

pub of_class_other :
    (c : ℕ) (b : Block) (bs : List Block)
    → get_mapping b.size ≢ c
    → of_class c (b ∷ bs) ≡ of_class c bs
unfolding of_class
of_class_other c b bs ne = ground arith

pub of_class-All {κ} :
    (P : Block → Type κ) (c : ℕ) (bs : List Block) → All P bs → All P (of_class c bs)
unfolding of_class
of_class-All P c [] h = tt
of_class-All P c (b ∷ bs) h = elim (Bool-cases (get_mapping b.size == c)) [
  | inl e ↦ rw e (h.0, of_class-All P c bs h.1)
  | inr ne ↦ rw ne (of_class-All P c bs h.1)
]

pub length-of_class : (c : ℕ) (bs : List Block) → length (of_class c bs) ≤ length bs
unfolding of_class
length-of_class c [] = omega arith
length-of_class c (b ∷ bs) = elim (Bool-cases (get_mapping b.size == c)) [
  | inl e ↦ rw e (omega (arith, length-of_class c bs))
  | inr ne ↦ rw ne (omega (arith, length-of_class c bs))
]

-- Each block has `mbs` bytes at least, so there are few of them.
pub length-le-total :
    (p : Pool) (bs : List Block) → All (IsBlock p) bs → length bs * 16 ≤ total (λ b. b.size) bs
length-le-total p [] h = omega arith
length-le-total p (b ∷ bs) h = omega (arith, length-le-total p bs h.1, h.0.least)

-- A chain needs only its links.
pub Chain-memory :
    (start : ℕ) (m m' : ℕ → ℕ) (offset : ℕ) (bs : List Block)
    → All (λ b. m' (link_word b.address) ≡ m (link_word b.address)) bs
    → Chain start m offset bs
    → Chain start m' offset bs
Chain-memory start m m' offset [] h k = k
Chain-memory start m m' offset (b ∷ bs) h k =
    (k.0, k.1, rw (h.0) (Chain-memory start m m' (m (link_word b.address) % 2 ^ 32) bs h.1 k.2))

-- A class of the blocks without the first of a class.
pub of_class-Takes :
    (c d : ℕ) (b : Block) {bs rest : List Block}
    → Takes c b bs rest
    → of_class d bs ≡ (if c == d then b ∷ of_class d rest else of_class d rest)
unfolding of_class
of_class-Takes c d b (first bs e) = rw e refl
of_class-Takes c d b (later a {bs} {rest} ne t) = ground (arith, of_class-Takes c d b t)

pub Takes-All {κ} :
    (P : Block → Type κ) (c : ℕ) (b : Block) {bs rest : List Block}
    → Takes c b bs rest
    → All P bs
    → P b × All P rest
Takes-All P c b (first bs e) h = h
Takes-All P c b (later a {bs} {rest} ne t) h = let r = Takes-All P c b t h.1 in (r.0, (h.0, r.1))

pub total-Takes :
    (f : Block → ℕ) (c : ℕ) (b : Block) {bs rest : List Block}
    → Takes c b bs rest
    → total f bs ≡ f b + total f rest
total-Takes f c b (first bs e) = refl
total-Takes f c b (later a ne t) = omega (arith, total-Takes f c b t)

Apart-symm : (a b : Block) → Apart a b → Apart b a
Apart-symm a b (inl h) = inr h
Apart-symm a b (inr h) = inl h

pub Takes-AllApart :
    (c : ℕ) (b : Block) {bs rest : List Block}
    → Takes c b bs rest
    → AllApart bs
    → All (Apart b) rest × AllApart rest
Takes-AllApart c b (first bs e) h = h
Takes-AllApart c b (later a {bs} {rest} ne t) h =
    let r = Takes-AllApart c b t h.1 in
    let s = Takes-All (Apart a) c b t h.0 in ((Apart-symm a b s.0, r.0), (s.1, r.1))

pub Takes-get_mapping :
    (c : ℕ) (b : Block) {bs rest : List Block} → Takes c b bs rest → get_mapping b.size ≡ c
Takes-get_mapping c b (first bs e) = e
Takes-get_mapping c b (later a ne t) = Takes-get_mapping c b t

-- A class that is not empty has a first block.
pub takes :
    (c : ℕ) (bs : List Block)
    → is_cons (of_class c bs) ≡ true
    → (b : Block) × (rest : List Block) × Takes c b bs rest
unfolding of_class
takes c [] h = absurd (cc)
takes c (b ∷ bs) h = elim (ℕ_discrete (get_mapping b.size) c) [
  | yes e ↦ (b, bs, first bs e)
  | no ne ↦ let r = takes c bs (ground arith) in (r.0, b ∷ r.1, later b ne r.2)
]
