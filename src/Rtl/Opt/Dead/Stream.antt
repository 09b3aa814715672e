-- ===== src/Rtl/Opt/Dead/Stream.antt =====
-- The code stream of a unit as a doubly linked list of blocks, and how
-- rtl_opt_drop_dead_blocks() of src/rtl-opt.c takes a block out of it.
use libbinrec.Common.{
  ℕ, suc, ◌<◌, ◌≤◌, ◌≡◌, ◌≢◌, refl, ◌∙◌, List, [], ◌∷◌, length, ℤ, pos, negsuc, arith,
}
use libbinrec.Rtl.Unit.{BasicBlock}
use libbinrec.Rtl.Block.{update_block}
use libbinrec.Rtl.Block.Graph.{next_at, prev_at}
use libbinrec.Rtl.Block.Slots.{
  length-update, field_at-update_keep, field_at-update_self, field_at-update_ne,
}
use libbinrec.Rtl.Opt.Dead.{set_next, set_prev}

-- The first block of a list.
abbrev pub first : List ℕ → ℤ
first [] = negsuc 0
first (x ∷ l) = pos x

-- The last block of a list that follows block p.
abbrev pub final : ℤ → List ℕ → ℤ
final p [] = p
final p (x ∷ l) = final (pos x) l

-- The least index that may follow a list of blocks, given the last one first.
abbrev pub above : List ℕ → ℕ
above [] = 0
above (x ∷ l) = suc x

-- The blocks of a list, given the last one first, stand before block h in the code stream: real blocks
-- with rising indices below b.
abbrev pub Before : (ℕ → ℕ) → List BasicBlock → ℕ → ℤ → List ℕ → Type 0
Before own bs b h [] = Unit
Before own bs b h (y ∷ r) =
    (y < b)
    × (own y ≡ 0)
    × (y < length bs)
    × (next_at bs y ≡ h)
    × (prev_at bs y ≡ first r)
    × Before own bs y (pos y) r

-- The blocks of a list stand after block p and end the code stream, with rising indices from b on.
abbrev pub After : (ℕ → ℕ) → List BasicBlock → ℕ → ℤ → List ℕ → Type 0
After own bs b p [] = Unit
After own bs b p (x ∷ s) =
    (b ≤ x)
    × (own x ≡ 0)
    × (x < length bs)
    × (next_at bs x ≡ first s)
    × (prev_at bs x ≡ p)
    × After own bs (suc x) (pos x) s

-- Block k is linked in one state as in the other.
abbrev pub SameLinks : List BasicBlock → List BasicBlock → ℕ → Type 0
SameLinks bs bs' k = (next_at bs' k ≡ next_at bs k) × (prev_at bs' k ≡ prev_at bs k)

module _ (own : ℕ → ℕ) (bs bs' : List BasicBlock) (size : length bs' ≡ length bs) where
  pub Before-same :
      (b : ℕ) (h : ℤ) (r : List ℕ)
      → ((k : ℕ) → k < b → SameLinks bs bs' k)
      → Before own bs b h r
      → Before own bs' b h r
  Before-same b h [] same l = tt
  Before-same b h (y ∷ r) same l = (
    l.0,
    l.1,
    omega (arith, l.2, size),
    (same y l.0).0 ∙ l.3,
    (same y l.0).1 ∙ l.4,
    Before-same y (pos y) r (λ k lt. same k (omega (arith, l.0))) l.5,
  )

  pub After-same :
      (b : ℕ) (p : ℤ) (s : List ℕ)
      → ((k : ℕ) → b ≤ k → SameLinks bs bs' k)
      → After own bs b p s
      → After own bs' b p s
  After-same b p [] same l = tt
  After-same b p (x ∷ s) same l = (
    l.0,
    l.1,
    omega (arith, l.2, size),
    (same x l.0).0 ∙ l.3,
    (same x l.0).1 ∙ l.4,
    After-same (suc x) (pos x) s (λ k le. same k (omega (arith, l.0))) l.5,
  )

pub After-lower :
    (own : ℕ → ℕ) (bs : List BasicBlock) (b c : ℕ) (p : ℤ) (s : List ℕ)
    → c ≤ b
    → After own bs b p s
    → After own bs c p s
After-lower own bs b c p [] le l = tt
After-lower own bs b c p (x ∷ s) le l = (omega (arith, l.0), l.1, l.2, l.3, l.4, l.5)

pub Before-higher :
    (own : ℕ → ℕ) (bs : List BasicBlock) (b c : ℕ) (h : ℤ) (r : List ℕ)
    → b ≤ c
    → Before own bs b h r
    → Before own bs c h r
Before-higher own bs b c h [] le l = tt
Before-higher own bs b c h (y ∷ r) le l = (omega (arith, l.0), l.1, l.2, l.3, l.4, l.5)

-- Block y, and the block after the one that goes.
module _ (own : ℕ → ℕ) (bs : List BasicBlock) (y : ℕ) (h : ℤ) where
  abbrev linked : List BasicBlock
  linked = update_block bs y (set_next h)

  linked_ne : (k : ℕ) → y ≢ k → SameLinks bs linked k
  linked_ne k ne = (
    field_at-update_ne (λ b. b.next_block) (negsuc 0) bs y k (set_next h) ne,
    field_at-update_keep (λ b. b.prev_block) (negsuc 0) bs y k (set_next h) (λ b. refl),
  )

  linked_self : y < length bs → (next_at linked y ≡ h) × (prev_at linked y ≡ prev_at bs y)
  linked_self l = (
    field_at-update_self (λ b. b.next_block) (negsuc 0) bs y (set_next h) (λ i. h) (λ b. refl) l,
    field_at-update_keep (λ b. b.prev_block) (negsuc 0) bs y y (set_next h) (λ b. refl),
  )

module _ (own : ℕ → ℕ) (bs : List BasicBlock) (n : ℕ) (p : ℤ) where
  abbrev backed : List BasicBlock
  backed = update_block bs n (set_prev p)

  backed_ne : (k : ℕ) → n ≢ k → SameLinks bs backed k
  backed_ne k ne = (
    field_at-update_keep (λ b. b.next_block) (negsuc 0) bs n k (set_prev p) (λ b. refl),
    field_at-update_ne (λ b. b.prev_block) (negsuc 0) bs n k (set_prev p) ne,
  )

  backed_self : n < length bs → (next_at backed n ≡ next_at bs n) × (prev_at backed n ≡ p)
  backed_self l = (
    field_at-update_keep (λ b. b.next_block) (negsuc 0) bs n n (set_prev p) (λ b. refl),
    field_at-update_self (λ b. b.prev_block) (negsuc 0) bs n (set_prev p) (λ i. p) (λ b. refl) l,
  )

-- The stream before a block that goes and after it.
module _ (own : ℕ → ℕ) (bs : List BasicBlock) (x y : ℕ) (r : List ℕ) where
  pub unlinked_last :
      Before own bs x (pos x) (y ∷ r)
      → Before own (update_block bs y (set_next (negsuc 0))) x (negsuc 0) (y ∷ r)
  unlinked_last l =
      let same = linked_self own bs y (negsuc 0) l.2 in
      (
        l.0,
        l.1,
        omega (arith, l.2, length-update bs y (set_next (negsuc 0))),
        same.0,
        same.1 ∙ l.4,
        Before-same own bs (linked own bs y (negsuc 0)) (length-update bs y (set_next (negsuc 0))) y
            (pos y) r (λ k lt. linked_ne own bs y (negsuc 0) k (λ e. omega (arith, e))) l.5,
      )

  module _ (n : ℕ) (s : List ℕ) (before : Before own bs x (pos x) (y ∷ r))
      (after : After own bs (suc x) (pos x) (n ∷ s)) where
    abbrev pub relinked : List BasicBlock
    relinked = update_block (update_block bs y (set_next (pos n))) n (set_prev (pos y))

    pub length-relinked : length relinked ≡ length bs
    length-relinked =
        length-update (linked own bs y (pos n)) n (set_prev (pos y))
        ∙ length-update bs y (set_next (pos n))

    pub relinked_ne : (k : ℕ) → y ≢ k → n ≢ k → SameLinks bs relinked k
    relinked_ne k ny nn =
        let first_half = linked_ne own bs y (pos n) k ny in
        let second_half = backed_ne own (linked own bs y (pos n)) n (pos y) k nn in
        (second_half.0 ∙ first_half.0, second_half.1 ∙ first_half.1)

    pub relinked-Before : Before own relinked x (pos n) (y ∷ r)
    relinked-Before =
        let far =
          backed_ne own (linked own bs y (pos n)) n (pos y) y
            (λ e. omega (arith, e, before.0, after.0)) in
        let self = linked_self own bs y (pos n) before.2 in
        (
          before.0,
          before.1,
          omega (arith, before.2, length-relinked),
          far.0 ∙ self.0,
          far.1 ∙ self.1 ∙ before.4,
          Before-same own bs relinked length-relinked y (pos y) r
              (λ k lt.
                relinked_ne k (λ e. omega (arith, e)) (λ e. omega (arith, e, before.0, after.0)))
              before.5,
        )

    pub relinked-After : After own relinked (suc y) (pos y) (n ∷ s)
    relinked-After =
        let self =
          backed_self own (linked own bs y (pos n)) n (pos y)
            (omega (arith, after.2, length-update bs y (set_next (pos n)))) in
        let far = linked_ne own bs y (pos n) n (λ e. omega (arith, e, before.0, after.0)) in
        (
          omega (arith, before.0, after.0),
          after.1,
          omega (arith, after.2, length-relinked),
          self.0 ∙ far.0 ∙ after.3,
          self.1,
          After-same own bs relinked length-relinked (suc n) (pos n) s
              (λ k le.
                relinked_ne k (λ e. omega (arith, e, before.0, after.0)) (λ e. omega (arith, e)))
              after.5,
        )
