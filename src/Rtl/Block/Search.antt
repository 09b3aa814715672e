-- ===== src/Rtl/Block/Search.antt =====
-- The search of rtl_block_remove_edge() along a block's extensions.
use libbinrec.Common.{
  ℕ, zero, suc, ◌<◌, ◌≤◌, ◌≡◌, refl, sym, ◌∙◌, ap, List, [], length, get_elem?, get_elem?_total,
  Option, some, none, ℤ, pos, negsuc, arith,
}
use libbinrec.Rtl.Unit.{BasicBlock}
use libbinrec.Rtl.Block.{find_holder, index_of}
use libbinrec.Rtl.Block.Graph.{entries_at, overflow_at, count_slots, tail_count, in_count, Chain}
use libbinrec.Rtl.Block.Slots.{field_at-get, index_of-none}

-- Block k is on the chain from `i` on.
pub data Reaches (bs : List BasicBlock) (k : ℕ) : ℤ → Type 0 where
  here : Reaches bs k (pos k)
  next : {j : ℕ} → Reaches bs k (overflow_at bs j) → Reaches bs k (pos j)

module _ (own : ℕ → ℕ) (t : ℕ) (bs : List BasicBlock) (k : ℕ) where
  consume :
      (f : ℕ) (i : ℤ)
      → Reaches bs k i
      → Chain own t f bs i
      → (g : ℕ) × (g ≤ f) × Chain own t g bs (pos k)
  consume f _ here c = (f, omega arith, c)
  consume zero _ (next r) c = absurd c
  consume (suc f) _ (next {j} r) c =
      let (g, l, c') = consume f (overflow_at bs j) r c.2 in (g, omega arith, c')

  no_return_within :
      (bound f : ℕ) → f ≤ bound → Chain own t f bs (pos k) → Reaches bs k (overflow_at bs k) → ⊥
  no_return_within bound zero l c r = c
  no_return_within zero (suc f) l c r = absurd (omega arith)
  no_return_within (suc bound) (suc f) l c r =
      let (g, l', c') = consume f (overflow_at bs k) r c.2 in
      no_return_within bound g (omega arith) c' r

  -- A chain that ends does not come back to a block.
  pub no_return : (f : ℕ) → Chain own t f bs (pos k) → Reaches bs k (overflow_at bs k) → ⊥
  no_return f c r = no_return_within f f (omega arith) c r

  at_block : (g : ℕ) → Chain own t g bs (pos k) → own k ≡ suc t
  at_block zero c = absurd c
  at_block (suc g) c = c.0

  -- The blocks on a chain of t's extensions are extensions of t.
  pub Reaches-own : (f : ℕ) (i : ℤ) → Reaches bs k i → Chain own t f bs i → own k ≡ suc t
  Reaches-own f i r c = let (g, l, c') = consume f i r c in at_block g c'

-- What the search from `i` on finds.
abbrev pub Found : List BasicBlock → ℕ → ℤ → Option (ℕ × ℕ) → Type 0
Found bs from i o =
    (k : ℕ) × (slot : ℕ) × (o ≡ some (k, slot))
    × Reaches bs k i
    × (k < length bs)
    × (index_of from (entries_at bs k) 0 ≡ some slot)

module _ (bs : List BasicBlock) (from : ℕ) where
  -- One block of the search.
  find_holder-step :
      (f k : ℕ)
      → k < length bs
      → (count_slots from (entries_at bs k) ≡ 0
          → Found bs from (overflow_at bs k) (find_holder f bs from (overflow_at bs k)))
      → Found bs from (pos k) (find_holder (suc f) bs from (pos k))
  unfolding find_holder
  find_holder-step f k lt rest = go (index_of from (entries_at bs k) 0) refl
    where
      block : (b : BasicBlock) × (get_elem? bs k ≡ some b)
      block = get_elem?_total bs k lt

      entries : entries_at bs k ≡ block.0.entries
      entries = field_at-get (λ b. b.entries) [] bs k block.1

      overflow : overflow_at bs k ≡ block.0.entry_overflow
      overflow = field_at-get (λ b. b.entry_overflow) (negsuc 0) bs k block.1

      go :
          (o : Option ℕ)
          → index_of from (entries_at bs k) 0 ≡ o
          → Found bs from (pos k) (find_holder (suc f) bs from (pos k))
      go (some slot) e = (
        k,
        slot,
        rw (block.1, find_holder, ap (λ es. index_of from es 0) (sym entries) ∙ e) refl,
        here,
        lt,
        e,
      )
      go none e =
          let (k', slot, found, r, l, g) = rest (index_of-none from (entries_at bs k) 0 e) in
          (
            k',
            slot,
            rw (block.1, find_holder, ap (λ es. index_of from es 0) (sym entries) ∙ e, ← overflow)
                found,
            next r,
            l,
            g,
          )

  -- An entry that the extensions have is found.
  find_holder-Found :
      (own : ℕ → ℕ) (t f : ℕ) (i : ℤ)
      → Chain own t f bs i
      → 0 < tail_count f bs i from
      → Found bs from i (find_holder f bs from i)
  unfolding tail_count
  find_holder-Found own t zero i c some_entry = absurd (omega arith)
  find_holder-Found own t (suc f) (negsuc _) c some_entry = absurd (omega arith)
  find_holder-Found own t (suc f) (pos k) c some_entry =
      find_holder-step f k c.1
        (λ e. find_holder-Found own t f (overflow_at bs k) c.2 (omega (arith, e)))

  -- An entry of a block or of its extensions is found.
  pub find_holder-in_count :
      (own : ℕ → ℕ) (to : ℕ)
      → to < length bs
      → Chain own to (length bs) bs (overflow_at bs to)
      → 0 < in_count bs to from
      → Found bs from (pos to) (find_holder (suc (length bs)) bs from (pos to))
  unfolding in_count
  find_holder-in_count own to lt c some_entry =
      find_holder-step (length bs) to lt
        (λ e. find_holder-Found own to (length bs) (overflow_at bs to) c (omega (arith, e)))
