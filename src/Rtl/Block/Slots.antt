-- ===== src/Rtl/Block/Slots.antt =====
-- What the writes of rtl-block.c do to the slots and fields that the flow graph is read from.
use libbinrec.Common.{
  ℕ, zero, suc, ◌+◌, ◌<◌, ◌≡◌, ◌≢◌, refl, ap, ◌==◌, bool_to_ℕ, Bool-cases, inl, inr, List, [], ◌∷◌,
  ◌++◌, length, get_elem?, set, length-append, ==_iff, some, none, ℤ, pos, negsuc, eq_ℤ, arith,
}
use libbinrec.Rtl.Unit.{BasicBlock}
use libbinrec.Rtl.Block.{
  update_block, find_exit, ExitSlot, present, free_slot, too_many, find_entry, shift_out, index_of,
  moved_entries, kept_entries, unused,
}
use libbinrec.Rtl.Block.Graph.{field_at, count_slots}

pub length-update :
    (bs : List BasicBlock) (i : ℕ) (f : BasicBlock → BasicBlock)
    → length (update_block bs i f) ≡ length bs
length-update [] i f = refl
length-update (b ∷ bs) zero f = refl
length-update (b ∷ bs) (suc i) f = ap suc (length-update bs i f)

module _ {ℓ} {A : Type ℓ} (p : BasicBlock → A) (d : A) where
  pub field_at-update_ne :
      (bs : List BasicBlock) (i k : ℕ) (f : BasicBlock → BasicBlock)
      → i ≢ k
      → field_at p d (update_block bs i f) k ≡ field_at p d bs k
  field_at-update_ne [] i k f ne = refl
  field_at-update_ne (b ∷ bs) zero zero f ne = absurd (ne refl)
  field_at-update_ne (b ∷ bs) zero (suc k) f ne = refl
  field_at-update_ne (b ∷ bs) (suc i) zero f ne = refl
  field_at-update_ne (b ∷ bs) (suc i) (suc k) f ne =
      field_at-update_ne bs i k f (λ e. ne (ap suc e))

  pub field_at-update_keep :
      (bs : List BasicBlock) (i k : ℕ) (f : BasicBlock → BasicBlock)
      → ((b : BasicBlock) → p (f b) ≡ p b)
      → field_at p d (update_block bs i f) k ≡ field_at p d bs k
  field_at-update_keep [] i k f keep = refl
  field_at-update_keep (b ∷ bs) zero zero f keep = keep b
  field_at-update_keep (b ∷ bs) zero (suc k) f keep = refl
  field_at-update_keep (b ∷ bs) (suc i) zero f keep = refl
  field_at-update_keep (b ∷ bs) (suc i) (suc k) f keep = field_at-update_keep bs i k f keep

  -- `g` is what `f` does to the field.
  pub field_at-update_self :
      (bs : List BasicBlock) (i : ℕ) (f : BasicBlock → BasicBlock) (g : A → A)
      → ((b : BasicBlock) → p (f b) ≡ g (p b))
      → i < length bs
      → field_at p d (update_block bs i f) i ≡ g (field_at p d bs i)
  field_at-update_self [] i f g fg lt = absurd (omega arith)
  field_at-update_self (b ∷ bs) zero f g fg lt = fg b
  field_at-update_self (b ∷ bs) (suc i) f g fg lt = field_at-update_self bs i f g fg (omega arith)

  pub field_at-get :
      (bs : List BasicBlock) (i : ℕ) {b : BasicBlock}
      → get_elem? bs i ≡ some b
      → field_at p d bs i ≡ p b
  field_at-get [] i e = cc
  field_at-get (b ∷ bs) zero e = cc
  field_at-get (b ∷ bs) (suc i) e = field_at-get bs i e

  pub field_at-append_ne :
      (bs : List BasicBlock) (b : BasicBlock) (k : ℕ)
      → length bs ≢ k
      → field_at p d (bs ++ b ∷ []) k ≡ field_at p d bs k
  field_at-append_ne [] b zero ne = absurd (ne refl)
  field_at-append_ne [] b (suc k) ne = refl
  field_at-append_ne (a ∷ bs) b zero ne = refl
  field_at-append_ne (a ∷ bs) b (suc k) ne = field_at-append_ne bs b k (λ e. ne (ap suc e))

-- Slot m is unused.
abbrev pub FreeAt : List ℤ → ℕ → Type 0
FreeAt [] m = ⊥
FreeAt (negsuc _ ∷ es) zero = Unit
FreeAt (pos _ ∷ es) zero = ⊥
FreeAt (e ∷ es) (suc m) = FreeAt es m

pub count-set :
    (es : List ℤ) (m n y : ℕ)
    → FreeAt es m
    → count_slots y (set es m (pos n)) ≡ count_slots y es + bool_to_ℕ (n == y)
unfolding count_slots
count-set [] m n y free = absurd free
count-set (negsuc _ ∷ es) zero n y free = omega arith
count-set (pos _ ∷ es) zero n y free = absurd free
count-set (negsuc e ∷ es) (suc m) n y free = omega (arith, count-set es m n y free)
count-set (pos e ∷ es) (suc m) n y free = omega (arith, count-set es m n y free)

pub count-clear :
    (es : List ℤ) (m n y : ℕ)
    → FreeAt es m
    → count_slots y (set (set es m (pos n)) m (negsuc 0)) ≡ count_slots y es
unfolding count_slots
count-clear [] m n y free = absurd free
count-clear (negsuc _ ∷ es) zero n y free = refl
count-clear (pos _ ∷ es) zero n y free = absurd free
count-clear (negsuc e ∷ es) (suc m) n y free = omega (arith, count-clear es m n y free)
count-clear (pos e ∷ es) (suc m) n y free = omega (arith, count-clear es m n y free)

-- The slot that a search gives is unused. The search counts from `i`.
abbrev slot_of : ExitSlot → ℕ
slot_of (free_slot i) = i
slot_of present = 0
slot_of too_many = 0

pub find_exit_free :
    (to : ℕ) (es : List ℤ) (i j : ℕ)
    → find_exit to es i ≡ free_slot j
    → (m : ℕ) × (j ≡ m + i) × FreeAt es m
unfolding find_exit
find_exit_free to [] i j e = cc
find_exit_free to (negsuc n ∷ es) i j e = (0, omega (arith, ap slot_of e), tt)
find_exit_free to (pos n ∷ es) i j e = elim (Bool-cases (n == to)) [
  | inl same ↦ cc (rw same at e)
  | inr other ↦
      let (m, q, free) = find_exit_free to es (i + 1) j (rw other at e) in
      (suc m, omega arith, free)
]

-- With no slot given, the block is an exit already, or both slots are used.
pub find_exit_present :
    (to : ℕ) (es : List ℤ) (i : ℕ) → find_exit to es i ≡ present → 0 < count_slots to es
unfolding find_exit count_slots
find_exit_present to [] i e = cc
find_exit_present to (negsuc n ∷ es) i e = cc
find_exit_present to (pos n ∷ es) i e = elim (Bool-cases (n == to)) [
  | inl same ↦ rw same (omega arith)
  | inr other ↦ omega (arith, find_exit_present to es (i + 1) (rw other at e))
]

-- No slot is unused.
abbrev pub AllUsed : List ℤ → Type 0
AllUsed [] = Unit
AllUsed (pos _ ∷ es) = AllUsed es
AllUsed (negsuc _ ∷ es) = ⊥

pub find_exit_too_many :
    (to : ℕ) (es : List ℤ) (i : ℕ)
    → find_exit to es i ≡ too_many
    → AllUsed es × (count_slots to es ≡ 0)
unfolding find_exit count_slots
find_exit_too_many to [] i e = (tt, refl)
find_exit_too_many to (negsuc n ∷ es) i e = cc
find_exit_too_many to (pos n ∷ es) i e = elim (Bool-cases (n == to)) [
  | inl same ↦ cc (rw same at e)
  | inr other ↦
      let (used, zero_count) = find_exit_too_many to es (i + 1) (rw other at e) in
      (used, rw other (omega arith))
]

pub find_entry_free :
    (es : List ℤ) (i j : ℕ) → find_entry es i ≡ some j → (m : ℕ) × (j ≡ m + i) × FreeAt es m
unfolding find_entry
find_entry_free [] i j e = cc
find_entry_free (negsuc n ∷ es) i j e = (0, ground arith, tt)
find_entry_free (pos n ∷ es) i j e =
    let (m, q, free) = find_entry_free es (i + 1) j e in (suc m, omega arith, free)

count-unused : (es : List ℤ) (y : ℕ) → count_slots y (unused es) ≡ 0
unfolding count_slots
count-unused [] y = refl
count-unused (e ∷ es) y = omega (arith, count-unused es y)

pub count-split :
    (from : ℕ) (es : List ℤ) (y : ℕ)
    → length es ≡ 7
    → count_slots y (kept_entries es) + count_slots y (moved_entries (pos from) es)
      ≡ count_slots y es + bool_to_ℕ (from == y)
unfolding count_slots
count-split from [] y h = absurd (omega arith)
count-split from (e ∷ es) y h = omega (arith, count-unused es y)

length-unused : (es : List ℤ) → length (unused es) ≡ length es
length-unused [] = refl
length-unused (e ∷ es) = ap suc (length-unused es)

pub length-kept : (es : List ℤ) → length (kept_entries es) ≡ length es
length-kept [] = refl
length-kept (e ∷ es) = ap suc (length-unused es)

count-append_unused : (es : List ℤ) (y : ℕ) → count_slots y (es ++ negsuc 0 ∷ []) ≡ count_slots y es
unfolding count_slots
count-append_unused [] y = refl
count-append_unused (e ∷ es) y =
    ap (λ (n : ℕ). bool_to_ℕ (eq_ℤ e (pos y)) + n) (count-append_unused es y)

-- Shifting a used slot out takes away one of its edges.
pub count-shift_out :
    (es : List ℤ) (i n y : ℕ)
    → get_elem? es i ≡ some (pos n)
    → count_slots y (shift_out es i) + bool_to_ℕ (n == y) ≡ count_slots y es
unfolding count_slots shift_out
count-shift_out [] i n y e = cc
count-shift_out (pos k ∷ es) zero n y e = ground (arith, count-append_unused es y)
count-shift_out (negsuc k ∷ es) zero n y e = cc
count-shift_out (e' ∷ es) (suc i) n y e = omega (arith, count-shift_out es i n y e)

pub length-shift_out : (es : List ℤ) (i : ℕ) → length (shift_out es i) ≡ length es
unfolding shift_out
length-shift_out [] i = refl
length-shift_out (e ∷ es) zero = omega (arith, length-append {0} es (negsuc 0 ∷ []))
length-shift_out (e ∷ es) (suc i) = ap suc (length-shift_out es i)

pub index_of-get :
    (from : ℕ) (es : List ℤ) (i j : ℕ)
    → index_of from es i ≡ some j
    → (m : ℕ) × (j ≡ m + i) × (get_elem? es m ≡ some (pos from))
unfolding index_of
index_of-get from [] i j e = cc
index_of-get from (negsuc n ∷ es) i j e =
    let (m, q, g) = index_of-get from es (i + 1) j e in (suc m, omega arith, g)
index_of-get from (pos n ∷ es) i j e = elim (Bool-cases (n == from)) [
  | inl same ↦ (0, ground (arith, same), ap (λ (k : ℕ). some (pos k)) ((==_iff n from).0 same))
  | inr other ↦
      let (m, q, g) = index_of-get from es (i + 1) j (rw other at e) in (suc m, omega arith, g)
]

pub index_of-none :
    (from : ℕ) (es : List ℤ) (i : ℕ) → index_of from es i ≡ none → count_slots from es ≡ 0
unfolding index_of count_slots
index_of-none from [] i e = refl
index_of-none from (negsuc n ∷ es) i e = omega (arith, index_of-none from es (i + 1) e)
index_of-none from (pos n ∷ es) i e = elim (Bool-cases (n == from)) [
  | inl same ↦ cc (rw same at e)
  | inr other ↦ rw other (omega (arith, index_of-none from es (i + 1) (rw other at e)))
]
