-- ===== src/Rtl/Block/Graph.antt =====
-- The flow graph that the exit and entry lists of a unit's blocks stand for, by counts: how many exit
-- slots of one block name another, and how many entry slots of that one, its extension blocks
-- included, name the first.
use libbinrec.Common.{
  ℕ, zero, suc, ◌+◌, ◌<◌, ◌≤◌, ◌≡◌, refl, ap, ap₂, bool_to_ℕ, List, [], ◌∷◌, length, ℤ, pos, negsuc,
  eq_ℤ, arith,
}
use native.Mathlib.Decide.{dec_lt}
use libbinrec.Rtl.Unit.{BasicBlock}

abbrev pub field_at {ℓ} : {A : Type ℓ} → (BasicBlock → A) → A → List BasicBlock → ℕ → A
field_at p d [] k = d
field_at p d (b ∷ bs) zero = p b
field_at p d (b ∷ bs) (suc k) = field_at p d bs k

abbrev pub entries_at : List BasicBlock → ℕ → List ℤ
entries_at bs k = field_at (λ b. b.entries) [] bs k

abbrev pub overflow_at : List BasicBlock → ℕ → ℤ
overflow_at bs k = field_at (λ b. b.entry_overflow) (negsuc 0) bs k

abbrev pub exits_at : List BasicBlock → ℕ → List ℤ
exits_at bs k = field_at (λ b. b.exits) [] bs k

abbrev pub next_at : List BasicBlock → ℕ → ℤ
next_at bs k = field_at (λ b. b.next_block) (negsuc 0) bs k

abbrev pub prev_at : List BasicBlock → ℕ → ℤ
prev_at bs k = field_at (λ b. b.prev_block) (negsuc 0) bs k

-- How many slots hold `n`.
unfoldable pub count_slots : ℕ → List ℤ → ℕ
count_slots n [] = 0
count_slots n (e ∷ es) = bool_to_ℕ (eq_ℤ e (pos n)) + count_slots n es

-- The entries from block x in the extension blocks from `i` on.
unfoldable pub tail_count : ℕ → List BasicBlock → ℤ → ℕ → ℕ
tail_count zero bs i x = 0
tail_count (suc f) bs (negsuc _) x = 0
tail_count (suc f) bs (pos k) x =
    count_slots x (entries_at bs k) + tail_count f bs (overflow_at bs k) x

-- How many edges the entry lists of block k name from x, and the exit list of k to y.
unfoldable pub in_count : List BasicBlock → ℕ → ℕ → ℕ
in_count bs k x = count_slots x (entries_at bs k) + tail_count (length bs) bs (overflow_at bs k) x

unfoldable pub out_count : List BasicBlock → ℕ → ℕ → ℕ
out_count bs k y = count_slots y (exits_at bs k)

-- `own` tells extension blocks from real ones: it is 0 at a real block, and t + 1 at an extension of
-- block t. The chain from `i` on runs through at most f extensions of t.
abbrev pub Chain : (ℕ → ℕ) → ℕ → ℕ → List BasicBlock → ℤ → Type 0
Chain own t zero bs (negsuc _) = Unit
Chain own t zero bs (pos k) = ⊥
Chain own t (suc f) bs (negsuc _) = Unit
Chain own t (suc f) bs (pos k) =
    (own k ≡ suc t) × (k < length bs) × Chain own t f bs (overflow_at bs k)

-- Every chain of a real block is its own and ends, edges lead to real blocks, and the entry lists are
-- the exit lists turned round.
pub record Consistent (own : ℕ → ℕ) (bs : List BasicBlock) : Type 0 where
  pub chains : (t : ℕ) → own t ≡ 0 → Chain own t (length bs) bs (overflow_at bs t)
  pub targets : (k y : ℕ) → own k ≡ 0 → 0 < out_count bs k y → (own y ≡ 0) × (y < length bs)
  pub mirrored : (k y : ℕ) → own k ≡ 0 → own y ≡ 0 → out_count bs k y ≡ in_count bs y k
  pub slots : (k : ℕ) → own k ≡ 0 → k < length bs → length (entries_at bs k) ≡ 7
  pub fresh : (k : ℕ) → length bs ≤ k → own k ≡ 0

-- Two states of the block array that have the same extensions of t.
abbrev pub SameTail : (ℕ → ℕ) → (ℕ → ℕ) → ℕ → List BasicBlock → List BasicBlock → Type 0
SameTail own own' t bs bs' =
    (k : ℕ)
    → own k ≡ suc t
    → (own' k ≡ suc t)
      × (entries_at bs' k ≡ entries_at bs k)
      × (overflow_at bs' k ≡ overflow_at bs k)

-- A chain is untouched by what is written elsewhere, and its fuel may grow.
pub Chain-same :
    (own own' : ℕ → ℕ) (t f g : ℕ) (bs bs' : List BasicBlock) (i : ℤ)
    → f ≤ g
    → length bs ≤ length bs'
    → SameTail own own' t bs bs'
    → Chain own t f bs i
    → Chain own' t g bs' i
Chain-same own own' t zero zero bs bs' (negsuc _) le ll same c = tt
Chain-same own own' t zero (suc g) bs bs' (negsuc _) le ll same c = tt
Chain-same own own' t (suc f) zero bs bs' (negsuc _) le ll same c = tt
Chain-same own own' t (suc f) (suc g) bs bs' (negsuc _) le ll same c = tt
Chain-same own own' t zero g bs bs' (pos k) le ll same c = absurd c
Chain-same own own' t (suc f) zero bs bs' (pos k) le ll same c = absurd (omega arith)
Chain-same own own' t (suc f) (suc g) bs bs' (pos k) le ll same c = (
  (same k c.0).0,
  omega arith,
  rw ((same k c.0).2)
      (Chain-same own own' t f g bs bs' (overflow_at bs k) (omega arith) ll same c.2),
)

pub tail_count-same :
    (own own' : ℕ → ℕ) (t f g : ℕ) (bs bs' : List BasicBlock) (i : ℤ) (x : ℕ)
    → f ≤ g
    → SameTail own own' t bs bs'
    → Chain own t f bs i
    → tail_count g bs' i x ≡ tail_count f bs i x
unfolding tail_count
tail_count-same own own' t zero zero bs bs' (negsuc _) x le same c = refl
tail_count-same own own' t zero (suc g) bs bs' (negsuc _) x le same c = refl
tail_count-same own own' t (suc f) zero bs bs' (negsuc _) x le same c = refl
tail_count-same own own' t (suc f) (suc g) bs bs' (negsuc _) x le same c = refl
tail_count-same own own' t zero g bs bs' (pos k) x le same c = absurd c
tail_count-same own own' t (suc f) zero bs bs' (pos k) x le same c = absurd (omega arith)
tail_count-same own own' t (suc f) (suc g) bs bs' (pos k) x le same c =
    ap₂ ◌+◌ (ap (count_slots x) (same k c.0).1) (
      rw ((same k c.0).2)
        (tail_count-same own own' t f g bs bs' (overflow_at bs k) x (omega arith) same c.2))

-- How a change of the counts carries the invariant over: `gain` edges come and `loss` edges go, in
-- exit lists and entry lists alike.
pub Consistent-transfer :
    (own own' : ℕ → ℕ) (bs bs' : List BasicBlock) (gain loss : ℕ → ℕ → ℕ)
    → Consistent own bs
    → ((k : ℕ) → own' k ≡ 0 → own k ≡ 0)
    → ((y : ℕ) → own y ≡ 0 → y < length bs → (own' y ≡ 0) × (y < length bs'))
    → ((k y : ℕ) → 0 < gain k y → (own' y ≡ 0) × (y < length bs'))
    → ((t : ℕ) → own' t ≡ 0 → Chain own' t (length bs') bs' (overflow_at bs' t))
    → ((k : ℕ) → own' k ≡ 0 → k < length bs' → length (entries_at bs' k) ≡ 7)
    → ((k : ℕ) → length bs' ≤ k → own' k ≡ 0)
    → ((k y : ℕ) → own' k ≡ 0 → out_count bs' k y + loss k y ≡ out_count bs k y + gain k y)
    → ((k y : ℕ)
        → own' k ≡ 0
        → own' y ≡ 0
        → in_count bs' y k + loss k y ≡ in_count bs y k + gain k y)
    → Consistent own' bs'
Consistent-transfer own own' bs bs' gain loss c real keep gained chains slots fresh outs ins =
    record {
      chains = chains;
      targets = λ k y rk some_edge. elim (dec_lt 0 (gain k y)) [
        | yes g ↦ gained k y g
        | no ng ↦
            let old = c.targets k y (real k rk) (omega (arith, outs k y rk)) in keep y old.0 old.1
      ];
      mirrored = λ k y rk ry.
          omega (arith, outs k y rk, ins k y rk ry, c.mirrored k y (real k rk) (real y ry));
      slots = slots;
      fresh = fresh;
    }
