-- ===== src/Rtl/Opt/Reduced.antt =====
-- What the passes of src/rtl-opt.c that drop edges keep of the flow graph and of the code stream.
use native.Mathlib.Decide.{ℕ_discrete}
use libbinrec.Common.{
  ℕ, zero, suc, ◌<◌, ◌≤◌, ◌≡◌, refl, sym, ◌∙◌, ap, subst, false, List, [], ◌∷◌, length, get_elem?,
  get_or, some, ℤ, pos, negsuc, is_neg, arith,
}
use libbinrec.Rtl.Unit.{BasicBlock}
use libbinrec.Rtl.Unit.Access.{blank_block}
use libbinrec.Rtl.Block.{shift_out}
use libbinrec.Rtl.Block.Graph.{field_at, exits_at, next_at, prev_at, out_count, Consistent}
use libbinrec.Rtl.Block.Removed.{Removed}
use libbinrec.Rtl.Opt.Visit.{exit_at}

pub field_at-block :
    {A : Type 0} (p : BasicBlock → A) (d : A) (bs : List BasicBlock) (b : ℕ)
    → b < length bs
    → p (get_or bs b blank_block) ≡ field_at p d bs b
field_at-block p d [] b l = absurd (omega arith)
field_at-block p d (x ∷ bs) zero l = refl
field_at-block p d (x ∷ bs) (suc b) l = field_at-block p d bs b (omega arith)

pub get_elem?_of_get_or :
    (es : List ℤ) (e t : ℕ) → get_or es e (negsuc 0) ≡ pos t → get_elem? es e ≡ some (pos t)
get_elem?_of_get_or [] e t h = cc
get_elem?_of_get_or (x ∷ es) zero t h = ap some h
get_elem?_of_get_or (x ∷ es) (suc e) t h = get_elem?_of_get_or es e t h

-- Exit e of a block, from its list of exits.
abbrev pub exit : List BasicBlock → ℕ → ℕ → ℤ
exit bs b e = get_or (exits_at bs b) e (negsuc 0)

pub exit_at-exit : (bs : List BasicBlock) (b e : ℕ) → b < length bs → exit_at bs b e ≡ exit bs b e
exit_at-exit bs b e l = ap (λ es. get_or es e (negsuc 0)) (field_at-block (λ x. x.exits) [] bs b l)

-- Two exit slots, of which the second one is not used alone.
abbrev pub TwoSlots : List ℤ → Type 0
TwoSlots es =
    (length es ≡ 2)
    × ((t : ℕ) → get_or es 1 (negsuc 0) ≡ pos t → (t' : ℕ) × (get_or es 0 (negsuc 0) ≡ pos t'))

abbrev pub TwoExits : (ℕ → ℕ) → List BasicBlock → Type 0
TwoExits own bs = (b : ℕ) → own b ≡ 0 → b < length bs → TwoSlots (exits_at bs b)

-- The code stream from a block on ends within n blocks, all of them real ones of the unit.
abbrev pub Listed : (ℕ → ℕ) → List BasicBlock → ℕ → ℤ → Type 0
Listed own bs n (negsuc _) = Unit
Listed own bs zero (pos b) = ⊥
Listed own bs (suc n) (pos b) = (own b ≡ 0) × (b < length bs) × Listed own bs n (next_at bs b)

-- A graph that is as good as `bs`, with no other edges than `bs` has.
pub record Reduced (own : ℕ → ℕ) (bs bs' : List BasicBlock) : Type 0 where
  pub consistent : Consistent own bs'
  pub exits : TwoExits own bs'
  pub size : length bs' ≡ length bs
  pub next : (k : ℕ) → next_at bs' k ≡ next_at bs k
  pub prev : (k : ℕ) → prev_at bs' k ≡ prev_at bs k
  pub outs : (k y : ℕ) → out_count bs' k y ≤ out_count bs k y

pub Reduced-refl :
    (own : ℕ → ℕ) (bs : List BasicBlock) → Consistent own bs → TwoExits own bs → Reduced own bs bs
Reduced-refl own bs c two = record {
  consistent = c;
  exits = two;
  size = refl;
  next = λ k. refl;
  prev = λ k. refl;
  outs = λ k y. omega arith;
}

pub Reduced-trans :
    {own : ℕ → ℕ} {a b c : List BasicBlock} → Reduced own a b → Reduced own b c → Reduced own a c
Reduced-trans s t = record {
  consistent = t.consistent;
  exits = t.exits;
  size = t.size ∙ s.size;
  next = λ k. t.next k ∙ s.next k;
  prev = λ k. t.prev k ∙ s.prev k;
  outs = λ k y. omega (arith, s.outs k y, t.outs k y);
}

pub Listed-same :
    (own : ℕ → ℕ) (bs bs' : List BasicBlock) (n : ℕ) (i : ℤ)
    → length bs' ≡ length bs
    → ((k : ℕ) → next_at bs' k ≡ next_at bs k)
    → Listed own bs n i
    → Listed own bs' n i
Listed-same own bs bs' zero (negsuc _) size next l = tt
Listed-same own bs bs' zero (pos b) size next l = l
Listed-same own bs bs' (suc n) (negsuc _) size next l = tt
Listed-same own bs bs' (suc n) (pos b) size next l = (
  l.0,
  omega (arith, l.1, size),
  subst (Listed own bs' n) (sym (next b)) (Listed-same own bs bs' n (next_at bs b) size next l.2),
)

shifted_exits :
    (es : List ℤ) (m : ℕ)
    → length es ≡ 2
    → m < 2
    → (length (shift_out es m) ≡ 2) × (get_or (shift_out es m) 1 (negsuc 0) ≡ negsuc 0)
unfolding shift_out
shifted_exits [] m l h = absurd (omega arith)
shifted_exits (a ∷ []) m l h = absurd (omega arith)
shifted_exits (a ∷ b ∷ []) zero l h = (refl, refl)
shifted_exits (a ∷ b ∷ []) (suc zero) l h = (refl, refl)
shifted_exits (a ∷ b ∷ []) (suc (suc m)) l h = absurd (omega arith)
shifted_exits (a ∷ b ∷ c ∷ es) m l h = absurd (omega arith)

pub Removed-Reduced :
    (own : ℕ → ℕ) (bs bs' : List BasicBlock) (from to m : ℕ)
    → own from ≡ 0
    → from < length bs
    → m < 2
    → TwoExits own bs
    → Removed own bs bs' from to m
    → Reduced own bs bs'
Removed-Reduced own bs bs' from to m rf lt lm two r = record {
  consistent = r.consistent;
  exits = λ b rb lb. elim (ℕ_discrete from b) [
    | yes e ↦
        subst (λ x. TwoSlots (exits_at bs' x)) e
          (subst TwoSlots (sym r.exits_self)
            (closed.0, λ t h. absurd (unused t (sym closed.1 ∙ h))))
    | no ne ↦ subst TwoSlots (sym (r.exits_other b ne)) (two b rb (omega (arith, r.size)))
  ];
  size = r.size;
  next = r.next;
  prev = r.prev;
  outs = λ k y. omega (arith, r.outs k y);
}
  where
    closed :
        (length (shift_out (exits_at bs from) m) ≡ 2)
        × (get_or (shift_out (exits_at bs from) m) 1 (negsuc 0) ≡ negsuc 0)
    closed = shifted_exits (exits_at bs from) m (two from rf lt).0 lm

    unused : (t : ℕ) → negsuc 0 ≡ pos t → ⊥
    unused t e = cc

pub used_exit : (x : ℤ) → is_neg x ≡ false → (t : ℕ) × (x ≡ pos t)
used_exit (pos t) h = (t, refl)
used_exit (negsuc t) h = cc
