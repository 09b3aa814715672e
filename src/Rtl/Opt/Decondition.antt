-- ===== src/Rtl/Opt/Decondition.antt =====
-- rtl_opt_decondition() of src/rtl-opt.c on a block that ends with a conditional branch on a constant.
use libbinrec.Common.{
  ℕ, zero, suc, ◌+◌, ◌<◌, ◌≡◌, ◌≢◌, refl, sym, ◌∙◌, ap, ◌==◌, ◌||◌, if◌then◌else◌, Bool, true,
  false, Bool-cases, inl, inr, ◌⊎◌, length, List, get_or, get_or-modify_self, get_elem?, Option,
  some, none, ◌>>=◌, pos, is_neg, eq_ℤ, arith,
}
use libbinrec.Rtl.Opcode.{Opcode, is_constant}
use libbinrec.Rtl.Unit.{Insn, RtlUnit}
use libbinrec.Rtl.Unit.Access.{insn_at, reg_at, block_at, update_insn, blank_insn}
use libbinrec.Rtl.Block.{block_remove_edge, find_holder}
use libbinrec.Rtl.Block.Graph.{exits_at, Consistent}
use libbinrec.Rtl.Block.Removed.{Removed, block_remove_edge-Removed}
use libbinrec.Rtl.Opt.Live.{rollback_reg_death}
use libbinrec.Rtl.Opt.Visit.{exit_at}
use libbinrec.Rtl.Opt.Branch.{
  index, has_insns, is_goto_if_z, is_goto_if_nz, always_goto, never_goto, branch_taken,
  dropped_exit, drop_condition, decondition_block,
}
use libbinrec.Rtl.Opt.Reduced.{get_elem?_of_get_or, exit_at-exit, exit}

-- What src/rtl.h says of the two conditional branches: where the first operand has this value, they go
-- to their label.
abbrev pub jumps : Opcode → ℕ → Bool
jumps Opcode.goto_if_z zero = true
jumps Opcode.goto_if_nz (suc n) = true
jumps _ _ = false

pub data Conditional : Opcode → Type 0 where
  if_z : Conditional Opcode.goto_if_z
  if_nz : Conditional Opcode.goto_if_nz

taken-jumps : (op : Opcode) (v : ℕ) → Conditional op → branch_taken op v ≡ jumps op v
unfolding branch_taken
taken-jumps _ zero Conditional.if_z = refl
taken-jumps _ (suc v) Conditional.if_z = ground arith
taken-jumps _ zero Conditional.if_nz = refl
taken-jumps _ (suc v) Conditional.if_nz = ground arith

Conditional-asserted : (op : Opcode) → Conditional op → (is_goto_if_z op || is_goto_if_nz op) ≡ true
Conditional-asserted _ Conditional.if_z = refl
Conditional-asserted _ Conditional.if_nz = refl

-- The edges of a block with a conditional branch: to the next block, and to block x.
abbrev pub Forks : RtlUnit → ℕ → ℕ → Type 0
Forks u b x =
    ((exit u.blocks b 0 ≡ pos (b + 1)) × (exit u.blocks b 1 ≡ pos x))
    ⊎ ((exit u.blocks b 0 ≡ pos x) × (exit u.blocks b 1 ≡ pos (b + 1)))

-- The edge that goes away is that to the block that the branch does not go to.
abbrev pub not_reached : ℕ → ℕ → Bool → ℕ
not_reached b x jump = if jump then b + 1 else x

eq_pos_ne : (x y : ℕ) → x ≢ y → eq_ℤ (pos x) (pos y) ≡ false
eq_pos_ne x y ne = ground (arith, ne)

eq_pos_refl : (x : ℕ) → eq_ℤ (pos x) (pos x) ≡ true
eq_pos_refl x = ground arith

module _ (u : RtlUnit) (b x : ℕ) (lb : b < length u.blocks) (ne : x ≢ b + 1) where
  dropped_edge :
      (jump : Bool)
      → Forks u b x
      → exit u.blocks b (dropped_exit u b jump) ≡ pos (not_reached b x jump)
  unfolding dropped_exit
  dropped_edge true (inl (e0, e1)) =
      rw (ap (λ z. eq_ℤ z (pos (b + 1))) (exit_at-exit u.blocks b 0 lb ∙ e0) ∙ eq_pos_refl (b + 1))
        e0
  dropped_edge false (inl (e0, e1)) =
      rw (ap (λ z. eq_ℤ z (pos (b + 1))) (exit_at-exit u.blocks b 0 lb ∙ e0) ∙ eq_pos_refl (b + 1))
        e1
  dropped_edge true (inr (e0, e1)) =
      rw
        (ap (λ z. eq_ℤ z (pos (b + 1))) (exit_at-exit u.blocks b 0 lb ∙ e0)
          ∙ eq_pos_ne x (b + 1) ne)
        e1
  dropped_edge false (inr (e0, e1)) =
      rw
        (ap (λ z. eq_ℤ z (pos (b + 1))) (exit_at-exit u.blocks b 0 lb ∙ e0)
          ∙ eq_pos_ne x (b + 1) ne)
        e0

  second_used : Forks u b x → is_neg (exit_at u.blocks b 1) ≡ false
  second_used (inl (e0, e1)) = ap is_neg (exit_at-exit u.blocks b 1 lb ∙ e1)
  second_used (inr (e0, e1)) = ap is_neg (exit_at-exit u.blocks b 1 lb ∙ e1)

-- The instructions of a unit, if there is one.
abbrev insns_of : List Insn → Option RtlUnit → List Insn
insns_of is none = is
insns_of is (some v) = v.insns

insns_of-bind :
    {A : Type 0} (is : List Insn) (o : Option A) (k : A → Option RtlUnit)
    → ((a : A) → insns_of is (k a) ≡ is)
    → insns_of is (o >>= k) ≡ is
insns_of-bind is none k same = refl
insns_of-bind is (some a) k same = same a

insns-block_remove_edge :
    (u v : RtlUnit) (from m : ℕ) → block_remove_edge u from m ≡ some v → v.insns ≡ u.insns
unfolding block_remove_edge
insns-block_remove_edge u v from m e =
    sym (ap (insns_of u.insns) e)
    ∙ insns_of-bind u.insns (get_elem? u.blocks from) _ (λ source.
      insns_of-bind u.insns (get_elem? source.exits m) _
        (λ to. insns_of-bind u.insns (find_holder _ _ from to) _ (λ p. refl)))

-- In a consistent graph, a block that ends with a conditional branch, and leads to the next block and to
-- another one, in either order of the two exits: where the branch's operand is a constant, the part of
-- rtl_opt_decondition() for the block always returns. Of all edges exactly the one that the branch never
-- takes goes: that to the next block if the branch jumps on the constant, and else that to the other
-- one. The branch becomes a GOTO or a NOP accordingly.
pub decondition_block-Removed :
    (own : ℕ → ℕ) (u : RtlUnit) (b x : ℕ)
    → Consistent own u.blocks
    → own b ≡ 0
    → b < length u.blocks
    → x ≢ b + 1
    → Forks u b x
    → has_insns (block_at u b) ≡ true
    → index (block_at u b).last_insn < length u.insns
    → Conditional (insn_at u (index (block_at u b).last_insn)).opcode
    → is_constant (reg_at u (insn_at u (index (block_at u b).last_insn)).src1).source ≡ true
    → let branch : Insn = insn_at u (index (block_at u b).last_insn) in
      let jump : Bool = jumps branch.opcode (reg_at u branch.src1).value in
      (u' : RtlUnit) × (m : ℕ) × (decondition_block u b ≡ some u')
      × Removed own u.blocks u'.blocks b (not_reached b x jump) m
      × (insn_at u' (index (block_at u b).last_insn)
          ≡ (if jump then always_goto branch else never_goto branch))
unfolding decondition_block drop_condition rollback_reg_death
decondition_block-Removed own u b x c rb lb ne forks filled last_lt conditional fixed =
    let last : ℕ = index (block_at u b).last_insn in
    let branch : Insn = insn_at u last in
    let jump : Bool = jumps branch.opcode (reg_at u branch.src1).value in
    let change : Bool → Insn → Insn = λ t i. if t then always_goto i else never_goto i in
    let taken = taken-jumps branch.opcode (reg_at u branch.src1).value conditional in
    let changed : RtlUnit = update_insn u last (change jump) in
    let m : ℕ = dropped_exit u b jump in
    let (v, e, r) = block_remove_edge-Removed own changed b (not_reached b x jump) m c rb lb (
      get_elem?_of_get_or (exits_at u.blocks b) m (not_reached b x jump)
        (dropped_edge u b x lb ne jump forks)) in
    let insn : insn_at v last ≡ change jump branch =
      ap (λ is. get_or is last blank_insn) (insns-block_remove_edge changed v b m e)
      ∙ get_or-modify_self u.insns last (change jump) blank_insn last_lt in
    let asserted = Conditional-asserted branch.opcode conditional in
    elim (Bool-cases ((reg_at u branch.src1).death == last)) [
      | inl dies ↦ (
        (rollback_reg_death v branch.src1).1,
        m,
        rw (second_used u b x lb ne forks, filled, asserted, fixed, taken, e, dies) refl,
        r,
        insn,
      )
      | inr lives ↦ (
        v,
        m,
        rw (second_used u b x lb ne forks, filled, asserted, fixed, taken, e, lives) refl,
        r,
        insn,
      )
    ]
