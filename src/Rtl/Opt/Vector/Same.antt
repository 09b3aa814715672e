-- ===== src/Rtl/Opt/Vector/Same.antt =====
-- What the operations on vectors that fold_one_reg_vector() of src/rtl-opt.c rewrites compute.
use libbinrec.Common.{
  ℕ, ◌<◌, ◌≡◌, refl, sym, ◌∙◌, ap, ◌==◌, true, false, Bool-cases, true_and_false, if◌then◌else◌,
  inl, inr, Option, some, none, arith,
}
use libbinrec.Rtl.Opcode.{Opcode}
use libbinrec.Rtl.Unit.{Result}
use libbinrec.Rtl.Opt.Vector.{move_from, forward_extract, forward_insert, build_from}

-- The value of a register: a scalar, or a vector of two elements.
pub data Value : Type 0 where
  scalar : ℕ → Value
  vector : ℕ → ℕ → Value

-- An element of a vector, or a scalar itself.
abbrev pub part : Value → ℕ → ℕ
part (scalar a) e = a
part (vector a b) e = if e == 0 then a else b

-- Vector `v` with the scalar `s` as its element e.
abbrev pub insert : ℕ → ℕ → Value → Value
insert e s v = if e == 0 then vector s (part v 1) else vector (part v 0) s

-- What MOVE and the operations on vectors compute from the values of the registers, in the words of
-- src/rtl.h.
unfoldable pub compute : Opcode → Result → (ℕ → Value) → Value
compute Opcode.move r env = env r.src1
compute Opcode.vbuild2 r env = vector (part (env r.src1) 0) (part (env r.src2) 0)
compute Opcode.vbroadcast r env = vector (part (env r.src1) 0) (part (env r.src1) 0)
compute Opcode.vextract r env = scalar (part (env r.src1) r.elem)
compute Opcode.vinsert r env = insert r.elem (part (env r.src2) 0) (env r.src1)
compute _ r env = scalar 0

abbrev pub IsScalar : Value → Type 0
IsScalar v = v ≡ scalar (part v 0)

-- The scalar operands of an operation on vectors are scalars.
abbrev pub Typed : Opcode → Result → (ℕ → Value) → Type 0
Typed Opcode.vbuild2 r env = IsScalar (env r.src1) × IsScalar (env r.src2)
Typed Opcode.vbroadcast r env = IsScalar (env r.src1)
Typed Opcode.vinsert r env = IsScalar (env r.src2)
Typed _ r env = Unit

-- The operation that a rewriting gives, or the one that was.
abbrev pub rewritten : Option (Result × ℕ) → Result → Result
rewritten none r = r
rewritten (some p) r = p.0

-- A VEXTRACT and the MOVE from register `src` that takes its place.
moved :
    (result : Result) (src : ℕ) (env : ℕ → Value)
    → IsScalar (env src)
    → part (env result.src1) result.elem ≡ part (env src) 0
    → compute Opcode.move (move_from src result) env ≡ compute Opcode.vextract result env
unfolding compute
moved result src env s p = s ∙ ap scalar (sym p)

-- A VINSERT and the VBUILD2 with register `other` that takes its place.
built :
    (result : Result) (other : ℕ) (env : ℕ → Value)
    → (result.elem == 0 ≡ true → part (env result.src1) 1 ≡ part (env other) 0)
    → (result.elem == 0 ≡ false → part (env result.src1) 0 ≡ part (env other) 0)
    → compute (build_from other result).opcode (build_from other result) env
      ≡ compute Opcode.vinsert result env
unfolding compute build_from
built result other env p q = elim (Bool-cases (result.elem == 0)) [
  | inl first ↦ rw first (ap (vector (part (env result.src2) 0)) (sym (p first)))
  | inr second ↦ rw second (ap (λ a. vector a (part (env result.src2) 0)) (sym (q second)))
]

part-insert_self : (d e s : ℕ) (v : Value) → d == e ≡ true → part (insert d s v) e ≡ s
part-insert_self d e s v h = elim (Bool-cases (d == 0)) [
  | inl first ↦ let at : e == 0 ≡ true = ground (arith, first, h) in rw (first, at) refl
  | inr second ↦ let at : e == 0 ≡ false = ground (arith, second, h) in rw (second, at) refl
]

insert-insert : (d e s t : ℕ) (v : Value) → d == e ≡ true → insert e s v ≡ insert e s (insert d t v)
insert-insert d e s t v h = elim (Bool-cases (e == 0)) [
  | inl first ↦ let at : d == 0 ≡ true = ground (arith, first, h) in rw (first, at) refl
  | inr second ↦ let at : d == 0 ≡ false = ground (arith, second, h) in rw (second, at) refl
]

extract_step :
    (op : Opcode) (result source : Result) (env : ℕ → Value)
    → result.opcode ≡ Opcode.vextract
    → env result.src1 ≡ compute op source env
    → Typed op source env
    → let new : Result = rewritten (forward_extract op result source) result in
      compute new.opcode new env ≡ compute result.opcode result env
unfolding forward_extract compute
extract_step Opcode.vbuild2 result source env is value typed =
    elim (Bool-cases (result.elem == 0)) [
      | inl first ↦
          rw (first, forward_extract)
            (moved result source.src1 env typed.0 (rw (value, first) refl)
              ∙ ap (λ o. compute o result env) (sym is))
      | inr second ↦
          rw (second, forward_extract)
            (moved result source.src2 env typed.1 (rw (value, second) refl)
              ∙ ap (λ o. compute o result env) (sym is))
    ]
extract_step Opcode.vbroadcast result source env is value typed =
    moved result source.src1 env typed (elim (Bool-cases (result.elem == 0)) [
      | inl first ↦ rw (value, first) refl
      | inr second ↦ rw (value, second) refl
    ])
    ∙ ap (λ o. compute o result env) (sym is)
extract_step Opcode.vinsert result source env is value typed =
    elim (Bool-cases (source.elem == result.elem)) [
      | inl same ↦
          rw (same, forward_extract)
            (moved result source.src2 env typed (
                rw value (
                  part-insert_self source.elem result.elem (part (env source.src2) 0)
                    (env source.src1) same))
              ∙ ap (λ o. compute o result env) (sym is))
      | inr other ↦ rw (other, forward_extract) refl
    ]
extract_step _ result source env is value typed = refl

insert_step :
    (op : Opcode) (result source : Result) (env : ℕ → Value)
    → result.opcode ≡ Opcode.vinsert
    → result.elem < 2
    → source.elem < 2
    → env result.src1 ≡ compute op source env
    → let new : Result = rewritten (forward_insert op result source) result in
      compute new.opcode new env ≡ compute result.opcode result env
unfolding forward_insert compute
insert_step Opcode.vbuild2 result source env is l l' value = elim (Bool-cases (result.elem == 0)) [
  | inl first ↦
      rw (first, forward_insert)
        (built result source.src2 env (λ h. rw value refl) (λ h. absurd (true_and_false first h))
          ∙ ap (λ o. compute o result env) (sym is))
  | inr second ↦
      rw (second, forward_insert)
        (built result source.src1 env (λ h. absurd (true_and_false h second)) (λ h. rw value refl)
          ∙ ap (λ o. compute o result env) (sym is))
]
insert_step Opcode.vbroadcast result source env is l l' value =
    built result source.src1 env (λ h. rw value refl) (λ h. rw value refl)
    ∙ ap (λ o. compute o result env) (sym is)
insert_step Opcode.vinsert result source env is l l' value =
    elim (Bool-cases (source.elem == result.elem)) [
      | inl same ↦
          rw (same, forward_insert)
            (ap (λ o. compute o (record result { src1 = source.src1 }) env) is
              ∙ insert-insert source.elem result.elem (part (env result.src2) 0)
                  (part (env source.src2) 0) (env source.src1) same
              ∙ ap (insert result.elem (part (env result.src2) 0)) (sym value)
              ∙ ap (λ o. compute o result env) (sym is))
      | inr other ↦
          rw (other, forward_insert)
            (built result source.src2 env
                (λ h.
                  let at : source.elem == 0 ≡ false = ground (arith, h, other) in
                  rw (value, at) refl)
                (λ h.
                  let at : source.elem == 0 ≡ true = ground (arith, h, other, l, l') in
                  rw (value, at) refl)
              ∙ ap (λ o. compute o result env) (sym is))
    ]
insert_step _ result source env is l l' value = refl

-- Where a VEXTRACT reads a vector that operation `source` computes from scalars, what
-- fold_one_reg_vector() makes of it computes the same value.
pub forward_extract-compute :
    (result source : Result) (env : ℕ → Value)
    → result.opcode ≡ Opcode.vextract
    → env result.src1 ≡ compute source.opcode source env
    → Typed source.opcode source env
    → let new : Result = rewritten (forward_extract source.opcode result source) result in
      compute new.opcode new env ≡ compute result.opcode result env
forward_extract-compute result source env is value typed =
    extract_step source.opcode result source env is value typed

-- Where a VINSERT is into a vector that operation `source` computes, and both name elements 0 or 1, what
-- fold_one_reg_vector() makes of it computes the same vector.
pub forward_insert-compute :
    (result source : Result) (env : ℕ → Value)
    → result.opcode ≡ Opcode.vinsert
    → result.elem < 2
    → source.elem < 2
    → env result.src1 ≡ compute source.opcode source env
    → let new : Result = rewritten (forward_insert source.opcode result source) result in
      compute new.opcode new env ≡ compute result.opcode result env
forward_insert-compute result source env is l l' value =
    insert_step source.opcode result source env is l l' value
