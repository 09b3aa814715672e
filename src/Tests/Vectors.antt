-- ===== src/Tests/Vectors.antt =====
-- fold_one_reg_vector() of src/rtl-opt.c on a vector of two scalars.
use libbinrec.Common.{ℕ, zero, suc, ◌≡◌, refl, some, arith}
use libbinrec.Rtl.Opcode.{Opcode}
use libbinrec.Rtl.Unit.{Result}
use libbinrec.Rtl.Unit.Access.{blank_result}
use libbinrec.Rtl.Opt.Vector.{move_from, forward_extract, forward_insert}
use libbinrec.Rtl.Opt.Vector.Same.{
  Value, scalar, vector, compute, rewritten, forward_extract-compute, forward_insert-compute,
}

-- r3 = {r1, r2}
abbrev build : Result
build = record blank_result { opcode = Opcode.vbuild2; src1 = 1; src2 = 2 }

abbrev extract : Result
extract = record blank_result { opcode = Opcode.vextract; src1 = 3; elem = 1 }

abbrev insert : Result
insert = record blank_result { opcode = Opcode.vinsert; src1 = 3; src2 = 2 }

abbrev env : ℕ → Value
env zero = scalar 0
env (suc zero) = scalar 10
env (suc (suc zero)) = scalar 20
env (suc (suc (suc k))) = vector 10 20

extract_forwarded : forward_extract Opcode.vbuild2 extract build ≡ some (move_from 2 extract, 2)
unfolding forward_extract
extract_forwarded = refl

forward_extract-compute_example :
    compute
      (rewritten (forward_extract Opcode.vbuild2 extract build) extract).opcode
      (rewritten (forward_extract Opcode.vbuild2 extract build) extract)
      env
    ≡ compute Opcode.vextract extract env
unfolding compute
forward_extract-compute_example = forward_extract-compute extract build env refl refl (refl, refl)

forward_insert-compute_example :
    compute
      (rewritten (forward_insert Opcode.vbuild2 insert build) insert).opcode
      (rewritten (forward_insert Opcode.vbuild2 insert build) insert)
      env
    ≡ compute Opcode.vinsert insert env
unfolding compute
forward_insert-compute_example =
    forward_insert-compute insert build env refl (omega arith) (omega arith) refl
