-- ===== src/Rtl/Opcode.antt =====
-- RTLDataType, RTLOpcode and RTLRegType of src/rtl.h and src/rtl-internal.h.
use libbinrec.Common.{ℕ, ◌||◌, Bool, true, false, if◌then◌else◌}

pub data DataType : Type 0 where
  int32 int64 address float32 float64 v2_float32 v2_float64 fpstate : DataType

-- The value of the enumerator.
unfoldable pub type_num : DataType → ℕ
type_num DataType.int32 = 1
type_num DataType.int64 = 2
type_num DataType.address = 3
type_num DataType.float32 = 4
type_num DataType.float64 = 5
type_num DataType.v2_float32 = 6
type_num DataType.v2_float64 = 7
type_num DataType.fpstate = 8

-- The types that rtl.h calls integers: INT32, INT64 and ADDRESS.
unfoldable pub type_is_int : DataType → Bool
type_is_int DataType.int32 = true
type_is_int DataType.int64 = true
type_is_int DataType.address = true
type_is_int _ = false

-- rtl_type_is_float(), rtl_type_is_scalar() and rtl_type_is_vector()
unfoldable pub type_is_float : DataType → Bool
type_is_float DataType.float32 = true
type_is_float DataType.float64 = true
type_is_float _ = false

unfoldable pub type_is_vector : DataType → Bool
type_is_vector DataType.v2_float32 = true
type_is_vector DataType.v2_float64 = true
type_is_vector _ = false

unfoldable pub type_is_scalar : DataType → Bool
type_is_scalar type = type_is_int type || type_is_float type

-- rtl_vector_length() and rtl_vector_element_type()
unfoldable pub vector_length : DataType → ℕ
vector_length type = if type_is_vector type then 2 else 1

unfoldable pub vector_element_type : DataType → DataType
vector_element_type DataType.v2_float32 = DataType.float32
vector_element_type DataType.v2_float64 = DataType.float64
vector_element_type type = type

-- `type == RTLTYPE_INT32`
abbrev pub is_int32 : DataType → Bool
is_int32 DataType.int32 = true
is_int32 _ = false

-- `type == RTLTYPE_FLOAT32`
abbrev pub is_float32 : DataType → Bool
is_float32 DataType.float32 = true
is_float32 _ = false

pub data Opcode : Type 0 where
  nop set_alias get_alias move select scast zcast sext8 : Opcode
  sext16 add sub neg mul mulhu mulhs divu : Opcode
  divs modu mods and or xor not sll : Opcode
  srl sra rol ror clz bswap seq sltu : Opcode
  slts sgtu sgts bfext bfins addi muli andi : Opcode
  ori xori slli srli srai rori seqi sltui : Opcode
  sltsi sgtui sgtsi bitcast fcvt fzcast fscast froundi : Opcode
  ftrunci fneg fabs fnabs fadd fsub fmul fdiv : Opcode
  fsqrt fmadd fmsub fnmadd fnmsub fcmp fgetstate fsetstate : Opcode
  ftestexc fclearexc fsetround fcopyround vbuild2 vbroadcast vextract vinsert : Opcode
  vfcvt vfcmp load_imm load_arg load load_u8 load_s8 load_u16 : Opcode
  load_s16 store store_i8 store_i16 load_br load_u16_br load_s16_br store_br : Opcode
  store_i16_br atomic_inc cmpxchg label goto goto_if_z goto_if_nz call : Opcode
  call_transparent return chain chain_resolve illegal : Opcode

-- The value of the enumerator.
unfoldable pub opcode_num : Opcode → ℕ
opcode_num Opcode.nop = 1
opcode_num Opcode.set_alias = 2
opcode_num Opcode.get_alias = 3
opcode_num Opcode.move = 4
opcode_num Opcode.select = 5
opcode_num Opcode.scast = 6
opcode_num Opcode.zcast = 7
opcode_num Opcode.sext8 = 8
opcode_num Opcode.sext16 = 9
opcode_num Opcode.add = 10
opcode_num Opcode.sub = 11
opcode_num Opcode.neg = 12
opcode_num Opcode.mul = 13
opcode_num Opcode.mulhu = 14
opcode_num Opcode.mulhs = 15
opcode_num Opcode.divu = 16
opcode_num Opcode.divs = 17
opcode_num Opcode.modu = 18
opcode_num Opcode.mods = 19
opcode_num Opcode.and = 20
opcode_num Opcode.or = 21
opcode_num Opcode.xor = 22
opcode_num Opcode.not = 23
opcode_num Opcode.sll = 24
opcode_num Opcode.srl = 25
opcode_num Opcode.sra = 26
opcode_num Opcode.rol = 27
opcode_num Opcode.ror = 28
opcode_num Opcode.clz = 29
opcode_num Opcode.bswap = 30
opcode_num Opcode.seq = 31
opcode_num Opcode.sltu = 32
opcode_num Opcode.slts = 33
opcode_num Opcode.sgtu = 34
opcode_num Opcode.sgts = 35
opcode_num Opcode.bfext = 36
opcode_num Opcode.bfins = 37
opcode_num Opcode.addi = 38
opcode_num Opcode.muli = 39
opcode_num Opcode.andi = 40
opcode_num Opcode.ori = 41
opcode_num Opcode.xori = 42
opcode_num Opcode.slli = 43
opcode_num Opcode.srli = 44
opcode_num Opcode.srai = 45
opcode_num Opcode.rori = 46
opcode_num Opcode.seqi = 47
opcode_num Opcode.sltui = 48
opcode_num Opcode.sltsi = 49
opcode_num Opcode.sgtui = 50
opcode_num Opcode.sgtsi = 51
opcode_num Opcode.bitcast = 52
opcode_num Opcode.fcvt = 53
opcode_num Opcode.fzcast = 54
opcode_num Opcode.fscast = 55
opcode_num Opcode.froundi = 56
opcode_num Opcode.ftrunci = 57
opcode_num Opcode.fneg = 58
opcode_num Opcode.fabs = 59
opcode_num Opcode.fnabs = 60
opcode_num Opcode.fadd = 61
opcode_num Opcode.fsub = 62
opcode_num Opcode.fmul = 63
opcode_num Opcode.fdiv = 64
opcode_num Opcode.fsqrt = 65
opcode_num Opcode.fmadd = 66
opcode_num Opcode.fmsub = 67
opcode_num Opcode.fnmadd = 68
opcode_num Opcode.fnmsub = 69
opcode_num Opcode.fcmp = 70
opcode_num Opcode.fgetstate = 71
opcode_num Opcode.fsetstate = 72
opcode_num Opcode.ftestexc = 73
opcode_num Opcode.fclearexc = 74
opcode_num Opcode.fsetround = 75
opcode_num Opcode.fcopyround = 76
opcode_num Opcode.vbuild2 = 77
opcode_num Opcode.vbroadcast = 78
opcode_num Opcode.vextract = 79
opcode_num Opcode.vinsert = 80
opcode_num Opcode.vfcvt = 81
opcode_num Opcode.vfcmp = 82
opcode_num Opcode.load_imm = 83
opcode_num Opcode.load_arg = 84
opcode_num Opcode.load = 85
opcode_num Opcode.load_u8 = 86
opcode_num Opcode.load_s8 = 87
opcode_num Opcode.load_u16 = 88
opcode_num Opcode.load_s16 = 89
opcode_num Opcode.store = 90
opcode_num Opcode.store_i8 = 91
opcode_num Opcode.store_i16 = 92
opcode_num Opcode.load_br = 93
opcode_num Opcode.load_u16_br = 94
opcode_num Opcode.load_s16_br = 95
opcode_num Opcode.store_br = 96
opcode_num Opcode.store_i16_br = 97
opcode_num Opcode.atomic_inc = 98
opcode_num Opcode.cmpxchg = 99
opcode_num Opcode.label = 100
opcode_num Opcode.goto = 101
opcode_num Opcode.goto_if_z = 102
opcode_num Opcode.goto_if_nz = 103
opcode_num Opcode.call = 104
opcode_num Opcode.call_transparent = 105
opcode_num Opcode.return = 106
opcode_num Opcode.chain = 107
opcode_num Opcode.chain_resolve = 108
opcode_num Opcode.illegal = 109

-- `RTLRegType`
pub data RegType : Type 0 where
  undefined constant constant_nofold func_arg memory alias result result_nofold : RegType

-- `source == RTLREG_CONSTANT`
abbrev pub is_constant : RegType → Bool
is_constant RegType.constant = true
is_constant _ = false

abbrev pub is_undefined : RegType → Bool
is_undefined RegType.undefined = true
is_undefined _ = false

-- rtl_opcode_has_src3()
unfoldable pub opcode_has_src3 : Opcode → Bool
opcode_has_src3 Opcode.select = true
opcode_has_src3 Opcode.fmadd = true
opcode_has_src3 Opcode.fmsub = true
opcode_has_src3 Opcode.fnmadd = true
opcode_has_src3 Opcode.fnmsub = true
opcode_has_src3 Opcode.cmpxchg = true
opcode_has_src3 Opcode.call = true
opcode_has_src3 Opcode.call_transparent = true
opcode_has_src3 _ = false

-- rtl_opcode_has_alias()
unfoldable pub opcode_has_alias : Opcode → Bool
opcode_has_alias Opcode.get_alias = true
opcode_has_alias Opcode.set_alias = true
opcode_has_alias _ = false
