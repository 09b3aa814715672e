-- ===== src/Rtl/Insn/Effect.antt =====
-- What an encoder of src/rtl-insn.c does to the registers: it may set a result register, and it marks
-- registers live.
use native.Mathlib.Decide.{ℕ_discrete}
use libbinrec.Common.{
  ℕ, ◌<◌, ◌≡◌, ◌≢◌, refl, sym, ◌∙◌, ap, subst, not, true, false, ◌⊎◌, inl, inr, List, [], ◌∷◌,
  length, length-modify, get_or-modify_self, get_or-modify_ne, get_or-modify_keep, arith,
}
use libbinrec.Rtl.Opcode.{is_undefined}
use libbinrec.Rtl.Unit.{Register, RtlUnit}
use libbinrec.Rtl.Unit.Access.{reg_at, blank_register, update_reg}
use libbinrec.Rtl.Insn.{mark, rtl_mark_live, mark_all, is_defined}

-- Membership.
abbrev pub Among : ℕ → List ℕ → Type 0
Among r [] = ⊥
Among r (x ∷ xs) = (r ≡ x) ⊎ Among r xs

pub Among-cases : (r : ℕ) (rs : List ℕ) → Among r rs ⊎ ¬ Among r rs
Among-cases r [] = inr (λ a. a)
Among-cases r (x ∷ xs) = elim (ℕ_discrete r x) [
  | yes e ↦ inl (inl e)
  | no ne ↦ elim (Among-cases r xs) [
    | inl a ↦ inl (inr a)
    | inr out ↦ inr (λ a. elim a [ inl e ↦ ne e | inr b ↦ out b ])
  ]
]

module _ (n : ℕ) where
  mark_hit :
      (u : RtlUnit) (r : ℕ)
      → r < length u.regs
      → reg_at (rtl_mark_live u n r) r ≡ mark n (reg_at u r)
  unfolding rtl_mark_live
  mark_hit u r l = get_or-modify_self u.regs r (mark n) blank_register l

  mark_miss : (u : RtlUnit) (r k : ℕ) → r ≢ k → reg_at (rtl_mark_live u n r) k ≡ reg_at u k
  unfolding rtl_mark_live
  mark_miss u r k ne = get_or-modify_ne u.regs r k (mark n) blank_register ne

  length-mark : (u : RtlUnit) (r : ℕ) → length (rtl_mark_live u n r).regs ≡ length u.regs
  unfolding rtl_mark_live
  length-mark u r = length-modify u.regs r (mark n)

  pub length-mark_all : (u : RtlUnit) (rs : List ℕ) → length (mark_all u n rs).regs ≡ length u.regs
  unfolding mark_all
  length-mark_all u [] = refl
  length-mark_all u (x ∷ xs) = length-mark_all (rtl_mark_live u n x) xs ∙ length-mark u x

  pub insns-mark_all : (u : RtlUnit) (rs : List ℕ) → (mark_all u n rs).insns ≡ u.insns
  unfolding mark_all rtl_mark_live
  insns-mark_all u [] = refl
  insns-mark_all u (x ∷ xs) = insns-mark_all (rtl_mark_live u n x) xs

  pub aliases-mark_all : (u : RtlUnit) (rs : List ℕ) → (mark_all u n rs).aliases ≡ u.aliases
  unfolding mark_all rtl_mark_live
  aliases-mark_all u [] = refl
  aliases-mark_all u (x ∷ xs) = aliases-mark_all (rtl_mark_live u n x) xs

  pub blocks-mark_all :
      (u : RtlUnit) (rs : List ℕ) → length (mark_all u n rs).blocks ≡ length u.blocks
  unfolding mark_all rtl_mark_live
  blocks-mark_all u [] = refl
  blocks-mark_all u (x ∷ xs) =
      blocks-mark_all (rtl_mark_live u n x) xs ∙ length-modify u.blocks u.cur_block _

  pub mark_all_miss :
      (u : RtlUnit) (k : ℕ) (rs : List ℕ) → ¬ Among k rs → reg_at (mark_all u n rs) k ≡ reg_at u k
  unfolding mark_all
  mark_all_miss u k [] out = refl
  mark_all_miss u k (x ∷ xs) out =
      mark_all_miss (rtl_mark_live u n x) k xs (λ a. out (inr a))
      ∙ mark_miss u x k (λ e. out (inl (sym e)))

  pub mark_all_hit :
      (u : RtlUnit) (k : ℕ) (rs : List ℕ)
      → k < length u.regs
      → Among k rs
      → reg_at (mark_all u n rs) k ≡ mark n (reg_at u k)
  unfolding mark_all
  mark_all_hit u k [] l a = absurd a
  mark_all_hit u k (x ∷ xs) l a =
      let v : RtlUnit = rtl_mark_live u n x in
      let lv : k < length v.regs = omega (arith, l, length-mark u x) in
      elim (ℕ_discrete x k) [
        | yes e ↦
            let here : reg_at v k ≡ mark n (reg_at u k) =
              subst (λ y. reg_at (rtl_mark_live u n y) k ≡ mark n (reg_at u k)) (sym e)
                (mark_hit u k l) in
            elim (Among-cases k xs) [
              | inl again ↦ mark_all_hit v k xs lv again ∙ ap (mark n) here
              | inr out ↦ mark_all_miss v k xs out ∙ here
            ]
        | no ne ↦
            let rest : Among k xs = elim a [ inl e ↦ absurd (ne (sym e)) | inr b ↦ b ] in
            mark_all_hit v k xs lv rest ∙ ap (mark n) (mark_miss u x k ne)
      ]

-- The unit with the result register set: its liveness stays, and it is defined.
pub data Setting (u : RtlUnit) : RtlUnit → ℕ → Type 0 where
  nothing : Setting u u 0
  result :
      (dest : ℕ) (f : Register → Register)
      → ((reg : Register) → (f reg).live ≡ reg.live)
      → ((reg : Register) → (f reg).birth ≡ reg.birth)
      → ((reg : Register) → (f reg).death ≡ reg.death)
      → ((reg : Register) → is_undefined (f reg).source ≡ false)
      → Setting u (update_reg u dest f) dest

-- What the setting keeps, and what it gives.
pub record Kept (u set : RtlUnit) (dest : ℕ) : Type 0 where
  pub size : length set.regs ≡ length u.regs
  pub insns : set.insns ≡ u.insns
  pub aliases : set.aliases ≡ u.aliases
  pub live : (r : ℕ) → (reg_at set r).live ≡ (reg_at u r).live
  pub births : (r : ℕ) → (reg_at set r).birth ≡ (reg_at u r).birth
  pub deaths : (r : ℕ) → (reg_at set r).death ≡ (reg_at u r).death
  pub other : (r : ℕ) → dest ≢ r → is_defined set r ≡ is_defined u r
  pub defined : 0 < dest → dest < length u.regs → is_defined set dest ≡ true

pub Setting-Kept : (u set : RtlUnit) (dest : ℕ) → Setting u set dest → Kept u set dest
Setting-Kept u _ _ nothing = record {
  size = refl;
  insns = refl;
  aliases = refl;
  live = λ r. refl;
  births = λ r. refl;
  deaths = λ r. refl;
  other = λ r ne. refl;
  defined = λ p l. absurd (omega arith);
}
Setting-Kept u _ _ (result dest f live births deaths defined) = record {
  size = length-modify u.regs dest f;
  insns = refl;
  aliases = refl;
  live = λ r. get_or-modify_keep (λ x. x.live) u.regs dest r f blank_register live;
  births = λ r. get_or-modify_keep (λ x. x.birth) u.regs dest r f blank_register births;
  deaths = λ r. get_or-modify_keep (λ x. x.death) u.regs dest r f blank_register deaths;
  other = λ r ne.
      ap (λ x. not (is_undefined x.source)) (get_or-modify_ne u.regs dest r f blank_register ne);
  defined = λ p l.
      ap (λ x. not (is_undefined x.source)) (get_or-modify_self u.regs dest f blank_register l)
      ∙ ap not (defined (reg_at u dest));
}
