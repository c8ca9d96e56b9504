-- ===== src/Boot/Quirks.antt =====
-- The registers of the system control coprocessor that src/main.c reads and writes:
-- `cortex_a7_init_quirks`.
use sunxi_babelfish.Common.{
  ℕ, ◌+◌, ◌/◌, ◌%◌, ◌^◌, ◌≡◌, refl, ◌≢◌, ◌∙◌, sym, ◌⊎◌, inl, inr, ◌==◌, if◌then◌else◌, arith,
  Bool-cases,
}
use mathlib.Core.Path.{subst}

-- The Main ID Register, the Auxiliary Control Register and the frequency of the arch timers.
pub record Cp15 : Type 0 where
  pub midr : ℕ
  pub actlr : ℕ
  pub cntfrq : ℕ

-- `orr r0, r0, #0x40`, which sets bit 6.
abbrev pub orr_smp : ℕ → ℕ
orr_smp r0 = if r0 / 2 ^ 6 % 2 == 0 then r0 + 0x40 else r0

unfoldable pub cortex_a7_init_quirks : Cp15 → Cp15
cortex_a7_init_quirks p = record p { actlr = orr_smp p.actlr; cntfrq = 24000000 }

-- SMP mode is on, every other bit of that register is what it was, and the timers have their
-- frequency.
pub record IsQuirked (before after : Cp15) : Type 0 where
  pub smp : after.actlr / 2 ^ 6 % 2 ≡ 1
  pub low_bits : after.actlr % 2 ^ 6 ≡ before.actlr % 2 ^ 6
  pub high_bits : after.actlr / 2 ^ 7 ≡ before.actlr / 2 ^ 7
  pub frequency : after.cntfrq ≡ 24000000
  pub midr : after.midr ≡ before.midr

pub cortex_a7_init_quirks-IsQuirked : (p : Cp15) → IsQuirked p (cortex_a7_init_quirks p)
unfolding cortex_a7_init_quirks
cortex_a7_init_quirks-IsQuirked p = record {
  smp = ground arith;
  low_bits = ground arith;
  high_bits = ground arith;
  frequency = refl;
  midr = refl;
}

pub quirks_applied :
    (id : ℕ) (p q : Cp15)
    → q ≡ (if id == 0xc07 then cortex_a7_init_quirks p else p)
    → ((id ≡ 0xc07) × IsQuirked p q) ⊎ ((id ≢ 0xc07) × (q ≡ p))
quirks_applied id p q e = elim (Bool-cases (id == 0xc07)) [
  | inl h ↦ inl (
    ground arith,
    subst (λ (r : Cp15). IsQuirked p r) (sym (e ∙ rw h refl)) (cortex_a7_init_quirks-IsQuirked p),
  )
  | inr h ↦ inr (ground arith, e ∙ rw h refl)
]
