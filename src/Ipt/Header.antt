-- ===== src/Ipt/Header.antt =====
-- The header of a table of iptables, while it is filled in hook by hook.
use Prim.Native.Nat.{bit_or}
use native.Mathlib.Nat.{pow-suc}
use bpfilter.Prelude.{
  ℕ, suc, ◌+◌, ◌*◌, ◌^◌, ◌<◌, ◌≡◌, ◌∙◌, subst, length, set, get_elem?, length-set, get_elem?-set_ne,
  arith,
}
use bpfilter.Hook.{has_flag}
use bpfilter.Ipt.{Sizes}
use bpfilter.Ipt.Ruleset.{IptReplace}
use bpfilter.Ipt.Replace.{rule_size}
use bpfilter.Ipt.Bits.{bit_or-below, bit_or-other}

-- What the hooks from `hook` on leave of a header.
pub record SameBelow (hook : ℕ) (before after : IptReplace) : Type 0 where
  pub flags :
      (lower : ℕ)
      → lower < hook
      → has_flag after.valid_hooks lower ≡ has_flag before.valid_hooks lower
  pub firsts :
      (lower : ℕ)
      → lower < hook
      → get_elem? after.hook_entry lower ≡ get_elem? before.hook_entry lower
  pub lasts :
      (lower : ℕ)
      → lower < hook
      → get_elem? after.underflow lower ≡ get_elem? before.underflow lower

-- A header whose hooks below `hook` are filled in.
pub record IsPartial (hook : ℕ) (replace : IptReplace) : Type 0 where
  pub flags_below : replace.valid_hooks < 2 ^ hook
  pub five_firsts : length replace.hook_entry ≡ 5
  pub five_lasts : length replace.underflow ≡ 5

pub IsPartial-suc :
    (hook : ℕ) (replace : IptReplace) → IsPartial hook replace → IsPartial (suc hook) replace
IsPartial-suc hook replace p = record {
  flags_below = omega (arith, p.flags_below, pow_suc hook);
  five_firsts = p.five_firsts;
  five_lasts = p.five_lasts;
}
  where
    pow_suc : (n : ℕ) → 2 ^ suc n ≡ 2 ^ n * 2
    pow_suc n = pow-suc 2 n

pub below_suc :
    {hook : ℕ} {before after : IptReplace}
    → SameBelow (suc hook) before after
    → SameBelow hook before after
below_suc s = record {
  flags = λ lower h. s.flags lower (omega (arith, h));
  firsts = λ lower h. s.firsts lower (omega (arith, h));
  lasts = λ lower h. s.lasts lower (omega (arith, h));
}

module _ (sizes : Sizes) where
  -- The header with the offsets of a chain.
  abbrev pub with_hook : ℕ → ℕ → ℕ → IptReplace → IptReplace
  with_hook hook first rules replace = record replace {
    valid_hooks = bit_or replace.valid_hooks (2 ^ hook);
    hook_entry = set replace.hook_entry hook first;
    underflow = set replace.underflow hook (first + rules * rule_size sizes);
  }

  pub with_hook-IsPartial :
      (hook first rules : ℕ) (replace : IptReplace)
      → hook < 5
      → IsPartial hook replace
      → IsPartial (suc hook) (with_hook hook first rules replace)
  with_hook-IsPartial hook first rules replace h p = record {
    flags_below =
        subst (λ n. bit_or replace.valid_hooks (2 ^ hook) < 2 ^ n) (omega arith)
          (bit_or-below hook replace.valid_hooks h p.flags_below);
    five_firsts = length-set replace.hook_entry hook first ∙ p.five_firsts;
    five_lasts = length-set replace.underflow hook _ ∙ p.five_lasts;
  }

  pub with_hook-SameBelow :
      (hook first rules : ℕ) (replace after : IptReplace)
      → hook < 5
      → IsPartial hook replace
      → SameBelow (suc hook) (with_hook hook first rules replace) after
      → SameBelow hook replace after
  with_hook-SameBelow hook first rules replace after h p s = record {
    flags = λ lower b.
        s.flags lower (omega (arith, b))
        ∙ bit_or-other hook replace.valid_hooks h p.flags_below lower b;
    firsts = λ lower b.
        s.firsts lower (omega (arith, b))
        ∙ get_elem?-set_ne replace.hook_entry hook lower first (λ e. above lower b e);
    lasts = λ lower b.
        s.lasts lower (omega (arith, b))
        ∙ get_elem?-set_ne replace.underflow hook lower _ (λ e. above lower b e);
  }
    where
      above : (lower : ℕ) → lower < hook → hook ≡ lower → ⊥
      above lower b e = omega (arith, b, e)
