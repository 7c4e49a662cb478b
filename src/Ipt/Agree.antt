-- ===== src/Ipt/Agree.antt =====
-- The two translations of a rule of iptables, one after the other.
use bpfilter.Prelude.{
  ℕ, ◌≡◌, refl, ap, Bool, true, false, List, [], ◌∷◌, ◌++◌, append_assoc, some, ◌==◌, ltb,
  if◌then◌else◌, Bool-cases, inl, inr, arith,
}
use bpfilter.Result.{Result, ok, err, fault, ◌>>=◌}
use bpfilter.Bytes.{le, of_le, of_le-le, load}
use bpfilter.Matcher.{Matcher}
use bpfilter.Rule.{rule_new}
use bpfilter.Ipt.{
  Sizes, IptEntry, ip4_src_addr, ip4_dst_addr, matcher_eq, matcher_ne, inv_srcip, inv_dstip,
  addr_bytes, entry_to_rule, put_matcher, put_matchers, rule_to_entry, with_flag,
}
use bpfilter.Ipt.Replace.{zero_target, standard_entry}
use bpfilter.Ipt.Filter.{
  Filter, IsFilter, is_given, flags_of, entry_of, target_of, addr_matchers, proto_matchers,
  matchers_of, rule_of, add_addr_lem, add_proto_lem, srcip_flag, dstip_flag,
  target_to_verdict-target_of, verdict_to_target-target_of,
}

-- Counters are not looked at.
abbrev pub counted_entry : Sizes → Filter → ℕ → ℕ → IptEntry
counted_entry sizes f bcnt pcnt = record (entry_of sizes f) { bcnt = bcnt; pcnt = pcnt }

bind-both :
    {A B : Type 0} (r : Result A) (whole first : A → Result B) (second : B → Result B)
    → ((a : A) → whole a ≡ first a >>= second)
    → (r >>= whole) ≡ (r >>= first) >>= second
bind-both (ok a) whole first second h = h a
bind-both (err n) whole first second h = refl
bind-both fault whole first second h = refl

module _ (sizes : Sizes) (f : Filter) (v : IsFilter f) where
  -- From iptables: an entry that stands for a filter becomes the rule that stands for it.
  pub entry_to_rule-entry_of :
      (bcnt pcnt : ℕ)
      → entry_to_rule sizes (counted_entry sizes f bcnt pcnt) (some (target_of sizes f.verdict))
        ≡ ok (rule_of 0 f)
  unfolding entry_to_rule rule_new
  entry_to_rule-entry_of bcnt pcnt =
      let fits : ltb sizes.entry sizes.entry ≡ false = ground arith in
      let src =
        add_addr_lem (record rule_new { counters = true }) ip4_src_addr f.src f.smsk f.not_src in
      rw
        (
          fits,
          srcip_flag f.not_src f.not_dst,
          dstip_flag f.not_src f.not_dst,
          src,
          ◌>>=◌,
          add_addr_lem _ ip4_dst_addr f.dst f.dmsk f.not_dst,
          add_proto_lem _ f.proto v.proto_fits,
          target_to_verdict-target_of sizes f.verdict v.verdict_known,
        )
        (ap (λ l. ok (record { index = 0; matchers = l; counters = true; verdict = f.verdict }))
          (append_assoc _ _ (proto_matchers f.proto)))

  load_addr :
      (addr mask : ℕ)
      → (load (addr_bytes addr mask) 0 4 ≡ ok (le 4 addr))
        × (load (addr_bytes addr mask) 4 4 ≡ ok (le 4 mask))
  unfolding load le
  load_addr addr mask = (refl, refl)

  -- The entry when the source address is put into it, and the destination address too.
  abbrev with_src : IptEntry
  with_src = record (standard_entry sizes) {
    src = f.src;
    smsk = f.smsk;
    invflags = flags_of f.not_src false;
  }

  abbrev with_dst : IptEntry
  with_dst = record with_src { dst = f.dst; dmsk = f.dmsk; invflags = flags_of f.not_src f.not_dst }

  not_given : (addr mask : ℕ) → is_given addr mask ≡ false → (addr ≡ 0) × (mask ≡ 0)
  not_given addr mask h = (ground (arith, h), ground (arith, h))

  or_srcip :
      (negated : Bool)
      → with_flag (if negated then matcher_ne else matcher_eq) inv_srcip 0 ≡ flags_of negated false
  or_srcip true = refl
  or_srcip false = refl

  or_dstip :
      (a negated : Bool)
      → with_flag (if negated then matcher_ne else matcher_eq) inv_dstip (flags_of a false)
        ≡ flags_of a negated
  or_dstip true true = refl
  or_dstip true false = refl
  or_dstip false true = refl
  or_dstip false false = refl

  put_src :
      put_matchers (addr_matchers ip4_src_addr f.src f.smsk f.not_src) (standard_entry sizes)
      ≡ ok with_src
  unfolding put_matchers put_matcher
  put_src = elim (Bool-cases (is_given f.src f.smsk)) [
    | inl g ↦
        rw
          (
            g,
            (load_addr f.src f.smsk).0,
            (load_addr f.src f.smsk).1,
            ◌>>=◌,
            of_le-le 4 f.src v.src_fits,
            of_le-le 4 f.smsk v.smsk_fits,
            or_srcip f.not_src,
          )
          refl
    | inr g ↦ rw (g, (not_given f.src f.smsk g).0, (not_given f.src f.smsk g).1, v.src_given g) refl
  ]

  put_dst : put_matchers (addr_matchers ip4_dst_addr f.dst f.dmsk f.not_dst) with_src ≡ ok with_dst
  unfolding put_matchers put_matcher
  put_dst = elim (Bool-cases (is_given f.dst f.dmsk)) [
    | inl g ↦
        rw
          (
            g,
            (load_addr f.dst f.dmsk).0,
            (load_addr f.dst f.dmsk).1,
            ◌>>=◌,
            of_le-le 4 f.dst v.dst_fits,
            of_le-le 4 f.dmsk v.dmsk_fits,
            or_dstip f.not_src f.not_dst,
          )
          refl
    | inr g ↦ rw (g, (not_given f.dst f.dmsk g).0, (not_given f.dst f.dmsk g).1, v.dst_given g) refl
  ]

  put_proto : put_matchers (proto_matchers f.proto) with_dst ≡ ok (entry_of sizes f)
  unfolding put_matchers put_matcher load of_le
  put_proto = elim (Bool-cases (f.proto == 0)) [
    | inl z ↦ let none : f.proto ≡ 0 = ground (arith, z) in rw (z, none) refl
    | inr n ↦ rw n (ap (λ p. ok (record (entry_of sizes f) { proto = p })) (omega arith))
  ]

  put_matchers-append :
      (xs ys : List Matcher) (entry : IptEntry)
      → put_matchers (xs ++ ys) entry ≡ put_matchers xs entry >>= put_matchers ys
  unfolding put_matchers
  put_matchers-append [] ys entry = refl
  put_matchers-append (x ∷ xs) ys entry =
      bind-both (put_matcher x entry) _ _ (put_matchers ys) (put_matchers-append xs ys)

  put_all : put_matchers (matchers_of f) (standard_entry sizes) ≡ ok (entry_of sizes f)
  put_all =
      rw
        (
          put_matchers-append (addr_matchers ip4_src_addr f.src f.smsk f.not_src)
              (addr_matchers ip4_dst_addr f.dst f.dmsk f.not_dst ++ proto_matchers f.proto)
              (standard_entry sizes),
          put_src,
          ◌>>=◌,
          put_matchers-append (addr_matchers ip4_dst_addr f.dst f.dmsk f.not_dst)
              (proto_matchers f.proto) with_src,
          put_dst,
        )
        put_proto

  -- To iptables: the rule that stands for a filter becomes the entry and the target that stand for it.
  pub rule_to_entry-rule_of :
      (index : ℕ)
      → rule_to_entry sizes (rule_of index f) (standard_entry sizes) zero_target
        ≡ ok (entry_of sizes f, target_of sizes f.verdict)
  unfolding rule_to_entry
  rule_to_entry-rule_of index =
      rw (put_all, ◌>>=◌, verdict_to_target-target_of sizes f.verdict v.verdict_known) refl
