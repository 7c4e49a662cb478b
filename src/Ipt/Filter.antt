-- ===== src/Ipt/Filter.antt =====
-- What a rule of iptables that the front supports stands for.
use bpfilter.Prelude.{
  ℕ, zero, suc, ◌+◌, ◌-◌, ◌%◌, ◌^◌, ◌<◌, ◌≡◌, refl, sym, ap, Bool, true, false, not, ◌||◌, List, [],
  ◌∷◌, ◌++◌, append-nil, ◌==◌, if◌then◌else◌, Bool-cases, inl, inr, arith,
}
use bpfilter.Result.{ok}
use bpfilter.Bytes.{le}
use bpfilter.Hook.{has_flag}
use bpfilter.Hook.Options.{streq}
use bpfilter.Matcher.{Matcher, matcher_new}
use bpfilter.Rule.{Rule, rule_add_matcher}
use bpfilter.Ipt.{
  Sizes, IptEntry, IptTarget, ip4_src_addr, ip4_dst_addr, ip4_proto, matcher_eq, matcher_ne,
  inv_srcip, inv_dstip, target_to_verdict, verdict_to_target, addr_bytes, add_addr, add_proto,
}
use bpfilter.Ipt.Replace.{zero_target, standard_entry}

-- An IPv4 rule: the packets from and to some addresses, or from and to others, of a protocol or, if that
-- is 0, of all, and what happens to them. A zero address with a zero mask is not looked at.
pub record Filter : Type 0 where
  pub src : ℕ
  pub smsk : ℕ
  pub not_src : Bool
  pub dst : ℕ
  pub dmsk : ℕ
  pub not_dst : Bool
  pub proto : ℕ
  pub verdict : ℕ

abbrev pub is_given : ℕ → ℕ → Bool
is_given addr mask = not (addr == 0) || not (mask == 0)

-- The numbers have the widths of the fields, the verdict is to accept or to drop, and only an address
-- that is given is negated.
pub record IsFilter (f : Filter) : Type 0 where
  pub src_fits : f.src < 2 ^ 32
  pub smsk_fits : f.smsk < 2 ^ 32
  pub dst_fits : f.dst < 2 ^ 32
  pub dmsk_fits : f.dmsk < 2 ^ 32
  pub proto_fits : f.proto < 256
  pub verdict_known : f.verdict < 2
  pub src_given : is_given f.src f.smsk ≡ false → f.not_src ≡ false
  pub dst_given : is_given f.dst f.dmsk ≡ false → f.not_dst ≡ false

-- IPT_INV_SRCIP and IPT_INV_DSTIP
abbrev pub flags_of : Bool → Bool → ℕ
flags_of not_src not_dst = (if not_src then 8 else 0) + (if not_dst then 16 else 0)

abbrev pub entry_of : Sizes → Filter → IptEntry
entry_of sizes f = record (standard_entry sizes) {
  src = f.src;
  smsk = f.smsk;
  dst = f.dst;
  dmsk = f.dmsk;
  proto = f.proto;
  invflags = flags_of f.not_src f.not_dst;
}

abbrev pub code_of : ℕ → ℕ
code_of verdict = if verdict == 0 then 2 ^ 32 - 2 else 2 ^ 32 - 1

abbrev pub target_of : Sizes → ℕ → IptTarget
target_of sizes verdict = record zero_target {
  verdict = code_of verdict;
  target_size = sizes.standard;
}

abbrev pub addr_matchers : ℕ → ℕ → ℕ → Bool → List Matcher
addr_matchers type addr mask negated =
    if is_given addr mask
    then record {
      type = type;
      op = if negated then matcher_ne else matcher_eq;
      len = 24;
      payload = addr_bytes addr mask;
    }
      ∷ []
    else []

abbrev pub proto_matchers : ℕ → List Matcher
proto_matchers proto =
    if proto == 0
    then []
    else record { type = ip4_proto; op = matcher_eq; len = 17; payload = proto ∷ [] } ∷ []

abbrev pub matchers_of : Filter → List Matcher
matchers_of f =
    addr_matchers ip4_src_addr f.src f.smsk f.not_src
    ++ (addr_matchers ip4_dst_addr f.dst f.dmsk f.not_dst ++ proto_matchers f.proto)

-- The rule at an index, with counters as iptables has them for each rule.
abbrev pub rule_of : ℕ → Filter → Rule
rule_of index f = record {
  index = index;
  matchers = matchers_of f;
  counters = true;
  verdict = f.verdict;
}

pub add_addr_lem :
    (rule : Rule) (type addr mask : ℕ) (negated : Bool)
    → add_addr rule type addr mask negated
      ≡ ok (record rule { matchers = rule.matchers ++ addr_matchers type addr mask negated })
unfolding add_addr rule_add_matcher matcher_new le
add_addr_lem rule type addr mask negated = elim (Bool-cases (is_given addr mask)) [
  | inl g ↦ rw g refl
  | inr g ↦ rw g (ap (λ l. ok (record rule { matchers = l })) (sym (append-nil rule.matchers)))
]

pub add_proto_lem :
    (rule : Rule) (proto : ℕ)
    → proto < 256
    → add_proto rule proto ≡ ok (record rule { matchers = rule.matchers ++ proto_matchers proto })
unfolding add_proto rule_add_matcher matcher_new
add_proto_lem rule proto h = elim (Bool-cases (proto == 0)) [
  | inl z ↦ rw z (ap (λ l. ok (record rule { matchers = l })) (sym (append-nil rule.matchers)))
  | inr n ↦
      let same : proto % 256 ≡ proto = omega (arith, h) in
      let known : (proto == proto) ≡ true = ground arith in rw (n, same, known) refl
]

pub srcip_flag : (a b : Bool) → has_flag (flags_of a b) inv_srcip ≡ a
unfolding has_flag
srcip_flag true true = refl
srcip_flag true false = refl
srcip_flag false true = refl
srcip_flag false false = refl

pub dstip_flag : (a b : Bool) → has_flag (flags_of a b) inv_dstip ≡ b
unfolding has_flag
dstip_flag true true = refl
dstip_flag true false = refl
dstip_flag false true = refl
dstip_flag false false = refl

pub target_to_verdict-target_of :
    (sizes : Sizes) (verdict : ℕ)
    → verdict < 2
    → target_to_verdict (target_of sizes verdict) ≡ ok verdict
unfolding target_to_verdict streq
target_to_verdict-target_of sizes zero h = refl
target_to_verdict-target_of sizes (suc zero) h = refl
target_to_verdict-target_of sizes (suc (suc n)) h = absurd (omega (arith, h))

pub verdict_to_target-target_of :
    (sizes : Sizes) (verdict : ℕ)
    → verdict < 2
    → verdict_to_target sizes verdict zero_target ≡ ok (target_of sizes verdict)
unfolding verdict_to_target
verdict_to_target-target_of sizes zero h = refl
verdict_to_target-target_of sizes (suc zero) h = refl
verdict_to_target-target_of sizes (suc (suc n)) h = absurd (omega (arith, h))
