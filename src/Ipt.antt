-- ===== src/Ipt.antt =====
-- src/bpfilter/xlate/ipt/ipt.c: the front of iptables. This file has the rules of iptables and their
-- translation into the daemon's rules and back. The structs are those of the kernel's headers, with the
-- members that the code uses; their sizes are a parameter, `Sizes`.
pub mod Ruleset
pub mod Replace
pub mod Handler
pub mod Filter
pub mod Agree
pub mod Walk
pub mod Placed
pub mod Bits
pub mod Header
pub mod Table
pub mod Slots
pub mod Safe
use Prim.Native.Nat.{bit_or}
use bpfilter.Prelude.{
  ℕ, ◌+◌, ◌-◌, ◌%◌, ◌^◌, Bool, true, false, not, ◌||◌, List, [], ◌∷◌, ◌++◌, Option, none, some, ltb,
  ◌==◌, if◌then◌else◌, length,
}
use bpfilter.Result.{Result, ok, err, fault, ◌>>=◌, ◌>>◌, require, einval, enotsup}
use bpfilter.Bytes.{le, of_le, load}
use bpfilter.Hook.{has_flag}
use bpfilter.Hook.Options.{streq}
use bpfilter.Matcher.{Matcher}
use bpfilter.Rule.{Rule, rule_new, rule_add_matcher}

-- `sizeof` of `struct ipt_entry`, `struct xt_standard_target` and `struct xt_error_target`
pub record Sizes : Type 0 where
  pub entry : ℕ
  pub standard : ℕ
  pub error : ℕ

-- `struct ipt_entry`; an address is the number that the host reads, a name its bytes before the 0.
pub record IptEntry : Type 0 where
  pub src : ℕ
  pub smsk : ℕ
  pub dst : ℕ
  pub dmsk : ℕ
  pub iniface : List ℕ
  pub outiface : List ℕ
  pub proto : ℕ
  pub invflags : ℕ
  pub target_offset : ℕ
  pub next_offset : ℕ
  pub bcnt : ℕ
  pub pcnt : ℕ

-- `struct ipt_entry_target` with the member of `struct ipt_standard_target`, an int by its 32 bits.
pub record IptTarget : Type 0 where
  pub name : List ℕ
  pub verdict : ℕ
  pub target_size : ℕ

-- NF_DROP, NF_ACCEPT; BF_VERDICT_ACCEPT, BF_VERDICT_DROP
abbrev nf_drop : ℕ
nf_drop = 0

abbrev nf_accept : ℕ
nf_accept = 1

abbrev pub verdict_accept : ℕ
verdict_accept = 0

abbrev pub verdict_drop : ℕ
verdict_drop = 1

-- BF_MATCHER_IP4_SRC_ADDR, BF_MATCHER_IP4_DST_ADDR, BF_MATCHER_IP4_PROTO; BF_MATCHER_EQ, BF_MATCHER_NE
abbrev pub ip4_src_addr : ℕ
ip4_src_addr = 5

abbrev pub ip4_dst_addr : ℕ
ip4_dst_addr = 6

abbrev pub ip4_proto : ℕ
ip4_proto = 7

abbrev pub matcher_eq : ℕ
matcher_eq = 0

abbrev pub matcher_ne : ℕ
matcher_ne = 1

-- The bits of IPT_INV_SRCIP and IPT_INV_DSTIP
abbrev pub inv_srcip : ℕ
inv_srcip = 3

abbrev pub inv_dstip : ℕ
inv_dstip = 4

-- _bf_ipt_target_to_verdict; `-verdict - 1` of a negative int.
unfoldable pub target_to_verdict : IptTarget → Result ℕ
unfolding streq
target_to_verdict target =
    if not (streq [] target.name)
    then err enotsup
    else if ltb target.verdict (2 ^ 31)
    then err enotsup
    else if 2 ^ 32 - target.verdict - 1 == nf_accept
    then ok verdict_accept
    else if 2 ^ 32 - target.verdict - 1 == nf_drop
    then ok verdict_drop
    else err enotsup

-- -2 and -1
unfoldable pub verdict_to_target : Sizes → ℕ → IptTarget → Result IptTarget
verdict_to_target sizes verdict target =
    if verdict == verdict_accept
    then ok (record target { verdict = 2 ^ 32 - 2; target_size = sizes.standard })
    else if verdict == verdict_drop
    then ok (record target { verdict = 2 ^ 32 - 1; target_size = sizes.standard })
    else err enotsup

-- `struct bf_matcher_ip4_addr`
abbrev pub addr_bytes : ℕ → ℕ → List ℕ
addr_bytes addr mask = le 4 addr ++ le 4 mask

-- The two blocks of _bf_ipt_entry_to_rule for an address.
unfoldable pub add_addr : Rule → ℕ → ℕ → ℕ → Bool → Result Rule
add_addr rule type addr mask inverted =
    if not (addr == 0) || not (mask == 0)
    then rule_add_matcher rule type (if inverted then matcher_ne else matcher_eq)
        (some (addr_bytes addr mask))
    else ok rule

-- `if (entry->ip.proto)`
unfoldable pub add_proto : Rule → ℕ → Result Rule
add_proto rule proto = if proto == 0 then ok rule else do
  require (proto % 256 == proto) einval
  rule_add_matcher rule ip4_proto matcher_eq (some (proto % 256 ∷ []))

-- _bf_ipt_entry_to_rule; the target is read last, and is none if it is outside of the memory.
unfoldable pub entry_to_rule : Sizes → IptEntry → Option IptTarget → Result Rule
unfolding add_addr add_proto target_to_verdict rule_new
entry_to_rule sizes entry target = do
  require (not (ltb sizes.entry entry.target_offset)) enotsup
  require (length entry.iniface == 0) enotsup
  require (length entry.outiface == 0) enotsup
  a ←
      add_addr (record rule_new { counters = true }) ip4_src_addr entry.src entry.smsk
        (has_flag entry.invflags inv_srcip)
  b ← add_addr a ip4_dst_addr entry.dst entry.dmsk (has_flag entry.invflags inv_dstip)
  c ← add_proto b entry.proto
  verdict ← elim target [ none ↦ fault | some t ↦ target_to_verdict t ]
  ok (record c { verdict = verdict })

-- `if (matcher->op == BF_MATCHER_NE) entry->ip.invflags |= ...;`
abbrev with_flag : ℕ → ℕ → ℕ → ℕ
with_flag op flag invflags = if op == matcher_ne then bit_or invflags (2 ^ flag) else invflags

-- The body of the loop of _bf_rule_to_ipt_entry.
unfoldable pub put_matcher : Matcher → IptEntry → Result IptEntry
put_matcher m entry =
    if m.type == ip4_src_addr
    then (do
      addr ← load m.payload 0 4
      mask ← load m.payload 4 4
      ok (record entry {
        invflags = with_flag m.op inv_srcip entry.invflags;
        src = of_le addr;
        smsk = of_le mask;
      }))
    else if m.type == ip4_dst_addr
    then (do
      addr ← load m.payload 0 4
      mask ← load m.payload 4 4
      ok (record entry {
        invflags = with_flag m.op inv_dstip entry.invflags;
        dst = of_le addr;
        dmsk = of_le mask;
      }))
    else if m.type == ip4_proto
    then (do proto ← load m.payload 0 1; ok (record entry { proto = of_le proto }))
    else err enotsup

unfoldable pub put_matchers : List Matcher → IptEntry → Result IptEntry
unfolding put_matcher
put_matchers [] entry = ok entry
put_matchers (m ∷ matchers) entry = put_matcher m entry >>= put_matchers matchers

-- _bf_rule_to_ipt_entry of an entry and its target.
unfoldable pub rule_to_entry : Sizes → Rule → IptEntry → IptTarget → Result (IptEntry × IptTarget)
unfolding put_matchers verdict_to_target
rule_to_entry sizes rule entry target = do
  filled ← put_matchers rule.matchers entry
  verdict ← verdict_to_target sizes rule.verdict target
  ok (filled, verdict)
