-- ===== src/Rule/RoundTrip.antt =====
-- The serialised form of a rule, written and read.
use bpfilter.Prelude.{
  not, ◌==◌, ℕ, ◌^◌, ◌<◌, ◌≡◌, refl, ap, Bool, true, false, List, [], ◌∷◌, none, some, length,
  arith, append_assoc, append-nil, All, map,
}
use bpfilter.Result.{ok, ◌>>=◌}
use bpfilter.Bytes.{le, At}
use bpfilter.Marsh.{marsh_new, image}
use bpfilter.Marsh.Children.{
  image-marsh_new, enc, children, add_child_raw-marsh_new, add_child_obj-marsh_new, Visits-start,
  require_child-Visits, field-Visits,
}
use bpfilter.Marsh.Loop.{all_children_back, list_marsh-marsh_new}
use bpfilter.Matcher.{matcher_marsh, matcher_new_from_marsh}
use bpfilter.Matcher.RoundTrip.{matcher_bytes, matcher_marsh_lem, matcher_new_from_marsh-At}
use bpfilter.Matcher.RoundTrip as MatcherTrip
use bpfilter.Rule.{Rule, bool_byte, rule_marsh, rule_unmarsh}

pub record IsValid (rule : Rule) : Type 0 where
  pub index_fits : rule.index < 2 ^ 32
  pub verdict_fits : rule.verdict < 2 ^ 32
  pub valid_matchers : All MatcherTrip.IsValid rule.matchers

rule_fields : Rule → List (List ℕ)
rule_fields rule =
    le 4 rule.index
    ∷ children (map matcher_bytes rule.matchers)
    ∷ le 1 (bool_byte rule.counters)
    ∷ le 4 rule.verdict
    ∷ []

pub rule_bytes : Rule → List ℕ
unfolding rule_fields
rule_bytes rule = children (rule_fields rule)

pub rule_marsh_lem : (rule : Rule) → IsValid rule → rule_marsh rule ≡ marsh_new (rule_bytes rule)
unfolding rule_marsh rule_bytes
rule_marsh_lem rule v =
    let inner =
      list_marsh-marsh_new MatcherTrip.IsValid matcher_marsh matcher_bytes rule.matchers []
        v.valid_matchers matcher_marsh_lem in
    simp (inner, add_child_raw-marsh_new, add_child_obj-marsh_new, append_assoc, append-nil)

pub flag_back : (counters : Bool) → not (bool_byte counters == 0) ≡ counters
flag_back true = refl
flag_back false = refl

same_but_counters :
    (rule : Rule) (c : Bool) → c ≡ rule.counters → record rule { counters = c } ≡ rule
same_but_counters rule c e = λ i. record rule { counters = e i }

pub bool_byte-lt : (c : Bool) → bool_byte c < 256 ^ 1
bool_byte-lt true = omega arith
bool_byte-lt false = omega arith

module _ (b : List ℕ) (fits : length b < 2 ^ 64) where
  pub rule_unmarsh-At :
      (c : ℕ) (rule : Rule)
      → IsValid rule
      → At b c (enc (rule_bytes rule))
      → rule_unmarsh b c ≡ ok rule
  unfolding rule_unmarsh rule_bytes
  rule_unmarsh-At c rule v a =
      field-Visits b fits c none 4 rule.index _ _ _ v.index_fits
        (Visits-start b fits c (rule_fields rule) a)
        λ c₁ v₁. require_child-Visits b fits c (some c₁) _ _ _ _ v₁ λ c₂ a₂ v₂.
          rw
            (
              all_children_back b fits MatcherTrip.IsValid matcher_bytes (matcher_new_from_marsh b)
                  c₂ rule.matchers v.valid_matchers a₂ (matcher_new_from_marsh-At b fits),
              ◌>>=◌,
            )
            (field-Visits b fits c (some c₂) 1 (bool_byte rule.counters) _ _ _
              (bool_byte-lt rule.counters) v₂
              λ c₃ v₃.
                field-Visits b fits c (some c₃) 4 rule.verdict _ _ _ v.verdict_fits v₃
                  λ c₄ v₄. ap ok (same_but_counters rule _ (flag_back rule.counters)))

  -- A valid rule is read back from its serialised form as it was, with its matchers in their order,
  -- wherever that form lies in a memory block smaller than
  -- 2^64 bytes.
  pub rule_unmarsh-rule_marsh :
      (c : ℕ) (rule : Rule)
      → IsValid rule
      → At b c (image (rule_marsh rule))
      → rule_unmarsh b c ≡ ok rule
  rule_unmarsh-rule_marsh c rule v a =
      rule_unmarsh-At c rule v (rw (rule_marsh_lem rule v, image-marsh_new) at a)
