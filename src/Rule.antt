-- ===== src/Rule.antt =====
-- src/core/rule.c: a rule is a list of matchers, a counters flag and a verdict.
-- A `bf_list` of rules or matchers is the list of its elements.
use bpfilter.Prelude.{ℕ, ◌++◌, Bool, true, false, not, List, [], ◌∷◌, Option, none, some, ◌==◌}
use bpfilter.Result.{Result, ok, err, fault, ◌>>=◌}
use bpfilter.Bytes.{le}
use bpfilter.Marsh.{
  Marsh, marsh_new, add_child_raw, add_child_obj, require_child, load_uint, all_children,
  list_marsh,
}
use bpfilter.Matcher.{Matcher, matcher_new, matcher_new_from_marsh, matcher_marsh}
pub mod RoundTrip

-- `struct bf_rule`
pub record Rule : Type 0 where
  pub index : ℕ
  pub matchers : List Matcher
  pub counters : Bool
  pub verdict : ℕ

-- bf_rule_new: `calloc` clears every field, and BF_VERDICT_ACCEPT is 0.
unfoldable pub rule_new : Rule
rule_new = record { index = 0; matchers = []; counters = false; verdict = 0 }

-- A `bool` is one byte.
abbrev pub bool_byte : Bool → ℕ
bool_byte true = 1
bool_byte false = 0

unfoldable pub rule_marsh : Rule → Marsh
rule_marsh rule =
    let a = add_child_raw (marsh_new []) (le 4 rule.index) in
    let b = add_child_obj a (list_marsh matcher_marsh rule.matchers (marsh_new [])) in
    let c = add_child_raw b (le 1 (bool_byte rule.counters)) in add_child_raw c (le 4 rule.verdict)

-- A child behind the verdict is warned about and ignored.
unfoldable pub rule_unmarsh : List ℕ → ℕ → Result Rule
rule_unmarsh b m = do
  e ← require_child b m none
  index ← load_uint b e 4
  e ← require_child b m (some e)
  matchers ← all_children (matcher_new_from_marsh b) b e
  e ← require_child b m (some e)
  counters ← load_uint b e 1
  e ← require_child b m (some e)
  verdict ← load_uint b e 4
  ok (record {
    index = index;
    matchers = matchers;
    counters = not (counters == 0);
    verdict = verdict;
  })

unfoldable pub rule_add_matcher : Rule → ℕ → ℕ → Option (List ℕ) → Result Rule
rule_add_matcher rule type op payload = do
  matcher ← matcher_new type op payload
  ok (record rule { matchers = rule.matchers ++ matcher ∷ [] })
