-- ===== src/Examples/Serial.antt =====
-- Serialised objects, and what is read back from them.
use bpfilter.Prelude.{
  ℕ, zero, suc, List, sym, ◌∙◌, ◌⊎◌, leb, ◌+◌, ◌^◌, ◌<◌, ◌≤◌, ◌≡◌, ◌≢◌, refl, true, false, [], ◌∷◌,
  ◌++◌, none, some, length, get_elem?, ltb, arith,
}
use bpfilter.Result.{ok, fault, Gives, ok_injective}
use bpfilter.Bytes.{le, of_le, load, At-whole}
use bpfilter.Marsh.{
  image, marsh_new, add_child_raw, list_marsh, next_child, next_start, marsh_end, data_len,
  all_children,
}
use bpfilter.Marsh.Safety.{next_child_inside, all_children_ends}
use bpfilter.Matcher.{Matcher, matcher_new, matcher_marsh, matcher_new_from_marsh}
use bpfilter.Matcher.RoundTrip.{
  matcher_new_from_marsh-matcher_marsh, matcher_new_from_marsh_no_payload,
}
use bpfilter.Matcher.RoundTrip as MatcherTrip
use bpfilter.Rule.{Rule, rule_marsh, rule_unmarsh}
use bpfilter.Rule.RoundTrip.{rule_unmarsh-rule_marsh}
use bpfilter.Rule.RoundTrip as RuleTrip
use bpfilter.Set.{KeySet, set_marsh, set_new_from_marsh, set_content, type_elem_size}
use bpfilter.Set.RoundTrip.{set_new_from_marsh-set_marsh}
use bpfilter.Set.RoundTrip as SetTrip
use bpfilter.Chain.{Chain, chain_marsh, opts_marsh, chain_new_from_marsh, chain_new}
use bpfilter.Chain.RoundTrip.{chain_new_from_marsh-chain_marsh}
use bpfilter.Chain.RoundTrip as ChainTrip
use bpfilter.Chain.Indices.{chain_new-index}

-- A matcher on TCP destination port 80.
abbrev port_matcher : Matcher
port_matcher = record { type = 11; op = 0; len = 18; payload = 80 ∷ 0 ∷ [] }

abbrev drop_rule : Rule
drop_rule = record { index = 0; matchers = port_matcher ∷ []; counters = true; verdict = 1 }

abbrev address_set : KeySet
address_set = record {
  type = 0;
  elem_size = 4;
  elems = (10 ∷ 0 ∷ 0 ∷ 1 ∷ []) ∷ (10 ∷ 0 ∷ 0 ∷ 2 ∷ []) ∷ [];
}

abbrev pub web_chain : Chain
web_chain = record {
  hook = 5;
  hook_opts = record {
    used_opts = 14;
    ifindex = 0;
    cgroup = some (b'/' ∷ b'a' ∷ []);
    name = some (b'w' ∷ []);
    attach = true;
  };
  policy = 0;
  sets = address_set ∷ [];
  rules = drop_rule ∷ [];
}

port_matcher-IsValid : MatcherTrip.IsValid port_matcher
port_matcher-IsValid = record {
  type_fits = omega arith;
  op_fits = omega arith;
  len_counts = refl;
  some_payload = omega arith;
  len_fits = omega arith;
}

drop_rule-IsValid : RuleTrip.IsValid drop_rule
drop_rule-IsValid = record {
  index_fits = omega arith;
  verdict_fits = omega arith;
  valid_matchers = (port_matcher-IsValid, tt);
}

address_set-IsValid : SetTrip.IsValid address_set
unfolding type_elem_size
address_set-IsValid = record { known_type = refl; valid_elems = (refl, (refl, tt)) }

pub web_chain-IsValid : ChainTrip.IsValid web_chain
web_chain-IsValid = record {
  hook_fits = omega arith;
  known_policy = omega arith;
  used_fits = omega arith;
  ifindex_fits = omega arith;
  valid_cgroup = (omega arith, (omega arith, tt));
  valid_name = (omega arith, tt);
  valid_sets = (address_set-IsValid, tt);
  valid_rules = (drop_rule-IsValid, tt);
}

pub below : (n m : ℕ) → ltb n m ≡ true → n < m
below n m h = ground (arith, h)

matcher_fits : length (image (matcher_marsh port_matcher) ++ []) < 2 ^ 64
unfolding image matcher_marsh marsh_new add_child_raw le
matcher_fits = below _ _ refl

matcher_new_from_marsh-matcher_marsh_example :
    matcher_new_from_marsh (image (matcher_marsh port_matcher) ++ []) 0 ≡ ok port_matcher
matcher_new_from_marsh-matcher_marsh_example =
    matcher_new_from_marsh-matcher_marsh (image (matcher_marsh port_matcher) ++ []) matcher_fits 0
      port_matcher port_matcher-IsValid (At-whole (image (matcher_marsh port_matcher)))

-- A matcher with no payload.
abbrev bare_matcher : Matcher
bare_matcher = record { type = 11; op = 0; len = 16; payload = [] }

bare_made : matcher_new 11 0 none ≡ ok bare_matcher
unfolding matcher_new
bare_made = refl

bare_fits : length (image (matcher_marsh bare_matcher) ++ []) < 2 ^ 64
unfolding image matcher_marsh marsh_new add_child_raw le
bare_fits = below _ _ refl

matcher_new_from_marsh_no_payload_example :
    matcher_new_from_marsh (image (matcher_marsh bare_matcher) ++ []) 0 ≡ fault
matcher_new_from_marsh_no_payload_example =
    matcher_new_from_marsh_no_payload (image (matcher_marsh bare_matcher) ++ []) bare_fits 0 11 0
      bare_matcher (omega arith) (omega arith) bare_made
      (At-whole (image (matcher_marsh bare_matcher)))

rule_fits : length (image (rule_marsh drop_rule) ++ []) < 2 ^ 64
unfolding image rule_marsh matcher_marsh marsh_new add_child_raw list_marsh le
rule_fits = below _ _ refl

rule_unmarsh-rule_marsh_example : rule_unmarsh (image (rule_marsh drop_rule) ++ []) 0 ≡ ok drop_rule
rule_unmarsh-rule_marsh_example =
    rule_unmarsh-rule_marsh (image (rule_marsh drop_rule) ++ []) rule_fits 0 drop_rule
      drop_rule-IsValid (At-whole (image (rule_marsh drop_rule)))

set_fits : length (image (set_marsh address_set) ++ []) < 2 ^ 64
unfolding image set_marsh set_content marsh_new add_child_raw le
set_fits = below _ _ refl

set_new_from_marsh-set_marsh_example :
    set_new_from_marsh (image (set_marsh address_set) ++ []) 0 ≡ ok address_set
set_new_from_marsh-set_marsh_example =
    set_new_from_marsh-set_marsh (image (set_marsh address_set) ++ []) set_fits 0 address_set
      address_set-IsValid (At-whole (image (set_marsh address_set)))

chain_fits : length (image (chain_marsh web_chain) ++ []) < 2 ^ 64
unfolding image chain_marsh opts_marsh set_marsh set_content rule_marsh matcher_marsh marsh_new
    add_child_raw list_marsh le
chain_fits = below _ _ refl

chain_new_from_marsh-chain_marsh_example :
    chain_new_from_marsh (image (chain_marsh web_chain) ++ []) 0 ≡ ok web_chain
chain_new_from_marsh-chain_marsh_example =
    chain_new_from_marsh-chain_marsh (image (chain_marsh web_chain) ++ []) chain_fits 0 web_chain
      web_chain-IsValid (At-whole (image (chain_marsh web_chain)))

chain_new-index_example : Gives (chain_new 5 0 [] (drop_rule ∷ drop_rule ∷ [])) (λ chain.
    (length chain.rules ≡ 2) × (get_elem? chain.rules 1 ≡ some (record drop_rule { index = 1 })))
chain_new-index_example =
    chain_new-index 5 0 [] (drop_rule ∷ drop_rule ∷ []) 1 drop_rule (omega arith) refl

first_child : next_child (image (matcher_marsh port_matcher)) 0 none ≡ ok (some 8)
unfolding image matcher_marsh marsh_new add_child_raw le of_le load next_child
first_child = refl

next_child_inside_example : Gives (marsh_end (image (matcher_marsh port_matcher)) 0) (λ last.
    Gives (data_len (image (matcher_marsh port_matcher)) 8) (λ n.
      (0 + 8 ≤ 8)
      × (8 + 8 ≤ last)
      × ((8 + 8 + n ≤ last) ⊎ (2 ^ 64 ≤ 8 + 8 + n))
      × (next_start (image (matcher_marsh port_matcher)) 0 none ≡ ok 8)))
next_child_inside_example =
    next_child_inside (image (matcher_marsh port_matcher)) 0 none 8 first_child

-- A marsh with one child, which is empty.
abbrev one_child : List ℕ
one_child = 8 ∷ 0 ∷ 0 ∷ 0 ∷ 0 ∷ 0 ∷ 0 ∷ 0 ∷ 0 ∷ 0 ∷ 0 ∷ 0 ∷ 0 ∷ 0 ∷ 0 ∷ 0 ∷ []

one_child_len : data_len one_child 0 ≡ ok 8
unfolding data_len load of_le
one_child_len = refl

no_header : (p : ℕ) → 9 ≤ p → data_len one_child p ≡ fault
unfolding data_len load
no_header p h = let e : leb (p + 8) 16 ≡ false = ground (arith, h) in rw e refl

short : (p n : ℕ) → data_len one_child p ≡ ok n → p + 8 + n < 2 ^ 64
unfolding data_len load of_le
short zero n e = omega (arith, ok_injective e)
short (suc zero) n e = omega (arith, ok_injective e)
short (suc (suc zero)) n e = omega (arith, ok_injective e)
short (suc (suc (suc zero))) n e = omega (arith, ok_injective e)
short (suc (suc (suc (suc zero)))) n e = omega (arith, ok_injective e)
short (suc (suc (suc (suc (suc zero))))) n e = omega (arith, ok_injective e)
short (suc (suc (suc (suc (suc (suc zero)))))) n e = omega (arith, ok_injective e)
short (suc (suc (suc (suc (suc (suc (suc zero))))))) n e = omega (arith, ok_injective e)
short (suc (suc (suc (suc (suc (suc (suc (suc zero)))))))) n e = omega (arith, ok_injective e)
short (suc (suc (suc (suc (suc (suc (suc (suc (suc p))))))))) n e =
    absurd (fault_not_ok (sym (no_header _ (omega arith)) ∙ e))
  where
    fault_not_ok : fault ≡ ok n → ⊥
    fault_not_ok f = cc

all_children_ends_example : all_children (λ c. ok c) one_child 0 ≢ fault
all_children_ends_example =
    all_children_ends one_child (omega arith) short (λ c. ok c) 0 8 (λ c e. cc) one_child_len
      (omega arith)
