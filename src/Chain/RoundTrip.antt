-- ===== src/Chain/RoundTrip.antt =====
-- The serialised form of a chain, written and read.
use bpfilter.Prelude.{
  ℕ, ◌+◌, ◌^◌, ◌<◌, ◌≡◌, refl, ap, Bool, List, [], ◌∷◌, ◌++◌, Option, none, some, length, arith,
  append_assoc, append-nil, All, map, lt→ltb, length-append,
}
use bpfilter.Result.{ok, ◌>>=◌}
use bpfilter.Bytes.{le, At, drop-At, IsString, c_string_lem}
use bpfilter.Marsh.{marsh_new, image, is_empty}
use bpfilter.Marsh.Children.{
  image-marsh_new, enc, children, add_child_raw-marsh_new, add_child_obj-marsh_new, Visits-start,
  At-content, data_len-At, require_child-Visits, field-Visits, next_child-Visits_nil,
}
use bpfilter.Marsh.Loop.{all_children_back, list_marsh-marsh_new}
use bpfilter.Rule.{bool_byte, rule_marsh, rule_unmarsh}
use bpfilter.Rule.RoundTrip.{rule_bytes, rule_marsh_lem, rule_unmarsh-At, bool_byte-lt, flag_back}
use bpfilter.Rule.RoundTrip as RuleTrip
use bpfilter.Set.{set_marsh, set_new_from_marsh}
use bpfilter.Set.RoundTrip.{set_bytes, set_marsh_lem, set_new_from_marsh-At}
use bpfilter.Set.RoundTrip as SetTrip
use bpfilter.Hook.{HookOpts}
use bpfilter.Chain.{
  Chain, string_bytes, load_option, opts_from_marsh, chain_new, chain_new_from_marsh, chain_marsh,
  terminal_verdict_max,
}

-- A string that is there.
abbrev pub IsText : Option (List ℕ) → Type 0
IsText none = Unit
IsText (some s) = IsString s

pub record IsValid (chain : Chain) : Type 0 where
  pub hook_fits : chain.hook < 2 ^ 32
  pub known_policy : chain.policy < terminal_verdict_max
  pub used_fits : chain.hook_opts.used_opts < 2 ^ 32
  pub ifindex_fits : chain.hook_opts.ifindex < 2 ^ 32
  pub valid_cgroup : IsText chain.hook_opts.cgroup
  pub valid_name : IsText chain.hook_opts.name
  pub valid_sets : All SetTrip.IsValid chain.sets
  pub valid_rules : All RuleTrip.IsValid chain.rules

opts_fields : HookOpts → List (List ℕ)
opts_fields opts =
    le 4 opts.used_opts
    ∷ le 4 opts.ifindex
    ∷ string_bytes opts.cgroup
    ∷ string_bytes opts.name
    ∷ le 1 (bool_byte opts.attach)
    ∷ []

chain_fields : Chain → List (List ℕ)
unfolding opts_fields
chain_fields chain =
    le 4 chain.hook
    ∷ le 4 chain.policy
    ∷ children (opts_fields chain.hook_opts)
    ∷ children (map set_bytes chain.sets)
    ∷ children (map rule_bytes chain.rules)
    ∷ []

pub chain_bytes : Chain → List ℕ
unfolding chain_fields
chain_bytes chain = children (chain_fields chain)

pub chain_marsh_lem :
    (chain : Chain) → IsValid chain → chain_marsh chain ≡ marsh_new (chain_bytes chain)
unfolding chain_marsh chain_bytes
chain_marsh_lem chain v =
    let sets =
      list_marsh-marsh_new SetTrip.IsValid set_marsh set_bytes chain.sets [] v.valid_sets
        (λ set p. set_marsh_lem set) in
    let rules =
      list_marsh-marsh_new RuleTrip.IsValid rule_marsh rule_bytes chain.rules [] v.valid_rules
        rule_marsh_lem in
    simp (sets, rules, add_child_raw-marsh_new, add_child_obj-marsh_new, append_assoc, append-nil)

same_but_attach : (opts : HookOpts) (x : Bool) → x ≡ opts.attach → record opts { attach = x } ≡ opts
same_but_attach opts x e = λ i. record opts { attach = e i }

module _ (b : List ℕ) (fits : length b < 2 ^ 64) where
  load_option-At :
      (c : ℕ) (text : Option (List ℕ))
      → IsText text
      → At b c (enc (string_bytes text))
      → load_option b c ≡ ok text
  unfolding load_option is_empty
  load_option-At c none h a = rw (data_len-At b fits c [] a)
  load_option-At c (some s) h a =
      let there : length (s ++ 0 ∷ []) ≡ length s + 1 = length-append s (0 ∷ []) in
      let text = At-content b fits c _ a in
      rw
        (
          data_len-At b fits c _ a,
          there,
          drop-At (s ++ 0 ∷ []) text,
          append_assoc,
          c_string_lem s text.post h,
        )
        (ground arith)

  opts_from_marsh-At :
      (c : ℕ) (chain : Chain)
      → IsValid chain
      → At b c (enc (children (opts_fields chain.hook_opts)))
      → opts_from_marsh b c ≡ ok chain.hook_opts
  unfolding opts_from_marsh opts_fields
  opts_from_marsh-At c chain v a =
      let opts = chain.hook_opts in
      field-Visits b fits c none 4 opts.used_opts _ _ _ v.used_fits
        (Visits-start b fits c (opts_fields opts) a)
        λ c₁ v₁. field-Visits b fits c (some c₁) 4 opts.ifindex _ _ _ v.ifindex_fits v₁ λ c₂ v₂.
          require_child-Visits b fits c (some c₂) _ _ _ _ v₂ λ c₃ a₃ v₃.
            rw (load_option-At c₃ opts.cgroup v.valid_cgroup a₃, ◌>>=◌)
              (require_child-Visits b fits c (some c₃) _ _ _ _ v₃ λ c₄ a₄ v₄.
                rw (load_option-At c₄ opts.name v.valid_name a₄, ◌>>=◌)
                  (field-Visits b fits c (some c₄) 1 (bool_byte opts.attach) _ _ _
                    (bool_byte-lt opts.attach) v₄
                    λ c₅ v₅.
                      rw (next_child-Visits_nil b fits c (some c₅) v₅)
                        (ap ok (same_but_attach opts _ (flag_back opts.attach)))))

  pub chain_new_from_marsh-enc :
      (p : ℕ) (chain : Chain)
      → IsValid chain
      → At b p (enc (chain_bytes chain))
      → chain_new_from_marsh b p ≡ ok chain
  unfolding chain_new_from_marsh chain_bytes chain_new
  chain_new_from_marsh-enc p chain v a =
      field-Visits b fits p none 4 chain.hook _ _ _ v.hook_fits
        (Visits-start b fits p (chain_fields chain) a)
        λ c₁ v₁.
          field-Visits b fits p (some c₁) 4 chain.policy _ _ _ (omega (arith, v.known_policy)) v₁
            λ c₂ v₂.
              rw (lt→ltb chain.policy 2 v.known_policy, ◌>>=◌)
                (require_child-Visits b fits p (some c₂) _ _ _ _ v₂ λ c₃ a₃ v₃.
                  rw (opts_from_marsh-At c₃ chain v a₃, ◌>>=◌)
                    (require_child-Visits b fits p (some c₃) _ _ _ _ v₃ λ c₄ a₄ v₄.
                      rw
                        (
                          all_children_back b fits SetTrip.IsValid set_bytes (set_new_from_marsh b)
                              c₄ chain.sets v.valid_sets a₄ (set_new_from_marsh-At b fits),
                          ◌>>=◌,
                        )
                        (require_child-Visits b fits p (some c₄) _ _ _ _ v₄ λ c₅ a₅ v₅.
                          rw
                            (
                              all_children_back b fits RuleTrip.IsValid rule_bytes (rule_unmarsh b)
                                  c₅ chain.rules v.valid_rules a₅ (rule_unmarsh-At b fits),
                              ◌>>=◌,
                            )
                            refl)))

  -- Wherever the serialised form of a valid chain lies in a memory block smaller than 2^64 bytes, bf_chain_new_from_marsh
  -- succeeds on it and gives the chain that was serialised: hook, policy, sets with their
  -- elements and rules with their matchers.
  pub chain_new_from_marsh-chain_marsh :
      (p : ℕ) (chain : Chain)
      → IsValid chain
      → At b p (image (chain_marsh chain))
      → chain_new_from_marsh b p ≡ ok chain
  chain_new_from_marsh-chain_marsh p chain v a =
      chain_new_from_marsh-enc p chain v (rw (chain_marsh_lem chain v, image-marsh_new) at a)
