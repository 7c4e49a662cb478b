-- ===== src/Hook/Options/Init.antt =====
-- `bf_hook_opts_init` as a whole.
use native.Mathlib.Decide.{ℕ_discrete}
use bpfilter.Prelude.{
  All, All-get_elem?, get_elem?, Option-cases, subst, ℕ, zero, suc, ◌+◌, ◌^◌, ◌<◌, ◌≤◌, ◌≡◌, ◌≢◌,
  ◌⊎◌, refl, Bool, true, false, List, ◌∷◌, none, lt→ltb, length, arith, inl, inr,
}
use bpfilter.Result.{ok, err, e2big, >>=-eq-ok, ok_injective}
use bpfilter.Hook.{
  HookOpts, Support, hook_support, has_flag, support_of, opt_cgroup, opt_name, opt_max,
}
use bpfilter.Hook.Options.{
  chain_name_len, opts_get_ops, process_known, opt_parse, process_opt, process_opts, check_required,
  hook_opts_init, default_opts,
}
use bpfilter.Hook.Options.Checked.{IsSound, FitsName, process_opts-IsSound}

attach_supported : All (λ s. has_flag s.supported 3 ≡ true) hook_support
unfolding has_flag
attach_supported =
    (refl, (refl, (refl, (refl, (refl, (refl, (refl, (refl, (refl, (refl, tt))))))))))

support_of-attach :
    (hook : ℕ) (s : Support) → support_of hook ≡ ok s → has_flag s.supported 3 ≡ true
unfolding support_of
support_of-attach hook s h = elim (Option-cases (get_elem? hook_support hook)) [
  | inl e ↦ absurd (ground arith)
  | inr (x, e) ↦
      let same : x ≡ s = ok_injective (rw e at h) in
      subst (λ t. has_flag t.supported 3 ≡ true) same
        (All-get_elem? (λ t. has_flag t.supported 3 ≡ true) hook_support hook attach_supported e)
]

name_supported : All (λ s. has_flag s.supported 2 ≡ true) hook_support
unfolding has_flag
name_supported = (refl, (refl, (refl, (refl, (refl, (refl, (refl, (refl, (refl, (refl, tt))))))))))

support_of-name : (hook : ℕ) (s : Support) → support_of hook ≡ ok s → has_flag s.supported 2 ≡ true
unfolding support_of
support_of-name hook s h = elim (Option-cases (get_elem? hook_support hook)) [
  | inl e ↦ absurd (ground arith)
  | inr (x, e) ↦
      let same : x ≡ s = ok_injective (rw e at h) in
      subst (λ t. has_flag t.supported 2 ≡ true) same
        (All-get_elem? (λ t. has_flag t.supported 2 ≡ true) hook_support hook name_supported e)
]

default_flags : (i : ℕ) → i < 4 → has_flag 8 i ≡ true → i ≡ 3
unfolding has_flag
default_flags zero h e = cc
default_flags (suc zero) h e = cc
default_flags (suc (suc zero)) h e = cc
default_flags (suc (suc (suc zero))) h e = refl
default_flags (suc (suc (suc (suc i)))) h e = absurd (omega arith)

cgroup_unset : has_flag 8 1 ≡ false
unfolding has_flag
cgroup_unset = refl

name_unset : has_flag 8 2 ≡ false
unfolding has_flag
name_unset = refl

by_cases : (a b : Bool) → (a ≡ true → b ≡ true) → (a ≡ false) ⊎ (b ≡ true)
by_cases true b h = inr (h refl)
by_cases false b h = inl refl

by_flag {ℓ} : {P : Type ℓ} (a : Bool) → (a ≡ true → P) → (a ≡ false) ⊎ P
by_flag true h = inr (h refl)
by_flag false h = inl refl

module _ (hook : ℕ) (s : Support) (known : support_of hook ≡ ok s) where
  check_required-step :
      (rounds opt : ℕ) (opts new : HookOpts)
      → check_required (suc rounds) opt opts hook ≡ ok new
      → (has_flag s.required opt ≡ true → has_flag opts.used_opts opt ≡ true)
        × (check_required rounds (opt + 1) opts hook ≡ ok new)
  unfolding check_required
  check_required-step rounds opt opts new h =
      let k = rw known at h in (λ r. ground arith, ground arith)

  check_required-ok :
      (rounds opt : ℕ) (opts new : HookOpts)
      → check_required rounds opt opts hook ≡ ok new
      → (opts ≡ new)
        × ((i : ℕ)
            → opt ≤ i
            → i < opt + rounds
            → has_flag s.required i ≡ true
            → has_flag opts.used_opts i ≡ true)
  unfolding check_required
  check_required-ok zero opt opts new h = (ok_injective h, λ i a b. absurd (omega arith))
  check_required-ok (suc rounds) opt opts new h =
      let (now, later) = check_required-step rounds opt opts new h in
      let (same, rest) = check_required-ok rounds (opt + 1) opts new later in
      (
        same,
        λ i a b r. elim (ℕ_discrete i opt) [
          | yes e ↦ rw e (now (rw e at r))
          | no ne ↦ rest i (omega arith) (omega arith) r
        ],
      )

  default-IsSound : IsSound s default_opts
  default-IsSound = record {
    flags = omega arith;
    supported = λ i h e. rw (default_flags i h e) (support_of-attach hook s known);
    has_cgroup = λ e. absurd (ground (arith, cgroup_unset));
    has_name = λ e. absurd (ground (arith, name_unset));
    name_fits = tt;
    ifindex_fits = omega arith;
  }

  -- When bf_hook_opts_init succeeds for a hook: each option that the hook requires is used, each
  -- option that is used is supported by the hook, a used cgroup option has a path, a used name option
  -- has a name, a name has at most 11 bytes, and the interface index fits its 32 bits.
  pub hook_opts_init_lem :
      (raws : List (List ℕ)) (opts : HookOpts) (i : ℕ)
      → i < opt_max
      → hook_opts_init hook raws ≡ ok opts
      → ((has_flag s.required i ≡ false) ⊎ (has_flag opts.used_opts i ≡ true))
        × ((has_flag opts.used_opts i ≡ false) ⊎ (has_flag s.supported i ≡ true))
        × ((has_flag opts.used_opts opt_cgroup ≡ false) ⊎ (opts.cgroup ≢ none))
        × ((has_flag opts.used_opts opt_name ≡ false) ⊎ (opts.name ≢ none))
        × FitsName opts.name
        × (opts.ifindex < 2 ^ 32)
  unfolding hook_opts_init
  hook_opts_init_lem raws opts i below h =
      let (mid, first, rest) = >>=-eq-ok (process_opts default_opts hook raws) _ h in
      let (same, required) = check_required-ok 4 0 mid opts rest in
      let v =
        subst (IsSound s) same
          (process_opts-IsSound hook s known default_opts mid raws default-IsSound first) in
      let need : has_flag s.required i ≡ true → has_flag opts.used_opts i ≡ true = λ r.
        subst (λ o. has_flag o.used_opts i ≡ true) same
          (required i (omega arith) (omega arith) r) in
      (
        by_cases _ _ need,
        by_cases _ _ (v.supported i below),
        by_flag _ v.has_cgroup,
        by_flag _ v.has_name,
        v.name_fits,
        v.ifindex_fits,
      )

-- The first text of the options, "name=" and a value.
abbrev pub name_option : List ℕ → List ℕ
name_option value = b'n' ∷ b'a' ∷ b'm' ∷ b'e' ∷ b'=' ∷ value

-- A chain name of more than 11 bytes is refused with E2BIG on every hook, whatever options follow it.
pub hook_opts_init_long_name :
    (hook : ℕ) (s : Support) (value : List ℕ) (raws : List (List ℕ))
    → support_of hook ≡ ok s
    → chain_name_len < length value
    → hook_opts_init hook (name_option value ∷ raws) ≡ err e2big
unfolding hook_opts_init process_opts process_opt opts_get_ops process_known opt_parse
hook_opts_init_long_name hook s value raws known long =
    rw (lt→ltb 11 (length value) long, known, support_of-name hook s known) refl
