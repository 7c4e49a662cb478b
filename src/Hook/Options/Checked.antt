-- ===== src/Hook/Options/Checked.antt =====
-- The state of the options after `bf_hook_opts_init`.
use Prim.Native.Nat.{bit_or}
use bpfilter.Prelude.{
  ◌⊎◌, ℕ, zero, suc, ◌^◌, ◌<◌, ◌≤◌, ◌≡◌, ◌≢◌, refl, ap, subst, true, List, [], ◌∷◌, length, Option,
  none, some, lt→ltb, arith, Bool-cases, inl, inr,
}
use bpfilter.Result.{Result, >>=-eq-ok, ok_injective, ok, err, fault}
use bpfilter.Hook.{HookOpts, Support, has_flag, support_of}
use bpfilter.Hook.Options.{
  opt_names, find_opt, opts_get_ops, opt_parse, process_known, process_opt, find_equals, use_found,
  use_equals, process_opts, ifindex_parse, cgroup_parse, name_parse, attach_parse, mark_used,
  chain_name_len,
}
use bpfilter.Hook.Options.Flags.{has_flag-bit_or, bit_or-lt}

-- A name is at most BF_CHAIN_NAME_LEN bytes long.
abbrev pub FitsName : Option (List ℕ) → Type 0
FitsName none = Unit {0}
FitsName (some s) = length s ≤ chain_name_len

-- The state of the options during the parsing.
pub record IsSound (s : Support) (opts : HookOpts) : Type 0 where
  pub flags : opts.used_opts < 16
  pub supported : (i : ℕ) → i < 4 → has_flag opts.used_opts i ≡ true → has_flag s.supported i ≡ true
  pub has_cgroup : has_flag opts.used_opts 1 ≡ true → opts.cgroup ≢ none
  pub has_name : has_flag opts.used_opts 2 ≡ true → opts.name ≢ none
  pub name_fits : FitsName opts.name
  pub ifindex_fits : opts.ifindex < 2 ^ 32

find_opt-lt : (key : List ℕ) (len opt : ℕ) → find_opt opt_names key len ≡ some opt → opt < 4
unfolding find_opt
find_opt-lt key len opt h = ground arith

-- What a parser may do to the options `old`: the cgroup is set by its own option only.
abbrev Keeps : ℕ → HookOpts → HookOpts → Type 0
Keeps opt old new =
    (new.used_opts ≡ old.used_opts)
    × (new.ifindex < 2 ^ 32)
    × ((new.cgroup ≢ none) ⊎ ((opt ≢ 1) × (new.cgroup ≡ old.cgroup)))
    × ((new.name ≢ none) ⊎ ((opt ≢ 2) × (new.name ≡ old.name)))
    × FitsName new.name

abbrev Outcome : ℕ → HookOpts → Result HookOpts → Type 0
Outcome opt old (ok new) = Keeps opt old new
Outcome opt old (err e) = Unit {0}
Outcome opt old fault = Unit {0}

ifindex_parse-Outcome :
    (opts : HookOpts) (raw : List ℕ)
    → opts.ifindex < 2 ^ 32
    → FitsName opts.name
    → Outcome 0 opts (ifindex_parse opts raw)
unfolding ifindex_parse
ifindex_parse-Outcome opts raw h n = ground arith

attach_parse-Outcome :
    (opts : HookOpts) (raw : List ℕ)
    → opts.ifindex < 2 ^ 32
    → FitsName opts.name
    → Outcome 3 opts (attach_parse opts raw)
unfolding attach_parse
attach_parse-Outcome opts raw h n = ground arith

opt_parse-Outcome :
    (opt : ℕ) (opts : HookOpts) (raw : List ℕ)
    → opt < 4
    → opts.ifindex < 2 ^ 32
    → FitsName opts.name
    → Outcome opt opts (opt_parse opt opts raw)
unfolding opt_parse cgroup_parse name_parse
opt_parse-Outcome zero opts raw h fits short = ifindex_parse-Outcome opts raw fits short
opt_parse-Outcome (suc zero) opts raw h fits short = ground arith
opt_parse-Outcome (suc (suc zero)) opts raw h fits short = ground arith
opt_parse-Outcome (suc (suc (suc zero))) opts raw h fits short =
    attach_parse-Outcome opts raw fits short
opt_parse-Outcome (suc (suc (suc (suc opt)))) opts raw h fits short = absurd (omega arith)

-- Marking an option that is supported, after its parser.
mark-IsSound :
    (s : Support) (old new : HookOpts) (opt : ℕ)
    → opt < 4
    → has_flag s.supported opt ≡ true
    → IsSound s old
    → Keeps opt old new
    → IsSound s (record new { used_opts = bit_or new.used_opts (2 ^ opt) })
mark-IsSound s old new opt h sup v (same, fits, group, named, short) = record {
  flags = rw same (bit_or-lt old.used_opts opt v.flags h);
  supported = λ i hi set. ground (
    arith,
    v.supported i hi,
    has_flag-bit_or old.used_opts opt v.flags h i hi,
    ap (λ u. has_flag (bit_or u (2 ^ opt)) i) same,
  );
  has_cgroup = λ set. ground (
    arith,
    v.has_cgroup,
    has_flag-bit_or old.used_opts opt v.flags h 1 (omega arith),
    ap (λ u. has_flag (bit_or u (2 ^ opt)) 1) same,
  );
  has_name = λ set. ground (
    arith,
    v.has_name,
    has_flag-bit_or old.used_opts opt v.flags h 2 (omega arith),
    ap (λ u. has_flag (bit_or u (2 ^ opt)) 2) same,
  );
  name_fits = short;
  ifindex_fits = fits;
}

mark_used-IsSound :
    (s : Support) (old new : HookOpts) (opt : ℕ) (r : Result HookOpts)
    → opt < 4
    → has_flag s.supported opt ≡ true
    → IsSound s old
    → Outcome opt old r
    → mark_used opt r ≡ ok new
    → IsSound s new
mark_used-IsSound s old new opt (ok mid) h sup v k e =
    subst (IsSound s) (ok_injective e) (mark-IsSound s old mid opt h sup v k)
mark_used-IsSound s old new opt (err n) h sup v k e = cc
mark_used-IsSound s old new opt fault h sup v k e = cc

module _ (hook : ℕ) (s : Support) (known : support_of hook ≡ ok s) where
  process_known-IsSound :
      (old new : HookOpts) (opt : ℕ) (value : List ℕ)
      → opt < 4
      → IsSound s old
      → process_known old hook opt value ≡ ok new
      → IsSound s new
  unfolding process_known
  process_known-IsSound old new opt value h v e = elim (Bool-cases (has_flag s.supported opt)) [
    | inl sup ↦
        mark_used-IsSound s old new opt (opt_parse opt old value) h sup v
          (opt_parse-Outcome opt old value h v.ifindex_fits v.name_fits) (rw (known, sup) at e)
    | inr unsup ↦ ground arith
  ]

  found-IsSound :
      (old new : HookOpts) (key value : List ℕ) (len : ℕ) (found : Option ℕ)
      → find_opt opt_names key len ≡ found
      → IsSound s old
      → use_found old hook value found ≡ ok new
      → IsSound s new
  found-IsSound old new key value len none e v h = cc
  found-IsSound old new key value len (some opt) e v h =
      process_known-IsSound old new opt value (find_opt-lt key len opt e) v h

  equals-IsSound :
      (old new : HookOpts) (raw : List ℕ) (place : Option (ℕ × List ℕ))
      → IsSound s old
      → use_equals old hook raw place ≡ ok new
      → IsSound s new
  unfolding use_equals opts_get_ops
  equals-IsSound old new raw none v h = cc
  equals-IsSound old new raw (some (zero, value)) v h = cc
  equals-IsSound old new raw (some (suc len, value)) v h =
      found-IsSound old new raw value (suc len) _ refl v
        (rw (lt→ltb 0 (suc len) (omega arith)) at h)

  pub process_opts-IsSound :
      (old new : HookOpts) (raws : List (List ℕ))
      → IsSound s old
      → process_opts old hook raws ≡ ok new
      → IsSound s new
  unfolding process_opts process_opt
  process_opts-IsSound old new [] v h = subst (IsSound s) (ok_injective h) v
  process_opts-IsSound old new (raw ∷ raws) v h =
      let (mid, first, rest) = >>=-eq-ok (process_opt old hook raw) _ h in
      process_opts-IsSound mid new raws (equals-IsSound old mid raw (find_equals raw) v first) rest
