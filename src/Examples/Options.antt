-- ===== src/Examples/Options.antt =====
-- The options of a hook, the messages of a printer and the names of verdicts.
use bpfilter.Prelude.{
  ℕ, zero, suc, ap, ◌^◌, ◌<◌, ◌≡◌, ◌≢◌, ◌⊎◌, refl, true, false, List, [], ◌∷◌, none, some, length,
  get_elem?, arith,
}
use bpfilter.Result.{ok, err, e2big, ◌>>=◌}
use bpfilter.Bytes.{load}
use bpfilter.Hook.{HookOpts, Support, support_of, has_flag, opt_cgroup, opt_name}
use bpfilter.Hook.Options.{
  hook_opts_init, process_opt, process_opts, opts_get_ops, process_known, opt_parse, check_required,
}
use bpfilter.Hook.Options.Checked.{FitsName}
use bpfilter.Hook.Options.Init.{hook_opts_init_lem, hook_opts_init_long_name, name_option}
use bpfilter.Names.{verdict_strs, to_str, from_str}
use bpfilter.Names.Inverse.{from_str-to_str}
use bpfilter.Printer.{Msg, add_msg, assemble}
use bpfilter.Printer.Packed.{IsPacked, IsDistinct, add_msg_lem}
use bpfilter.Printer.Assemble.{assemble-load}

-- "cgroup=/a" for BF_HOOK_CGROUP_INGRESS
abbrev cgroup_text : List ℕ
cgroup_text = b'c' ∷ b'g' ∷ b'r' ∷ b'o' ∷ b'u' ∷ b'p' ∷ b'=' ∷ b'/' ∷ b'a' ∷ []

abbrev cgroup_support : Support
cgroup_support = record { required = 2; supported = 14 }

abbrev cgroup_opts : HookOpts
cgroup_opts = record {
  used_opts = 10;
  ifindex = 0;
  cgroup = some (b'/' ∷ b'a' ∷ []);
  name = none;
  attach = true;
}

cgroup_known : support_of 5 ≡ ok cgroup_support
unfolding support_of
cgroup_known = refl

cgroup_inits : hook_opts_init 5 (cgroup_text ∷ []) ≡ ok cgroup_opts
unfolding hook_opts_init process_opts process_opt opts_get_ops process_known opt_parse
    check_required support_of has_flag
cgroup_inits = refl

hook_opts_init_lem_example :
    ((has_flag 2 1 ≡ false) ⊎ (has_flag 10 1 ≡ true))
    × ((has_flag 10 1 ≡ false) ⊎ (has_flag 14 1 ≡ true))
    × ((has_flag 10 opt_cgroup ≡ false) ⊎ (cgroup_opts.cgroup ≢ none))
    × ((has_flag 10 opt_name ≡ false) ⊎ (cgroup_opts.name ≢ none))
    × FitsName cgroup_opts.name
    × (0 < 2 ^ 32)
hook_opts_init_lem_example =
    hook_opts_init_lem 5 cgroup_support cgroup_known (cgroup_text ∷ []) cgroup_opts 1 (omega arith)
      cgroup_inits

-- A name of twelve letters for BF_HOOK_NF_PRE_ROUTING
abbrev long_name : List ℕ
long_name = 97 ∷ 97 ∷ 97 ∷ 97 ∷ 97 ∷ 97 ∷ 97 ∷ 97 ∷ 97 ∷ 97 ∷ 97 ∷ 97 ∷ []

nf_known : support_of 2 ≡ ok (record { required = 0; supported = 12 })
unfolding support_of
nf_known = refl

hook_opts_init_long_name_example :
    hook_opts_init 2 (name_option long_name ∷ cgroup_text ∷ []) ≡ err e2big
hook_opts_init_long_name_example =
    hook_opts_init_long_name 2 (record { required = 0; supported = 12 }) long_name
      (cgroup_text ∷ []) nf_known (omega arith)

-- A printer with the messages "a" and "bc".
abbrev two_msgs : List Msg
two_msgs =
    record { offset = 0; len = 2; str = 97 ∷ [] }
    ∷ record { offset = 2; len = 3; str = 98 ∷ 99 ∷ [] }
    ∷ []

two-IsPacked : IsPacked 0 two_msgs
unfolding IsPacked
two-IsPacked = (refl, refl, (refl, refl, tt))

two-IsDistinct : IsDistinct two_msgs
unfolding IsDistinct
two-IsDistinct = ((λ e. cc, tt), (tt, tt))

add_msg_lem_example :
    ((add_msg two_msgs (98 ∷ 99 ∷ [])).0.str ≡ 98 ∷ 99 ∷ [])
    × ((i : ℕ) × (get_elem? (add_msg two_msgs (98 ∷ 99 ∷ [])).1 i
          ≡ some (add_msg two_msgs (98 ∷ 99 ∷ [])).0))
    × IsPacked 0 (add_msg two_msgs (98 ∷ 99 ∷ [])).1
    × IsDistinct (add_msg two_msgs (98 ∷ 99 ∷ [])).1
add_msg_lem_example = add_msg_lem two_msgs (98 ∷ 99 ∷ []) two-IsPacked two-IsDistinct

-- A block of zeros.
zeros : ℕ → List ℕ
zeros zero = []
zeros (suc n) = 0 ∷ zeros n

length-zeros : (n : ℕ) → length (zeros n) ≡ n
unfolding zeros
length-zeros zero = refl
length-zeros (suc n) = ap suc (length-zeros n)

assemble-load_example :
    (assemble zeros two_msgs >>= λ block. load block 2 3) ≡ ok (98 ∷ 99 ∷ 0 ∷ [])
assemble-load_example =
    assemble-load zeros two_msgs 1 (record { offset = 2; len = 3; str = 98 ∷ 99 ∷ [] }) length-zeros
      two-IsPacked refl

drop_named : to_str verdict_strs 1 ≡ ok (b'D' ∷ b'R' ∷ b'O' ∷ b'P' ∷ [])
unfolding to_str
drop_named = refl

from_str-to_str_example : from_str verdict_strs (b'D' ∷ b'R' ∷ b'O' ∷ b'P' ∷ []) ≡ ok 1
from_str-to_str_example =
    from_str-to_str 0 1 verdict_strs (b'D' ∷ b'R' ∷ b'O' ∷ b'P' ∷ []) refl drop_named
