-- ===== src/Hook.antt =====
-- src/core/hook.h and src/core/hook.c: the hooks, their options and what each hook supports.
pub mod Options
pub mod Types
use Prim.Native.Nat.{bit_and}
use bpfilter.Prelude.{
  ℕ, ◌+◌, ◌^◌, Bool, true, not, List, [], ◌∷◌, Option, none, some, ◌==◌, get_elem?,
}
use bpfilter.Result.{Result, ok, fault, ◌>>=◌}

-- `enum bf_hook`
abbrev pub xdp : ℕ
xdp = 0

abbrev pub tc_ingress : ℕ
tc_ingress = 1

abbrev pub nf_pre_routing : ℕ
nf_pre_routing = 2

abbrev pub nf_local_in : ℕ
nf_local_in = 3

abbrev pub nf_forward : ℕ
nf_forward = 4

abbrev pub cgroup_ingress : ℕ
cgroup_ingress = 5

abbrev pub cgroup_egress : ℕ
cgroup_egress = 6

abbrev pub nf_local_out : ℕ
nf_local_out = 7

abbrev pub nf_post_routing : ℕ
nf_post_routing = 8

abbrev pub tc_egress : ℕ
tc_egress = 9

-- `enum bf_hook_opt`
abbrev pub opt_ifindex : ℕ
opt_ifindex = 0

abbrev pub opt_cgroup : ℕ
opt_cgroup = 1

abbrev pub opt_name : ℕ
opt_name = 2

abbrev pub opt_attach : ℕ
opt_attach = 3

abbrev pub opt_max : ℕ
opt_max = 4

-- `struct bf_hook_opts`; a string is its bytes without the final 0, or `none` for NULL.
pub record HookOpts : Type 0 where
  pub used_opts : ℕ
  pub ifindex : ℕ
  pub cgroup : Option (List ℕ)
  pub name : Option (List ℕ)
  pub attach : Bool

-- `(struct bf_hook_opts) {}`
abbrev pub no_opts : HookOpts
no_opts = record { used_opts = 0; ifindex = 0; cgroup = none; name = none; attach = not true }

-- `flags & (1 << opt)`, as a test
unfoldable pub has_flag : ℕ → ℕ → Bool
has_flag flags opt = not (bit_and flags (2 ^ opt) == 0)

-- `struct bf_hook_opt_support`
pub record Support : Type 0 where
  pub required : ℕ
  pub supported : ℕ

abbrev by_ifindex : Support
by_ifindex = record {
  required = 2 ^ opt_ifindex;
  supported = 2 ^ opt_ifindex + 2 ^ opt_name + 2 ^ opt_attach;
}

abbrev by_nothing : Support
by_nothing = record { required = 0; supported = 2 ^ opt_name + 2 ^ opt_attach }

abbrev by_cgroup : Support
by_cgroup = record {
  required = 2 ^ opt_cgroup;
  supported = 2 ^ opt_cgroup + 2 ^ opt_name + 2 ^ opt_attach;
}

-- `_bf_hook_opts_support`; the flags that C joins by `|` are distinct powers of two.
abbrev hook_support : List Support
hook_support =
    by_ifindex ∷ by_ifindex ∷ by_nothing ∷ by_nothing ∷ by_nothing ∷ by_cgroup ∷ by_cgroup
    ∷ by_nothing ∷ by_nothing ∷ by_ifindex ∷ []

-- Reading behind the table is a fault.
unfoldable pub support_of : ℕ → Result Support
support_of hook = elim (get_elem? hook_support hook) [ none ↦ fault | some s ↦ ok s ]
