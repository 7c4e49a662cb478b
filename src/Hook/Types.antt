-- ===== src/Hook/Types.antt =====
-- src/core/hook.c: what the kernel calls a hook, the types of programs and of attachments, and the
-- hooks of Netfilter.
use bpfilter.Prelude.{ℕ, List, [], ◌∷◌, Option, none, some, get_elem?}
use bpfilter.Result.{Result, ok, fault}
use bpfilter.Hook.{nf_pre_routing, nf_local_in, nf_forward, nf_local_out, nf_post_routing}

-- BPF_PROG_TYPE_XDP, BPF_PROG_TYPE_SCHED_CLS, BPF_PROG_TYPE_NETFILTER, BPF_PROG_TYPE_CGROUP_SKB
abbrev prog_types : List ℕ
prog_types = 6 ∷ 3 ∷ 32 ∷ 32 ∷ 32 ∷ 8 ∷ 8 ∷ 32 ∷ 32 ∷ 3 ∷ []

-- 0, BPF_TCX_INGRESS, BPF_NETFILTER, BPF_CGROUP_INET_INGRESS, BPF_CGROUP_INET_EGRESS, BPF_TCX_EGRESS
abbrev attach_types : List ℕ
attach_types = 0 ∷ 46 ∷ 45 ∷ 45 ∷ 45 ∷ 0 ∷ 1 ∷ 45 ∷ 45 ∷ 47 ∷ []

-- NF_INET_PRE_ROUTING, NF_INET_LOCAL_IN, NF_INET_FORWARD, NF_INET_LOCAL_OUT, NF_INET_POST_ROUTING; the
-- other hooks fail an assertion.
abbrev nf_hooks : List (Option ℕ)
nf_hooks = none ∷ none ∷ some 0 ∷ some 1 ∷ some 2 ∷ none ∷ none ∷ some 3 ∷ some 4 ∷ none ∷ []

abbrev hooks_of_nf : List ℕ
hooks_of_nf = nf_pre_routing ∷ nf_local_in ∷ nf_forward ∷ nf_local_out ∷ nf_post_routing ∷ []

abbrev entry_of {ℓ} : {A : Type ℓ} → Option A → Result A
entry_of none = fault
entry_of (some x) = ok x

abbrev joined {ℓ} : {A : Type ℓ} → Option (Option A) → Option A
joined none = none
joined (some x) = x

unfoldable pub to_bpf_prog_type : ℕ → Result ℕ
to_bpf_prog_type hook = entry_of (get_elem? prog_types hook)

unfoldable pub to_attach_type : ℕ → Result ℕ
to_attach_type hook = entry_of (get_elem? attach_types hook)

unfoldable pub to_nf_hook : ℕ → Result ℕ
to_nf_hook hook = entry_of (joined (get_elem? nf_hooks hook))

unfoldable pub nf_hook_to_hook : ℕ → Result ℕ
nf_hook_to_hook hook = entry_of (get_elem? hooks_of_nf hook)
