-- ===== src/Prog/Attach.antt =====
-- src/bpfilter/cgen/prog/link.c, the calls that attach a link; _bf_program_get_new_link of
-- src/bpfilter/cgen/program.c; the `attach_prog` of the flavors in src/bpfilter/cgen/xdp.c, tc.c, nf.c and
-- cgroup.c.
use bpfilter.Prelude.{
  ℕ, Bool, true, false, List, [], ◌∷◌, ◌++◌, Option, none, some, ◌==◌, if◌then◌else◌, length,
  get_elem?,
}
use bpfilter.Result.{ok, err, fault, eperm, enoent}
use bpfilter.Strings.{clip, decimal}
use bpfilter.Hook.{xdp, tc_ingress, tc_egress}
use bpfilter.Hook.Types.{to_attach_type, to_nf_hook}
use bpfilter.Chain.{Chain}
use bpfilter.Prog.{System}
use bpfilter.Prog.Map.{obj_name_len}
use bpfilter.Prog.Link.{Link, link_new}
use bpfilter.Prog.Ident.{by_interface, by_netfilter}
use bpfilter.Prog.Stored.{StoredProgram}
use bpfilter.Prog.Calls.{Io, ◌>>=◌, ◌>>◌, lift, ret, Calls, LinkAttr, LinkInfo}
pub mod Links

-- BPF_XDP, BF_XDP_MODE_SKB
abbrev bpf_xdp : ℕ
bpf_xdp = 37

abbrev xdp_mode_skb : ℕ
xdp_mode_skb = 2

-- BPF_NETFILTER, NFPROTO_IPV4, NFPROTO_IPV6
abbrev bpf_netfilter : ℕ
bpf_netfilter = 45

abbrev pub nfproto_ipv4 : ℕ
nfproto_ipv4 = 2

abbrev pub nfproto_ipv6 : ℕ
nfproto_ipv6 = 10

-- BF_NF_PRIO_EVEN, BF_NF_PRIO_ODD
abbrev pub prio_even : ℕ
prio_even = 2

abbrev pub prio_odd : ℕ
prio_odd = 1

-- The attributes with only the members that all hooks use.
abbrev link_attr : Option ℕ → ℕ → LinkAttr
link_attr prog_fd attach_type = record {
  prog_fd = prog_fd;
  target_fd = 0;
  attach_type = attach_type;
  flags = 0;
  pf = 0;
  hooknum = 0;
  priority = 0;
}

module _ {W : Type 0} (calls : Calls W) where
  -- BPF_LINK_CREATE; the descriptor is stored in the link.
  unfoldable pub create : LinkAttr → Link → Io W Link
  create attr link = do fd ← calls.link_create attr; ret (record link { fd = some fd })

  unfoldable pub link_attach_xdp : Link → Option ℕ → ℕ → ℕ → Io W Link
  unfolding create
  link_attach_xdp link prog_fd ifindex mode =
      create (record (link_attr prog_fd bpf_xdp) { target_fd = ifindex; flags = mode }) link

  unfoldable pub link_attach_tc : Link → Option ℕ → ℕ → Io W Link
  unfolding create
  link_attach_tc link prog_fd ifindex = do
    attach_type ← lift (to_attach_type link.hook)
    create (record (link_attr prog_fd attach_type) { target_fd = ifindex }) link

  unfoldable pub link_attach_nf : Link → Option ℕ → ℕ → ℕ → Io W Link
  unfolding create
  link_attach_nf link prog_fd family priority = do
    hooknum ← lift (to_nf_hook link.hook)
    create
        (record (link_attr prog_fd bpf_netfilter) {
          pf = family;
          hooknum = hooknum;
          priority = priority;
        })
        link

  -- A NULL path is a fault.
  unfoldable pub link_attach_cgroup : Link → Option ℕ → Option (List ℕ) → Io W Link
  unfolding create
  link_attach_cgroup link prog_fd none = lift fault
  link_attach_cgroup link prog_fd (some cgroup_path) = do
    attach_type ← lift (to_attach_type link.hook)
    cgroup_fd ← calls.open_cgroup cgroup_path
    create (record (link_attr prog_fd attach_type) { target_fd = cgroup_fd }) link

  unfoldable pub link_get_info : Link → Io W LinkInfo
  link_get_info link = elim link.fd [ none ↦ lift (err enoent) | some fd ↦ calls.link_info fd ]

  -- `dup` of the old link's descriptor; the -1 of a failure is returned as an errno.
  unfoldable pub duplicate : Option Link → Link → Io W Link
  duplicate none link w = (ok link, w)
  duplicate (some old) link w =
      let (r, u) = calls.dup old.fd w in
      elim r [ none ↦ (err eperm, u) | some fd ↦ (ok (record link { fd = some fd }), u) ]

  module _ (sys : System) (prog : StoredProgram) where
    -- "%s_lk%1ld"; `links` are the program's links so far, and the new one is appended by the caller.
    unfoldable pub get_new_link : List Link → Option Link → Io W Link
    unfolding duplicate
    get_new_link links old_link = do
      link ← lift (
          link_new sys
            (clip obj_name_len (prog.id ++ (b'_' ∷ b'l' ∷ b'k' ∷ []) ++ decimal 20 (length links)))
            prog.hook)
      duplicate old_link link

    -- The `attach_prog` of XDP, TC and cgroup, which differ in how the first link is created.
    unfoldable pub attach_one : (Link → Io W Link) → Option Link → Io W (List Link)
    unfolding get_new_link
    attach_one attach none = do
      link ← get_new_link [] none
      attached ← attach link
      ret (attached ∷ [])
    attach_one attach (some old) = do
      link ← get_new_link [] (some old)
      calls.link_update link.fd prog.prog_fd
      ret (link ∷ [])

    -- The loop of _bf_nf_attach_prog over the links of the old program.
    unfoldable pub replace_nf : List Link → List Link → Io W (List Link)
    unfolding link_get_info get_new_link link_attach_nf
    replace_nf links [] = ret links
    replace_nf links (old ∷ olds) = do
      info ← link_get_info old
      link ← get_new_link links none
      attached ←
          link_attach_nf link prog.prog_fd info.pf
            (if info.priority == prio_even then prio_odd else prio_even)
      replace_nf (links ++ attached ∷ []) olds

    unfoldable pub attach_nf : List Link → Io W (List Link)
    unfolding replace_nf get_new_link link_attach_nf
    attach_nf (old ∷ olds) = replace_nf [] (old ∷ olds)
    attach_nf [] = do
      first ← get_new_link [] none
      ipv4 ← link_attach_nf first prog.prog_fd nfproto_ipv4 prio_even
      second ← get_new_link (ipv4 ∷ []) none
      ipv6 ← link_attach_nf second prog.prog_fd nfproto_ipv6 prio_even
      ret (ipv4 ∷ ipv6 ∷ [])

    -- `attach_prog` of the flavor that stands for the hook in `bf_flavor_ops_get`: the links of the new
    -- program. Without an old program there are no old links.
    unfoldable pub attach_prog : Chain → List Link → Io W (List Link)
    unfolding attach_one attach_nf link_attach_xdp link_attach_tc link_attach_cgroup
    attach_prog chain old_links =
        if prog.hook == xdp
        then attach_one
            (λ link. link_attach_xdp link prog.prog_fd chain.hook_opts.ifindex xdp_mode_skb)
            (get_elem? old_links 0)
        else if by_interface prog.hook
        then attach_one (λ link. link_attach_tc link prog.prog_fd chain.hook_opts.ifindex)
            (get_elem? old_links 0)
        else if by_netfilter prog.hook
        then attach_nf old_links
        else attach_one (λ link. link_attach_cgroup link prog.prog_fd chain.hook_opts.cgroup)
            (get_elem? old_links 0)
