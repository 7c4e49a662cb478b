-- ===== src/Cgen/Flavors/Prologues.antt =====
-- The prologues of the flavors, for a kernel that has what they ask for.
use bpfilter.Prelude.{
  ℕ, zero, suc, ◌+◌, ◌^◌, ◌%◌, ◌<◌, ◌≤◌, ◌≡◌, ◌≢◌, refl, true, false, List, [], ◌∷◌, length, arith,
  All, get_elem?, none, some, if◌then◌else◌,
}
use bpfilter.Result.{ok, fault, Gives}
use bpfilter.Strings.{codes}
use bpfilter.Cgen.{Program, byte, word, double_word, ldx_mem, st_mem}
use bpfilter.Cgen.Emit.Room.{HasRoom}
use bpfilter.Cgen.Swich.{swich_generate, swich_add_option, swich_set_default}
use bpfilter.Cgen.Swich.Layout.{switch_code}
use bpfilter.Cgen.Context.{ctx_off, ctx_l3_offset}
use bpfilter.Cgen.Stub.{Kernel, make_ctx_xdp_dynptr, make_ctx_skb_dynptr}
use bpfilter.Cgen.Stub.Grows.{
  Grows, Adds, Adds-then, Adds-emit_all, Adds-emit, Adds-swich, Adds-known, Adds-weaken,
}
use bpfilter.Cgen.Stub.Total.{HasFunction, Adds-dynptr, Adds-l2, Adds-l3, Adds-l4}
use bpfilter.Cgen.Generate.{FlavorOps}
use bpfilter.Cgen.Flavors.{
  xdp_prologue, tc_prologue, nf_prologue, cgroup_prologue, xdp_head, tc_head, cgroup_head,
  load_ifindex, nf_size, flavor, xdp_verdicts, tc_verdicts, nf_verdicts, cgroup_verdicts,
  family_swich, nf_hook_is_ingress, flavor_ops, flavor_table,
}

abbrev HasField : Kernel → List ℕ → List ℕ → Type 0
HasField kernel struct field = (offset : ℕ) × (kernel.field_off struct field ≡ ok offset)

-- The functions and fields that the prologues ask for.
pub record Supports (kernel : Kernel) : Type 0 where
  pub from_xdp : HasFunction kernel (codes "bpf_dynptr_from_xdp")
  pub from_skb : HasFunction kernel (codes "bpf_dynptr_from_skb")
  pub slice : HasFunction kernel (codes "bpf_dynptr_slice")
  pub ifindex : HasField kernel (codes "__sk_buff") (codes "ifindex")
  pub family : HasField kernel (codes "__sk_buff") (codes "family")
  pub state : HasField kernel (codes "bpf_nf_ctx") (codes "state")
  pub in_device : HasField kernel (codes "nf_hook_state") (codes "in")
  pub out_device : HasField kernel (codes "nf_hook_state") (codes "out")
  pub device_ifindex : HasField kernel (codes "net_device") (codes "ifindex")
  pub pf : HasField kernel (codes "nf_hook_state") (codes "pf")
  pub skb : HasField kernel (codes "bpf_nf_ctx") (codes "skb")
  pub len : HasField kernel (codes "sk_buff") (codes "len")

module _ (kernel : Kernel) (s : Supports kernel) (quiet : kernel.verbose ≡ false) where
  Adds-skb : (verdict : ℕ) → Adds (λ p. make_ctx_skb_dynptr kernel verdict 1 p) 10
  unfolding make_ctx_skb_dynptr
  Adds-skb verdict = Adds-dynptr kernel verdict quiet (codes "bpf_dynptr_from_skb") s.from_skb

  Adds-xdp_dynptr : (verdict : ℕ) → Adds (λ p. make_ctx_xdp_dynptr kernel verdict 1 p) 10
  unfolding make_ctx_xdp_dynptr
  Adds-xdp_dynptr verdict =
      Adds-dynptr kernel verdict quiet (codes "bpf_dynptr_from_xdp") s.from_xdp

  Adds-family : (reg : ℕ) → Adds (λ p. swich_generate p (family_swich reg)) 8
  unfolding switch_code swich_set_default swich_add_option
  Adds-family reg = Adds-swich (family_swich reg)

  Adds-xdp : Adds (xdp_prologue kernel) 98
  unfolding xdp_prologue
  Adds-xdp = Adds-then _ _ 6 92 (Adds-emit_all xdp_head) (
      Adds-then _ _ 10 82 (Adds-xdp_dynptr 2) (
        Adds-then _ _ 16 66 (Adds-l2 kernel 2 quiet s.slice)
          (Adds-then _ _ 38 28 (Adds-l3 kernel 2 quiet s.slice) (Adds-l4 kernel 2 quiet s.slice))))

  Adds-tc : Adds (tc_prologue kernel) 98
  unfolding tc_prologue
  Adds-tc = Adds-then _ _ 4 94 (Adds-emit_all tc_head) (
      Adds-known _ _ 94 s.ifindex λ ifindex.
        Adds-then _ _ 2 92 (Adds-emit_all (load_ifindex 2 1 ifindex)) (
          Adds-then _ _ 10 82 (Adds-skb 0) (
            Adds-then _ _ 16 66 (Adds-l2 kernel 0 quiet s.slice) (
              Adds-then _ _ 38 28 (Adds-l3 kernel 0 quiet s.slice)
                (Adds-l4 kernel 0 quiet s.slice)))))

  Adds-cgroup : Adds (cgroup_prologue kernel) 93
  unfolding cgroup_prologue
  Adds-cgroup = Adds-then _ _ 5 88 (Adds-emit_all cgroup_head) (
      Adds-known _ _ 88 s.ifindex λ ifindex.
        Adds-then _ _ 2 86 (Adds-emit_all (load_ifindex 2 1 ifindex)) (
          Adds-known _ _ 86 s.family λ family.
            Adds-then _ _ 1 85 (Adds-emit (ldx_mem word 2 1 (family % 2 ^ 16))) (
              Adds-then _ _ 8 77 (Adds-family 2) (
                Adds-then _ _ 1 76 (Adds-emit (st_mem word 10 (ctx_off ctx_l3_offset) 0)) (
                  Adds-then _ _ 10 66 (Adds-skb 1) (
                    Adds-then _ _ 38 28 (Adds-l3 kernel 1 quiet s.slice)
                      (Adds-l4 kernel 1 quiet s.slice)))))))

  -- The device that the hook's state holds for the hook.
  device :
      (hook : ℕ)
      → HasField kernel
          (codes "nf_hook_state")
          (if nf_hook_is_ingress hook then codes "in" else codes "out")
  device hook =
      elim (nf_hook_is_ingress hook)
        as (λ b. HasField kernel (codes "nf_hook_state") (if b then codes "in" else codes "out")) [
          | true ↦ s.in_device
          | false ↦ s.out_device
        ]

  Adds-nf : (hook : ℕ) → Adds (nf_prologue kernel hook) 94
  unfolding nf_prologue
  Adds-nf hook = Adds-known _ _ 94 s.state λ state.
      Adds-then _ _ 1 93 (Adds-emit (ldx_mem double_word 2 1 (state % 2 ^ 16))) (
        Adds-known _ _ 93 (device hook) λ device.
          Adds-then _ _ 1 92 (Adds-emit (ldx_mem double_word 3 2 (device % 2 ^ 16))) (
            Adds-known _ _ 92 s.device_ifindex λ ifindex.
              Adds-then _ _ 2 90 (Adds-emit_all (load_ifindex 4 3 ifindex)) (
                Adds-known _ _ 90 s.pf λ pf.
                  Adds-then _ _ 1 89 (Adds-emit (ldx_mem byte 3 2 (pf % 2 ^ 16))) (
                    Adds-then _ _ 8 81 (Adds-family 3) (
                      Adds-then _ _ 1 80 (Adds-emit (st_mem word 10 (ctx_off ctx_l3_offset) 0)) (
                        Adds-known _ _ 80 s.skb λ skb.
                          Adds-then _ _ 1 79 (Adds-emit (ldx_mem double_word 1 1 (skb % 2 ^ 16))) (
                            Adds-known _ _ 79 s.len λ len.
                              Adds-then _ _ 3 76 (Adds-emit_all (nf_size len)) (
                                Adds-then _ _ 10 66 (Adds-skb 1) (
                                  Adds-then _ _ 38 28 (Adds-l3 kernel 1 quiet s.slice)
                                    (Adds-l4 kernel 1 quiet s.slice))))))))))

  -- What a table of operations has to give the generation.
  record IsUsable (ops : FlavorOps) : Type 0 where
    prologue : Adds ops.gen_inline_prologue 98
    accept : ℕ
    accepts : ops.get_verdict 0 ≡ ok accept
    drop : ℕ
    drops : ops.get_verdict 1 ≡ ok drop
    differ : accept ≢ drop

  IsUsable-xdp : IsUsable (flavor (xdp_prologue kernel) xdp_verdicts)
  IsUsable-xdp = record {
    prologue = Adds-xdp;
    accept = 2;
    accepts = refl;
    drop = 1;
    drops = refl;
    differ = omega arith;
  }

  IsUsable-tc : IsUsable (flavor (tc_prologue kernel) tc_verdicts)
  IsUsable-tc = record {
    prologue = Adds-tc;
    accept = 0;
    accepts = refl;
    drop = 2;
    drops = refl;
    differ = omega arith;
  }

  IsUsable-nf : (hook : ℕ) → IsUsable (flavor (nf_prologue kernel hook) nf_verdicts)
  IsUsable-nf hook = record {
    prologue = Adds-weaken _ 94 98 (omega arith) (Adds-nf hook);
    accept = 1;
    accepts = refl;
    drop = 0;
    drops = refl;
    differ = omega arith;
  }

  IsUsable-cgroup : IsUsable (flavor (cgroup_prologue kernel) cgroup_verdicts)
  IsUsable-cgroup = record {
    prologue = Adds-weaken _ 93 98 (omega arith) Adds-cgroup;
    accept = 1;
    accepts = refl;
    drop = 0;
    drops = refl;
    differ = omega arith;
  }

  IsUsable-get :
      (table : List FlavorOps)
      → All IsUsable table
      → (hook : ℕ) → hook < length table
      → Gives (elim (get_elem? table hook) [ none ↦ fault | some ops ↦ ok ops ]) IsUsable
  IsUsable-get [] usable hook less = elim less [ ]
  IsUsable-get (ops ∷ table) usable zero less = (ops, refl, usable.0)
  IsUsable-get (ops ∷ table) usable (suc hook) less =
      IsUsable-get table usable.1 hook (omega (arith, less))

  IsUsable-table : (hook : ℕ) → All IsUsable (flavor_table kernel hook)
  IsUsable-table hook =
      let nf = IsUsable-nf hook in
      let cgroup = IsUsable-cgroup in
      (
        IsUsable-xdp,
        (IsUsable-tc, (nf, (nf, (nf, (cgroup, (cgroup, (nf, (nf, (IsUsable-tc, tt))))))))),
      )

  IsUsable-flavor_ops : (hook : ℕ) → hook < 10 → Gives (flavor_ops kernel hook) IsUsable
  unfolding flavor_ops
  IsUsable-flavor_ops hook less =
      IsUsable-get (flavor_table kernel hook) (IsUsable-table hook) hook less

  -- For every hook there is a table of operations, when the kernel has the functions and the fields
  -- that the prologues ask for and the daemon is not verbose. On a program that has room and at most
  -- 2^40 - 98 instructions, the table's prologue does not fail: it adds at most 98 instructions, and no
  -- jump to the next rule. The codes for ACCEPT and DROP are there and differ.
  pub flavor_ops_lem :
      (hook : ℕ)
      → hook < 10
      → (p : Program) → HasRoom p
      → length p.img + 98 ≤ 2 ^ 40
      → Gives (flavor_ops kernel hook) λ ops.
        Gives (ops.gen_inline_prologue p) (Grows p 98)
        × (accept : ℕ) × (drop : ℕ) × (ops.get_verdict 0 ≡ ok accept)
        × (ops.get_verdict 1 ≡ ok drop)
        × (accept ≢ drop)
  flavor_ops_lem hook less p room fits =
      let (ops, e, u) = IsUsable-flavor_ops hook less in
      (ops, e, (u.prologue p room fits, u.accept, u.drop, u.accepts, u.drops, u.differ))
