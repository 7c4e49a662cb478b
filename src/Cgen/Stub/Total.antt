-- ===== src/Cgen/Stub/Total.antt =====
-- The stubs are generated for every program, when the kernel has the functions that they call.
use bpfilter.Prelude.{ℕ, ◌%◌, ◌^◌, ◌≡◌, false, List}
use bpfilter.Result.{ok, ◌>>=◌}
use bpfilter.Strings.{codes}
use bpfilter.Cgen.{Insn, update_counters, jeq, jne, jmp_imm, kfunc_call}
use bpfilter.Cgen.Swich.{swich_add_option, swich_set_default}
use bpfilter.Cgen.Swich.Layout.{switch_code}
use bpfilter.Cgen.Context.{ctx_l3_offset, ctx_l4_offset, ctx_l3_hdr, ctx_l4_hdr, ctx_l2, ctx_l4}
use bpfilter.Cgen.Stub.{
  Kernel, emit_kfunc_call, emit_quit, jump_over, make_ctx_dynptr, parse_l2_ethhdr, l3_size_swich,
  l3_next_swich, l3_block, parse_l3_hdr, l4_size_swich, l4_block, error_counter, return_insns,
  dynptr_args, l2_args, l2_stores, slice_args, store_hdr, parse_l4_hdr,
}
use bpfilter.Cgen.Stub.Grows.{
  Adds, Adds-then, Adds-emit_all, Adds-emit, Adds-call, Adds-swich, Adds-jump_over,
}

-- The kernel has the function with this name.
abbrev pub HasFunction : Kernel → List ℕ → Type 0
HasFunction kernel name = (id : ℕ) × (kernel.btf_id name ≡ ok id)

module _ (kernel : Kernel) (verdict : ℕ) (quiet : kernel.verbose ≡ false) where
  Adds-kfunc :
      (name : List ℕ) → HasFunction kernel name → Adds (λ p. emit_kfunc_call kernel p name) 1
  unfolding emit_kfunc_call
  Adds-kfunc name (id, e) p h fits = rw (e, ◌>>=◌) (Adds-emit (kfunc_call (id % 2 ^ 32)) p h fits)

  Adds-quit : (message : List ℕ) → Adds (emit_quit kernel verdict message) 5
  unfolding emit_quit
  Adds-quit message p h fits = rw quiet (
      Adds-then _ _ 2 3 (Adds-emit_all (error_counter p.num_counters))
        (Adds-then _ _ 1 2 (Adds-call update_counters) (Adds-emit_all (return_insns verdict))) p h
        fits)

  -- The jump over the block that quits the program.
  Adds-check :
      (insn : Insn) (message : List ℕ)
      → Adds (λ p. jump_over insn (emit_quit kernel verdict message) p) 6
  Adds-check insn message =
      Adds-jump_over insn (emit_quit kernel verdict message) 5 (Adds-quit message)

  pub Adds-dynptr :
      (kfunc : List ℕ)
      → HasFunction kernel kfunc
      → Adds (λ p. make_ctx_dynptr kernel verdict 1 kfunc p) 10
  unfolding make_ctx_dynptr
  Adds-dynptr kfunc known = Adds-then _ _ 3 7 (Adds-emit_all dynptr_args) (
      Adds-then _ _ 1 6 (Adds-kfunc kfunc known)
        (Adds-check (jmp_imm jeq 0 0 0) (codes "failed to create a new dynamic pointer")))

  module _ (slice : HasFunction kernel (codes "bpf_dynptr_slice")) where
    pub Adds-l2 : Adds (parse_l2_ethhdr kernel verdict) 16
    unfolding parse_l2_ethhdr
    Adds-l2 = Adds-then _ _ 6 10 (Adds-emit_all l2_args) (
        Adds-then _ _ 1 9 (Adds-kfunc (codes "bpf_dynptr_slice") slice) (
          Adds-then _ _ 6 3
            (Adds-check (jmp_imm jne 0 0 0) (codes "failed to create L2 dynamic pointer slice"))
            (Adds-emit_all l2_stores)))

    Adds-l3_block : Adds (l3_block kernel verdict) 29
    unfolding l3_block switch_code swich_add_option
    Adds-l3_block = Adds-then _ _ 5 24 (Adds-emit_all (slice_args ctx_l3_offset ctx_l2)) (
        Adds-then _ _ 1 23 (Adds-kfunc (codes "bpf_dynptr_slice") slice) (
          Adds-then _ _ 6 17
            (Adds-check (jmp_imm jne 0 0 0) (codes "failed to create L3 dynamic pointer slice"))
            (Adds-then _ _ 1 16 (Adds-emit_all (store_hdr ctx_l3_hdr)) (Adds-swich l3_next_swich))))

    pub Adds-l3 : Adds (parse_l3_hdr kernel verdict) 38
    unfolding parse_l3_hdr switch_code swich_set_default swich_add_option
    Adds-l3 =
        Adds-then _ _ 8 30 (Adds-swich l3_size_swich)
          (Adds-jump_over (jmp_imm jeq 7 0 0) (l3_block kernel verdict) 29 Adds-l3_block)

    Adds-l4_block : Adds (l4_block kernel verdict) 13
    unfolding l4_block
    Adds-l4_block = Adds-then _ _ 5 8 (Adds-emit_all (slice_args ctx_l4_offset ctx_l4)) (
        Adds-then _ _ 1 7 (Adds-kfunc (codes "bpf_dynptr_slice") slice) (
          Adds-then _ _ 6 1
            (Adds-check (jmp_imm jne 0 0 0) (codes "failed to create L4 dynamic pointer slice"))
            (Adds-emit_all (store_hdr ctx_l4_hdr))))

    pub Adds-l4 : Adds (parse_l4_hdr kernel verdict) 28
    unfolding parse_l4_hdr switch_code swich_set_default swich_add_option
    Adds-l4 =
        Adds-then _ _ 14 14 (Adds-swich l4_size_swich)
          (Adds-jump_over (jmp_imm jeq 8 0 0) (l4_block kernel verdict) 13 Adds-l4_block)
