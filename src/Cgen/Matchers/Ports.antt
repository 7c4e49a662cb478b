-- ===== src/Cgen/Matchers/Ports.antt =====
-- The code of the port matchers as a whole.
use bpfilter.Prelude.{
  ℕ, ◌+◌, ◌^◌, ◌<◌, ◌≤◌, ◌≡◌, ◌⊎◌, inl, inr, ap, ◌∙◌, subst, true, ◌||◌, List, [], ◌∷◌, ◌++◌, ◌==◌,
  if◌then◌else◌, length, arith, length-append, append_assoc, append-nil,
}
use bpfilter.Result.{ok, ◌>>=◌, Gives, Gives-bind}
use bpfilter.Matcher.{Matcher}
use bpfilter.Cgen.{
  Insn, Program, Fixup, jmp_next_rule, half, double_word, jne, jeq, jlt, jgt, ldx_mem, jmp_imm,
}
use bpfilter.Cgen.Emit.{emit}
use bpfilter.Cgen.Emit.Room.{HasRoom, Emits, Emits-none, Emits-then, emit-Emits, emit_fixup-Emits}
use bpfilter.Cgen.Context.{
  ctx_off, ctx_l4_hdr, htobe16, ipproto_tcp, ipproto_udp, op_eq, op_ne, op_range, payload_uint,
  emit_jmp_next_rule,
}
use bpfilter.Cgen.Matchers.Transport.{
  generate_port_op, generate_tcp_port, generate_udp_port, generate_tcp, generate_udp,
  type_tcp_sport, type_tcp_dport, type_udp_sport, type_udp_dport,
}

-- A jump to the next rule that waits at `n`.
abbrev pub jump_at : ℕ → Fixup
jump_at n = record { type = jmp_next_rule; insn = n; attr = 0 }

-- The comparisons that leave the rule, for each of the three operators of a port.
unfoldable pub port_tests : ℕ → ℕ → ℕ → List Insn
port_tests op first last =
    if op == op_eq
    then jmp_imm jne 1 (htobe16 first) 0 ∷ []
    else if op == op_ne
    then jmp_imm jeq 1 (htobe16 first) 0 ∷ []
    else jmp_imm jlt 1 (htobe16 first) 0 ∷ jmp_imm jgt 1 (htobe16 last) 0 ∷ []

-- Each of these instructions, the first being at `n`, waits for the next rule.
unfoldable pub jumps_from : ℕ → List Insn → List Fixup
jumps_from n [] = []
jumps_from n (insn ∷ insns) = jump_at n ∷ jumps_from (n + 1) insns

unfoldable pub IsPortOp : ℕ → Type 0
IsPortOp op = (op ≡ op_eq) ⊎ ((op ≡ op_ne) ⊎ (op ≡ op_range))

-- The code of a port matcher: the protocol is tested, the port at the offset of the L4 header is
-- loaded and compared.
unfoldable pub port_code : ℕ → ℕ → ℕ → ℕ → ℕ → List Insn
unfolding port_tests
port_code proto offset op first last =
    jmp_imm jne 8 proto 0
    ∷ ldx_mem double_word 6 10 (ctx_off ctx_l4_hdr)
    ∷ ldx_mem half 1 6 offset
    ∷ port_tests op first last

-- The source port stands at 0 and the destination port at 2, in both headers.
abbrev pub port_offset : ℕ → ℕ → ℕ
port_offset source type = if type == source then 0 else 2

chosen_tcp :
    (type : ℕ)
    → (type ≡ type_tcp_sport) ⊎ (type ≡ type_tcp_dport)
    → ((type == type_tcp_sport) || (type == type_tcp_dport)) ≡ true
chosen_tcp type (inl e) = ground (arith, e)
chosen_tcp type (inr e) = ground (arith, e)

chosen_udp :
    (type : ℕ)
    → (type ≡ type_udp_sport) ⊎ (type ≡ type_udp_dport)
    → ((type == type_udp_sport) || (type == type_udp_dport)) ≡ true
chosen_udp type (inl e) = ground (arith, e)
chosen_udp type (inr e) = ground (arith, e)

module _ (p : Program) where
  regroup :
      {a b : List Insn} {f g : List Fixup} (q : Program)
      → a ≡ b
      → f ≡ g
      → Emits p a f q
      → Emits p b g q
  regroup {a = a} {g = g} q e d s = subst (λ c. Emits p c g q) e (subst (λ x. Emits p a x q) d s)

  emit_jmp-behind :
      (q : Program) (a : List Insn) (f : List Fixup) (insn : Insn)
      → Emits p a f q
      → length p.img + length a < 2 ^ 40
      → Gives
          (emit_jmp_next_rule q insn)
          (Emits p (a ++ insn ∷ []) (f ++ jump_at (length p.img + length a) ∷ []))
  unfolding emit_jmp_next_rule
  emit_jmp-behind q a f insn s fits =
      let n : length q.img ≡ length p.img + length a = ap length s.img ∙ length-append p.img a in
      let (r, e, one) = emit_fixup-Emits q jmp_next_rule insn 0 s.room (omega (arith, n, fits)) in
      let both = Emits-then p q r a (insn ∷ []) f (jump_at (length q.img) ∷ []) s one in
      (r, e, subst (λ k. Emits p (a ++ insn ∷ []) (f ++ jump_at k ∷ []) r) n both)

  emit-behind :
      (q : Program) (a : List Insn) (f : List Fixup) (insn : Insn)
      → Emits p a f q
      → length p.img + length a < 2 ^ 40
      → Gives (emit q insn) (Emits p (a ++ insn ∷ []) f)
  emit-behind q a f insn s fits =
      let n : length q.img ≡ length p.img + length a = ap length s.img ∙ length-append p.img a in
      let (r, e, one) = emit-Emits q insn s.room (omega (arith, n, fits)) in
      let both = Emits-then p q r a (insn ∷ []) f [] s one in
      (r, e, subst (λ g. Emits p (a ++ insn ∷ []) g r) (append-nil f) both)

  port_op-behind :
      (q : Program) (m : Matcher) (first last : ℕ) (a : List Insn) (f : List Fixup)
      → IsPortOp m.op
      → payload_uint m 0 2 ≡ ok first
      → payload_uint m 2 2 ≡ ok last
      → Emits p a f q
      → length p.img + length a + 2 ≤ 2 ^ 40
      → Gives (generate_port_op q m) (
          Emits p
            (a ++ port_tests m.op first last)
            (f ++ jumps_from (length p.img + length a) (port_tests m.op first last)))
  unfolding generate_port_op port_tests jumps_from IsPortOp
  port_op-behind q m first last a f (inl e) h₁ h₂ s fits =
      rw (generate_port_op, h₁, h₂, e, ◌>>=◌)
        (emit_jmp-behind q a f (jmp_imm jne 1 (htobe16 first) 0) s (omega (arith, fits)))
  port_op-behind q m first last a f (inr (inl e)) h₁ h₂ s fits =
      rw (generate_port_op, h₁, h₂, e, ◌>>=◌)
        (emit_jmp-behind q a f (jmp_imm jeq 1 (htobe16 first) 0) s (omega (arith, fits)))
  port_op-behind q m first last a f (inr (inr e)) h₁ h₂ s fits =
      let low = jmp_imm jlt 1 (htobe16 first) 0 in
      let high = jmp_imm jgt 1 (htobe16 last) 0 in
      rw (generate_port_op, h₁, h₂, e, ◌>>=◌)
        (Gives-bind (emit_jmp-behind q a f low s (omega (arith, fits))) λ r one.
          let far : length p.img + length (a ++ low ∷ []) ≡ length p.img + length a + 1 =
            omega (arith, length-append a (low ∷ [])) in
          let (t, g, two) =
            emit_jmp-behind r (a ++ low ∷ []) _ high one (omega (arith, far, fits)) in
          let here = length p.img + length a in
          let place =
            subst
              (λ k.
                Emits p ((a ++ low ∷ []) ++ high ∷ []) ((f ++ jump_at here ∷ []) ++ jump_at k ∷ [])
                  t)
              far two in
          (
            t,
            g,
            regroup t (append_assoc a (low ∷ []) (high ∷ []))
                (append_assoc f (jump_at here ∷ []) (jump_at (here + 1) ∷ [])) place,
          ))

  -- From a program with room, and at most 2^40 - 5 instructions, bf_matcher_generate_tcp succeeds
  -- for a matcher on a TCP port whose operator is eq, not or range and whose payload holds two port
  -- numbers. It adds the test of the protocol, the load of the matcher's port and the comparisons of
  -- the operator, and records for the next rule the test and each comparison, and nothing else.
  pub generate_tcp-port :
      (m : Matcher) (first last : ℕ)
      → (m.type ≡ type_tcp_sport) ⊎ (m.type ≡ type_tcp_dport)
      → IsPortOp m.op
      → payload_uint m 0 2 ≡ ok first
      → payload_uint m 2 2 ≡ ok last
      → HasRoom p
      → length p.img + 5 ≤ 2 ^ 40
      → Gives (generate_tcp p m) (
          Emits p
            (port_code ipproto_tcp (port_offset type_tcp_sport m.type) m.op first last)
            (jump_at (length p.img) ∷ jumps_from (length p.img + 3) (port_tests m.op first last)))
  unfolding generate_tcp generate_tcp_port port_code
  generate_tcp-port m first last side op h₁ h₂ room fits =
      let test = jmp_imm jne 8 ipproto_tcp 0 in
      let base = ldx_mem double_word 6 10 (ctx_off ctx_l4_hdr) in
      let load_port = ldx_mem half 1 6 (port_offset type_tcp_sport m.type) in
      let start : length p.img + 0 ≡ length p.img = omega arith in
      Gives-bind
        (rw start at (emit_jmp-behind p [] [] test (Emits-none p room) (omega (arith, fits))))
        λ q one. Gives-bind (emit-behind q (test ∷ []) _ base one (omega (arith, fits))) λ r two.
          rw (chosen_tcp m.type side) (
            Gives-bind (emit-behind r (test ∷ base ∷ []) _ load_port two (omega (arith, fits)))
              λ s three.
                port_op-behind s m first last (test ∷ base ∷ load_port ∷ []) _ op h₁ h₂ three
                  (omega (arith, fits)))

  -- From a program with room, and at most 2^40 - 5 instructions, bf_matcher_generate_udp succeeds
  -- for a matcher on a UDP port whose operator is eq, not or range and whose payload holds two port
  -- numbers. It adds the test of the protocol, the load of the matcher's port and the comparisons of
  -- the operator, and records for the next rule the test and each comparison, and nothing else.
  pub generate_udp-port :
      (m : Matcher) (first last : ℕ)
      → (m.type ≡ type_udp_sport) ⊎ (m.type ≡ type_udp_dport)
      → IsPortOp m.op
      → payload_uint m 0 2 ≡ ok first
      → payload_uint m 2 2 ≡ ok last
      → HasRoom p
      → length p.img + 5 ≤ 2 ^ 40
      → Gives (generate_udp p m) (
          Emits p
            (port_code ipproto_udp (port_offset type_udp_sport m.type) m.op first last)
            (jump_at (length p.img) ∷ jumps_from (length p.img + 3) (port_tests m.op first last)))
  unfolding generate_udp generate_udp_port port_code
  generate_udp-port m first last side op h₁ h₂ room fits =
      let test = jmp_imm jne 8 ipproto_udp 0 in
      let base = ldx_mem double_word 6 10 (ctx_off ctx_l4_hdr) in
      let load_port = ldx_mem half 1 6 (port_offset type_udp_sport m.type) in
      let start : length p.img + 0 ≡ length p.img = omega arith in
      Gives-bind
        (rw start at (emit_jmp-behind p [] [] test (Emits-none p room) (omega (arith, fits))))
        λ q one. Gives-bind (emit-behind q (test ∷ []) _ base one (omega (arith, fits))) λ r two.
          rw (chosen_udp m.type side) (
            Gives-bind (emit-behind r (test ∷ base ∷ []) _ load_port two (omega (arith, fits)))
              λ s three.
                port_op-behind s m first last (test ∷ base ∷ load_port ∷ []) _ op h₁ h₂ three
                  (omega (arith, fits)))
