-- ===== src/Examples/Ports.antt =====
-- Generated code of the port matchers.
use bpfilter.Prelude.{◌≡◌, inr, refl, [], ◌∷◌, arith}
use bpfilter.Result.{ok, Gives}
use bpfilter.Matcher.{Matcher}
use bpfilter.Cgen.Emit.Room.{Emits}
use bpfilter.Cgen.Context.{ipproto_tcp, ipproto_udp, payload_uint}
use bpfilter.Bytes.{load, of_le}
use bpfilter.Cgen.Matchers.Transport.{generate_tcp, generate_udp}
use bpfilter.Cgen.Matchers.Ports.{
  IsPortOp, port_code, port_tests, jumps_from, jump_at, generate_tcp-port, generate_udp-port,
}
use bpfilter.Examples.Codegen.{empty_program, empty_room}

-- TCP destination ports from 80 to 90
abbrev tcp_range : Matcher
tcp_range = record { type = 11; op = 5; len = 20; payload = 80 ∷ 0 ∷ 90 ∷ 0 ∷ [] }

tcp_first : payload_uint tcp_range 0 2 ≡ ok 80
unfolding payload_uint load of_le
tcp_first = refl

tcp_last : payload_uint tcp_range 2 2 ≡ ok 90
unfolding payload_uint load of_le
tcp_last = refl

tcp_op-IsPortOp : IsPortOp 5
unfolding IsPortOp
tcp_op-IsPortOp = inr (inr refl)

generate_tcp-port_example : Gives (generate_tcp empty_program tcp_range) (
    Emits empty_program
      (port_code ipproto_tcp 2 5 80 90)
      (jump_at 0 ∷ jumps_from 3 (port_tests 5 80 90)))
generate_tcp-port_example =
    generate_tcp-port empty_program tcp_range 80 90 (inr refl) tcp_op-IsPortOp tcp_first tcp_last
      empty_room (omega arith)

-- UDP destination ports from 80 to 90
abbrev udp_range : Matcher
udp_range = record { type = 14; op = 5; len = 20; payload = 80 ∷ 0 ∷ 90 ∷ 0 ∷ [] }

udp_first : payload_uint udp_range 0 2 ≡ ok 80
unfolding payload_uint load of_le
udp_first = refl

udp_last : payload_uint udp_range 2 2 ≡ ok 90
unfolding payload_uint load of_le
udp_last = refl

udp_op-IsPortOp : IsPortOp 5
unfolding IsPortOp
udp_op-IsPortOp = inr (inr refl)

generate_udp-port_example : Gives (generate_udp empty_program udp_range) (
    Emits empty_program
      (port_code ipproto_udp 2 5 80 90)
      (jump_at 0 ∷ jumps_from 3 (port_tests 5 80 90)))
generate_udp-port_example =
    generate_udp-port empty_program udp_range 80 90 (inr refl) udp_op-IsPortOp udp_first udp_last
      empty_room (omega arith)
