-- ===== src/Examples/Flavors.antt =====
-- The code of the flavors in front of an empty program.
use bpfilter.Prelude.{ℕ, ◌+◌, ◌≡◌, ◌≢◌, refl, false, length, arith}
use bpfilter.Result.{ok, Gives}
use bpfilter.Cgen.Stub.{Kernel}
use bpfilter.Cgen.Stub.Grows.{Grows}
use bpfilter.Cgen.Flavors.{flavor_ops}
use bpfilter.Cgen.Flavors.Prologues.{Supports, flavor_ops_lem}
use bpfilter.Examples.Codegen.{empty_program, empty_room}

-- Every function has an identifier, and every field the offset 16.
abbrev pub kernel : Kernel
kernel = record {
  btf_id = λ name. ok (100 + length name);
  field_off = λ struct field. ok 16;
  verbose = false;
}

kernel-Supports : Supports kernel
kernel-Supports = record {
  from_xdp = (_, refl);
  from_skb = (_, refl);
  slice = (_, refl);
  ifindex = (_, refl);
  family = (_, refl);
  state = (_, refl);
  in_device = (_, refl);
  out_device = (_, refl);
  device_ifindex = (_, refl);
  pf = (_, refl);
  skb = (_, refl);
  len = (_, refl);
}

-- The code for forwarded packets.
flavor_ops_lem_example : Gives (flavor_ops kernel 4) λ ops.
    Gives (ops.gen_inline_prologue empty_program) (Grows empty_program 98)
    × (accept : ℕ) × (drop : ℕ) × (ops.get_verdict 0 ≡ ok accept)
    × (ops.get_verdict 1 ≡ ok drop)
    × (accept ≢ drop)
flavor_ops_lem_example =
    flavor_ops_lem kernel kernel-Supports refl 4 (omega arith) empty_program empty_room
      (omega arith)
