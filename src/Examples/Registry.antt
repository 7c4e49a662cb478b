-- ===== src/Examples/Registry.antt =====
-- Codegens in a context, and what their programs are made of.
use bpfilter.Prelude.{
  ℕ, zero, suc, ◌<◌, ◌≡◌, ◌≢◌, refl, true, false, List, [], ◌∷◌, ◌++◌, none, some, length, map,
  get_elem?, some_injective, subst, inr, arith,
}
use bpfilter.Result.{ok, Gives}
use bpfilter.Bytes.{c_string}
use bpfilter.Hook.{has_flag, opt_name}
use bpfilter.Hook.Options.{streq}
use bpfilter.Set.{KeySet}
use bpfilter.Chain.{Chain}
use bpfilter.Strings.{hex}
use bpfilter.Prog.Ident.{genid, id_source, id_text}
use bpfilter.Prog.Ident.Bounds.{genid-id_text}
use bpfilter.Prog.Map.{BpfMap}
use bpfilter.Prog.Stored.{program_new, prog_suffix, cmap_suffix, pmap_suffix}
use bpfilter.Prog.Stored.Names.{set_names, program_new-names, program_new-no_elems}
use bpfilter.Codegen.{Codegen}
use bpfilter.Ctx.{
  ctx_get_cgen, ctx_set_cgen, ctx_flush, get_from, get_cgroup_cgen, same_path, ctx_is_empty,
  hook_max, empty_lists,
}
use bpfilter.Ctx.Slots.{get_from-find_slot, find_slot, same_slot, HasSlot}
use bpfilter.Ctx.Registry.{ctx_set_cgen_lem, ctx_set_cgen-other_slot}
use bpfilter.Ctx.Registry as CtxRegistry
use bpfilter.Ctx.Flush.{ctx_flush_lem, first_error, unload_code, all_cgens}
use bpfilter.Examples.Serial.{web_chain}
use bpfilter.Examples.Saved.{host, web_cgen, running, new_program, new_program_made}

-- Another cgroup at the same hook.
abbrev pub other_cgen : Codegen
other_cgen = record web_cgen {
  chain = record web_chain {
    hook_opts = record {
      used_opts = 10;
      ifindex = 0;
      cgroup = some (b'/' ∷ b'b' ∷ []);
      name = none;
      attach = true;
    };
  };
  program = none;
}

nothing-IsSlotted : (hook : ℕ) → CtxRegistry.IsSlotted hook []
nothing-IsSlotted hook = record { of_hook = tt; has_slots = tt; distinct = tt }

empty-IsSlotted :
    (n i hook : ℕ) (cgens : List Codegen)
    → get_elem? (empty_lists n) i ≡ some cgens
    → CtxRegistry.IsSlotted hook cgens
empty-IsSlotted zero i hook cgens e = cc
empty-IsSlotted (suc n) zero hook cgens e =
    subst (CtxRegistry.IsSlotted hook) (some_injective e) (nothing-IsSlotted hook)
empty-IsSlotted (suc n) (suc i) hook cgens e = empty-IsSlotted n i hook cgens e

web-IsSlotted : CtxRegistry.IsSlotted 5 (web_cgen ∷ [])
web-IsSlotted = record {
  of_hook = (refl, tt);
  has_slots = ((λ a b e. cc), tt);
  distinct = (tt, tt);
}

running-IsSlotted :
    (hook : ℕ) (cgens : List Codegen)
    → get_elem? running hook ≡ some cgens
    → CtxRegistry.IsSlotted hook cgens
running-IsSlotted zero cgens e = empty-IsSlotted 1 0 0 cgens e
running-IsSlotted (suc zero) cgens e = empty-IsSlotted 1 0 1 cgens e
running-IsSlotted (suc (suc zero)) cgens e = empty-IsSlotted 1 0 2 cgens e
running-IsSlotted (suc (suc (suc zero))) cgens e = empty-IsSlotted 1 0 3 cgens e
running-IsSlotted (suc (suc (suc (suc zero)))) cgens e = empty-IsSlotted 1 0 4 cgens e
running-IsSlotted (suc (suc (suc (suc (suc zero))))) cgens e =
    subst (CtxRegistry.IsSlotted 5) (some_injective e) web-IsSlotted
running-IsSlotted (suc (suc (suc (suc (suc (suc n)))))) cgens e =
    empty-IsSlotted 4 n (suc (suc (suc (suc (suc (suc n)))))) cgens e

pub running-slots : CtxRegistry.IsValid running
running-slots = record { all_hooks = refl; slotted = running-IsSlotted }

pub other_cgen-slot : HasSlot 5 other_cgen.chain.hook_opts
other_cgen-slot a b e = cc

pub other_cgen-unused : ctx_get_cgen running 5 other_cgen.chain.hook_opts ≡ ok none
unfolding ctx_get_cgen get_from get_cgroup_cgen same_path streq
other_cgen-unused = refl

ctx_set_cgen_lem_example : Gives (ctx_set_cgen running other_cgen) (λ new.
    CtxRegistry.IsValid new
    × (ctx_get_cgen new 5 other_cgen.chain.hook_opts ≡ ok (some other_cgen)))
ctx_set_cgen_lem_example =
    ctx_set_cgen_lem running running-slots other_cgen (omega arith) other_cgen-slot
      other_cgen-unused

web_chain-slot : HasSlot 5 web_chain.hook_opts
web_chain-slot a b e = cc

apart : same_slot 5 other_cgen.chain.hook_opts web_chain.hook_opts ≡ false
unfolding same_slot streq
apart = refl

ctx_set_cgen-other_slot_example :
    Gives
      (ctx_set_cgen running other_cgen)
      (λ new. ctx_get_cgen new 5 web_chain.hook_opts ≡ ctx_get_cgen running 5 web_chain.hook_opts)
ctx_set_cgen-other_slot_example =
    ctx_set_cgen-other_slot running running-slots other_cgen (omega arith) other_cgen-slot
      other_cgen-unused 5 web_chain.hook_opts web_chain-slot (inr apart)

get_from-find_slot_example :
    get_from 5 (web_cgen ∷ other_cgen ∷ []) other_cgen.chain.hook_opts
    ≡ ok (find_slot 5 (web_cgen ∷ other_cgen ∷ []) other_cgen.chain.hook_opts)
get_from-find_slot_example =
    get_from-find_slot 5 (web_cgen ∷ other_cgen ∷ []) other_cgen.chain.hook_opts
      (web_chain-slot, (other_cgen-slot, tt)) other_cgen-slot

-- The links cannot be detached.
ctx_flush_lem_example : Gives (ctx_flush (λ fd. 1) running) (λ x.
    (x.0 ≡ first_error (map (unload_code (λ fd. 1)) (all_cgens running)))
    × (ctx_is_empty x.1 ≡ true)
    × (length x.1 ≡ hook_max))
ctx_flush_lem_example =
    ctx_flush_lem (λ fd. 1) running
      (tt, (tt, (tt, (tt, (tt, (((λ a e. cc), tt), (tt, (tt, (tt, (tt, tt))))))))))

program_new-names_example :
    (new_program.prog_name ≡ (b'w' ∷ []) ++ prog_suffix)
    × (c_string new_program.cmap.name ≡ ok ((b'w' ∷ []) ++ cmap_suffix))
    × (c_string new_program.pmap.name ≡ ok ((b'w' ∷ []) ++ pmap_suffix))
    × (map (λ (m : BpfMap). c_string m.name) new_program.sets ≡ set_names (b'w' ∷ []) 0 1)
    × (1 < 12)
program_new-names_example =
    program_new-names host 5 1 web_chain new_program (omega arith, tt) new_program_made

abbrev empty_set : KeySet
empty_set = record { type = 0; elem_size = 4; elems = [] }

abbrev empty_set_chain : Chain
empty_set_chain = record web_chain { sets = empty_set ∷ [] }

program_new-no_elems_example : program_new host 5 1 empty_set_chain ≢ ok new_program
program_new-no_elems_example =
    program_new-no_elems host 5 1 empty_set_chain [] [] empty_set new_program refl refl

-- A chain on an interface, without a name.
abbrev on_interface : Chain
on_interface = record web_chain {
  hook = 0;
  hook_opts = record { used_opts = 1; ifindex = 2; cgroup = none; name = none; attach = true };
}

unnamed : has_flag on_interface.hook_opts.used_opts opt_name ≡ false
unfolding has_flag
unnamed = refl

abbrev interface_id : List ℕ
interface_id = b'b' ∷ b'f' ∷ b'_' ∷ b'x' ∷ b'd' ∷ b'p' ∷ b'_' ∷ b'0' ∷ b'0' ∷ b'0' ∷ b'c' ∷ []

interface_genid : genid host 0 on_interface ≡ ok interface_id
unfolding genid id_source has_flag hex
interface_genid = refl

genid-id_text_example : (n : ℕ) × (n < 256) × (interface_id ≡ id_text (b'x' ∷ b'd' ∷ b'p' ∷ []) n)
genid-id_text_example =
    genid-id_text host 0 (b'x' ∷ b'd' ∷ b'p' ∷ []) interface_id on_interface refl unnamed
      interface_genid
