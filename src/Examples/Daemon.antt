-- ===== src/Examples/Daemon.antt =====
-- A daemon whose system calls succeed, and what is outside of it: the path of a program's directory.
use bpfilter.Prelude.{
  ◌⊎◌, ℕ, ◌≡◌, refl, sym, ◌∙◌, Bool, true, false, List, [], ◌∷◌, Option, none, some, length,
}
use bpfilter.Result.{Result, ok, err, fault, Gives, enotsup, einval, enoent}
use bpfilter.Bytes.{c_string, load}
use bpfilter.Prog.Map.{create_attr, map_set_n_elems, map_set_value_size}
use bpfilter.Hook.Types.{to_bpf_prog_type, to_attach_type}
use bpfilter.Printer.{assemble}
use bpfilter.Prog.Attach.{attach_prog}
use bpfilter.Prog.Link.{link_new}
use bpfilter.Cgen.Patch.{program_fixup}
use bpfilter.Hook.{has_flag}
use bpfilter.Hook.Options.{streq}
use bpfilter.Printer.Packed.{streq_eq, streq_refl}
use bpfilter.Prog.Calls.{◌>>=◌, ret, lift, Calls}
use bpfilter.Prog.Stored.{StoredProgram}
use bpfilter.Prog.Load.{Loading, load_attached, dir_of}
use bpfilter.Prog.Load.Keeps.{IsQuiet}
use bpfilter.Prog.Load.Rollback.{IsMoved, load_attached_lem}
use bpfilter.Codegen.Up.{Env, new_code}
use bpfilter.Ctx.{ctx_flush, ctx_is_empty, hook_max, unload_lists, unload_list}
use bpfilter.Ctx.Sound.{IsSound}
use bpfilter.Request.{front_nft, response_new_success, Request, success, front_cli, ruleset_flush}
use bpfilter.Front.{Daemon, outside, from_world}
use bpfilter.Front.Cli.{cli_request_handler, put_chain, cli_ruleset_flush, flushed}
use bpfilter.Front.Table.{front_ops}
use bpfilter.Front.Process.{
  is_front_enabled, FrontOps, Files, process_request, process_enabled, handled, answered, save,
}
use bpfilter.Front.Installed.{Ends, Holding, put_chain_lem}
use bpfilter.Front.Session.{IsSensible}
use bpfilter.Front.Reach.{handle, here, next, Reaches, Reaches-IsSound, Reaches-flush}
use bpfilter.Marsh.{marsh_new, next_child, require_child}
use bpfilter.Chain.{chain_new_from_marsh}
use bpfilter.Codegen.{cgen_unload}
use bpfilter.Prog.Unload.{program_unload, detach_prog, link_detach, close_objects, detach_links}
use bpfilter.Ipt.Replace.{Counter}
use bpfilter.Ipt.Handler.{IptLayout, filter_name}
use bpfilter.Examples.Serial.{web_chain}
use bpfilter.Examples.Saved.{host, web_program, new_program, running}
use bpfilter.Examples.Registry.{running-slots, other_cgen, other_cgen-slot, other_cgen-unused}
use bpfilter.Examples.Flavors.{kernel}

abbrev Outside : Type 0
Outside = List ℕ

abbrev rename_if : Bool → List ℕ → Outside → Bool × Outside
rename_if true to w = (true, to)
rename_if false to w = (false, w)

abbrev host_calls : Calls Outside
host_calls = record {
  map_create = λ attr. ret 11;
  update_batch = λ fd keys values n. ret tt;
  update_elem = λ fd key value. ret tt;
  prog_load = λ attr. ret 12;
  link_create = λ attr. ret 13;
  link_update = λ link prog. ret tt;
  link_info = λ fd. ret (record { pf = 2; priority = 2 });
  dup = λ fd w. (fd, w);
  open_cgroup = λ path. ret 14;
  access = λ path w. (0, w);
  mkdir = λ path. ret tt;
  is_dir = λ path w. (true, w);
  open_pins = λ path. ret 15;
  rmdir = λ path w. w;
  rename = λ from to w. rename_if (streq w from) to w;
  pins = λ fd. record { pin = λ name fd w. (0, w); unlink = λ name w. (0, w) };
}

-- A cgroup that cannot be opened.
abbrev failing_calls : Calls Outside
failing_calls = record host_calls { open_cgroup = λ path w. (err enoent, w) }

failing_calls-IsQuiet : IsQuiet (λ (w : Outside). w) failing_calls
failing_calls-IsQuiet = record {
  map_create = λ attr. record { kept = λ w. refl };
  update_batch = λ fd keys values n. record { kept = λ w. refl };
  update_elem = λ fd key value. record { kept = λ w. refl };
  prog_load = λ attr. record { kept = λ w. refl };
  link_create = λ attr. record { kept = λ w. refl };
  link_update = λ link prog. record { kept = λ w e f. refl };
  link_info = λ fd. record { kept = λ w. refl };
  dup = λ fd w. refl;
  open_cgroup = λ path. record { kept = λ w. refl };
  rename_fails = λ from to w e. fails (streq w from) to w e;
  rename_back = λ from to w u e f g. back from to w u (streq w from) refl e f;
}
  where
    fails :
        (b : Bool) (to : List ℕ) (w : Outside)
        → (rename_if b to w).0 ≡ false
        → (rename_if b to w).1 ≡ w
    fails true to w e = cc
    fails false to w e = refl

    back :
        (from to : List ℕ) (w u : Outside) (b : Bool)
        → streq w from ≡ b
        → (rename_if b to w).0 ≡ true
        → u ≡ (rename_if b to w).1
        → (rename_if (streq u to) from u).1 ≡ w
    back from to w u true s e f = rw (f, streq_refl to) (sym (streq_eq w from s))
    back from to w u false s e f = cc

abbrev env : Env Outside
env = record {
  sys = host;
  kernel = kernel;
  calls = host_calls;
  detach = λ fd. 0;
  malloc = λ n. [];
  transient = false;
  fronts = 5;
}

abbrev files : Files Outside
files = record { write_file = λ bytes. ret tt; unlink = λ w. w }

-- Structs without members, and a table that is never valid.
abbrev layout : IptLayout
layout = record {
  sizes = record { entry = 112; standard = 40; error = 64 };
  replace_size = 96;
  replace_of = λ bytes. err einval;
  info_size = 84;
  info_name = λ bytes. ok filter_name;
  with_info = λ replace bytes. bytes;
  entries_size = 40;
  entries_name = λ bytes. ok filter_name;
  room_of = λ bytes. ok 0;
  with_entries = λ slots bytes. bytes;
}

abbrev lookup : Option ℕ → ℕ → Result Counter
lookup fd index = err enoent

-- The front of nftables, which is disabled.
abbrev nft : FrontOps Outside
nft = record { request_handler = λ request. lift (err enotsup); marsh = ok (marsh_new []) }

nft_disabled : is_front_enabled env.fronts front_nft ≡ false
unfolding has_flag
nft_disabled = refl

running-IsSound : IsSound running
running-IsSound = record {
  valid = running-slots;
  loaded = (tt, (tt, (tt, (tt, (tt, (((λ a e. cc), tt), (tt, (tt, (tt, (tt, tt))))))))));
}

abbrev start : Daemon Outside
start = record { ctx = running; world = [] }

abbrev flush_request : Request
flush_request = record { front = front_cli; cmd = ruleset_flush; ipt_cmd = 0; data_bytes = [] }

abbrev loading : Loading
loading = record {
  prog = new_program;
  code = record (new_code new_program) {
    num_counters = 3;
    printer = record { offset = 0; len = 2; str = b'!' ∷ [] } ∷ [];
  };
}

abbrev two_bytes : ℕ → List ℕ
two_bytes n = 0 ∷ 0 ∷ []

abbrev no_link : StoredProgram
no_link = record web_program { links = [] }

abbrev old_dir : Outside
old_dir = dir_of (b'w' ∷ [])

load_attached_fails :
    (load_attached failing_calls host two_bytes false web_chain loading (some no_link) old_dir).0
    ≡ err enoent
unfolding load_attached ◌>>=◌ create_attr c_string load program_fixup map_set_n_elems assemble
    map_set_value_size to_bpf_prog_type to_attach_type streq attach_prog link_new
load_attached_fails = refl

load_attached_lem_example :
    ((load_attached failing_calls host two_bytes false web_chain loading (some no_link) old_dir).1
      ≡ old_dir)
    ⊎ IsMoved
        (λ (w : Outside). w)
        failing_calls
        failing_calls-IsQuiet
        host
        loading.prog.id
        old_dir
        (load_attached failing_calls host two_bytes false web_chain loading
          (some no_link)
          old_dir).1
load_attached_lem_example =
    load_attached_lem (λ (w : Outside). w) failing_calls failing_calls-IsQuiet host two_bytes
      web_chain loading no_link old_dir enoent load_attached_fails

put_chain_lem_example :
    Ends running (Holding other_cgen.chain) (put_chain env front_cli other_cgen.chain none start)
put_chain_lem_example =
    put_chain_lem env start running-IsSound front_cli other_cgen.chain other_cgen-slot none
      other_cgen-unused

no_chain : chain_new_from_marsh [] 0 ≡ fault
unfolding chain_new_from_marsh require_child next_child load
no_chain = refl

flushed_answer :
    (process_request env files (front_ops env layout lookup nft) flush_request start).0
    ≡ ok (success [])
unfolding process_request process_enabled handled answered ◌>>=◌ cli_request_handler
    cli_ruleset_flush flushed ctx_flush unload_lists unload_list cgen_unload program_unload
    detach_prog link_detach close_objects detach_links response_new_success save outside from_world
    ctx_is_empty has_flag
flushed_answer = refl

fault_not_ok : {A : Type 0} {a : A} → fault ≡ ok a → ⊥
fault_not_ok e = cc

ok_not_fault : {A : Type 0} {a : A} → ok a ≡ fault → ⊥
ok_not_fault e = cc

nothing-IsSensible : IsSensible flush_request
nothing-IsSensible chain e = absurd (fault_not_ok (sym no_chain ∙ e))

-- The daemon is flushed.
reached :
    Reaches env files layout lookup nft nft_disabled start
      (process_request env files (front_ops env layout lookup nft) flush_request start).1
reached =
    next here
      (handle flush_request nothing-IsSensible (λ e. ok_not_fault (sym flushed_answer ∙ e)) refl)

Reaches-IsSound_example :
    IsSound (process_request env files (front_ops env layout lookup nft) flush_request start).1.ctx
Reaches-IsSound_example =
    Reaches-IsSound env files layout lookup nft nft_disabled start
      (process_request env files (front_ops env layout lookup nft) flush_request start).1
      running-IsSound reached

Reaches-flush_example :
    Gives
      (ctx_flush env.detach
        (process_request env files (front_ops env layout lookup nft) flush_request start).1.ctx)
      (λ x. (ctx_is_empty x.1 ≡ true) × (length x.1 ≡ hook_max))
Reaches-flush_example =
    Reaches-flush env files layout lookup nft nft_disabled start
      (process_request env files (front_ops env layout lookup nft) flush_request start).1
      running-IsSound reached
