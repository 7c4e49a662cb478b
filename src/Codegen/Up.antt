-- ===== src/Codegen/Up.antt =====
-- src/bpfilter/cgen/cgen.c, bf_cgen_up and bf_cgen_update: a codegen gets a program, or a new program and
-- a new chain in place of the ones that it has.
use bpfilter.Prelude.{ℕ, Bool, false, List, [], ◌∷◌, Option, none, some, map}
use bpfilter.Chain.{Chain}
use bpfilter.Cgen.{Program}
use bpfilter.Cgen.Stub.{Kernel}
use bpfilter.Cgen.Generate.{program_generate}
use bpfilter.Cgen.Flavors.{flavor_ops}
use bpfilter.Prog.{System}
use bpfilter.Prog.Stored.{StoredProgram, program_new}
use bpfilter.Prog.Calls.{Io, ◌>>=◌, lift, ret, Calls}
use bpfilter.Prog.Load.{map_fd, program_load}
use bpfilter.Codegen.{Codegen}

-- What the functions of the daemon use from outside of it, and its options.
pub record Env (W : Type 0) : Type 0 where
  pub sys : System
  pub kernel : Kernel
  pub calls : Calls W
  -- BPF_LINK_DETACH of a descriptor: 0 or an errno
  pub detach : Option ℕ → ℕ
  -- The content of a new block of memory of some size.
  pub malloc : ℕ → List ℕ
  -- bf_opts_transient, and the flags of the fronts
  pub transient : Bool
  pub fronts : ℕ

-- The new program as the generation sees it: no code, and maps without descriptors.
abbrev pub new_code : StoredProgram → Program
new_code p = record {
  img = [];
  img_cap = 0;
  allocated = false;
  fixups = [];
  functions_location = 0 ∷ [];
  cmap = map_fd p.cmap;
  pmap = map_fd p.pmap;
  sets = map map_fd p.sets;
  printer = [];
  num_counters = 0;
}

module _ {W : Type 0} (env : Env W) where
  -- The calls that both functions make: a program is created, generated and loaded.
  unfoldable pub new_program : ℕ → Chain → Option StoredProgram → Io W StoredProgram
  new_program front chain old = do
    prog ← lift (program_new env.sys chain.hook front chain)
    ops ← lift (flavor_ops env.kernel chain.hook)
    code ← lift (program_generate ops env.kernel.verbose (new_code prog) chain)
    program_load env.calls env.sys env.malloc env.transient chain
        (record { prog = prog; code = code }) old

  unfoldable pub cgen_up : Codegen → Io W Codegen
  unfolding new_program
  cgen_up cgen = do
    prog ← new_program cgen.front cgen.chain none
    ret (record cgen { program = some prog })

  unfoldable pub cgen_update : Codegen → Chain → Io W Codegen
  unfolding new_program
  cgen_update cgen new_chain = do
    prog ← new_program cgen.front new_chain cgen.program
    ret (record cgen { chain = new_chain; program = some prog })
