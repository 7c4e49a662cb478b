-- ===== src/Ctx/Loaded.antt =====
-- The programs of the codegens that bf_cgen_up and bf_cgen_update give.
use bpfilter.Prelude.{
  ℕ, ◌≡◌, ◌≢◌, refl, Bool, true, false, List, [], Option, none, some, if◌then◌else◌,
}
use bpfilter.Result.{Result, ok, err, fault}
use bpfilter.Chain.{Chain}
use bpfilter.Prog.Link.{Link}
use bpfilter.Prog.Stored.{StoredProgram}
use bpfilter.Prog.Calls.{Yields, Yields-bind, Yields-any, Yields-ret}
use bpfilter.Prog.Attach.{attach_prog}
use bpfilter.Prog.Attach.Links.{attach_prog-AreOpen}
use bpfilter.Prog.Load.{
  Loading, program_load, load_attached, attach_new, or_restore, restore_old, links_of,
}
use bpfilter.Codegen.{Codegen}
use bpfilter.Codegen.Up.{Env, new_program, cgen_up, cgen_update}
use bpfilter.Ctx.Flush.{IsLoaded}

module _ {W : Type 0} (env : Env W) where
  -- The links of a chain's program.
  abbrev IsAttached : Chain → List Link → Type 0
  IsAttached chain links = chain.hook_opts.attach ≡ true → links ≢ []

  or_restore-ok :
      (p : StoredProgram) (old : Option StoredProgram) (x : Result (List Link) × W)
      (links : List Link) (u : W)
      → or_restore env.calls p old x ≡ (ok links, u)
      → x ≡ (ok links, u)
  unfolding or_restore restore_old
  or_restore-ok p old (ok l, w) links u e = e
  or_restore-ok p none (err n, w) links u e = cc
  or_restore-ok p (some old) (err n, w) links u e = cc
  or_restore-ok p old (fault, w) links u e = cc

  chosen :
      (chain : Chain) (p : StoredProgram) (old : Option StoredProgram) (attach : Bool) (w : W)
      (links : List Link) (u : W)
      → (if attach
          then or_restore env.calls p old (attach_prog env.calls env.sys p chain (links_of old) w)
          else (ok p.links, w))
        ≡ (ok links, u)
      → attach ≡ true
      → links ≢ []
  chosen chain p old true w links u e a =
      ((attach_prog-AreOpen env.calls env.sys p chain (links_of old)).holds w links u
        (or_restore-ok p old _ links u e)).some_link
  chosen chain p old false w links u e a = cc

  attach_new-IsAttached :
      (chain : Chain) (p : StoredProgram) (old : Option StoredProgram)
      → Yields (IsAttached chain) (attach_new env.calls env.sys chain p old)
  unfolding attach_new
  attach_new-IsAttached chain p old = record {
    holds = λ w links u e. chosen chain p old chain.hook_opts.attach w links u e;
  }

  load_attached-links :
      (chain : Chain) (l : Loading) (old : Option StoredProgram)
      → Yields
          (λ p. IsAttached chain p.links)
          (load_attached env.calls env.sys env.malloc env.transient chain l old)
  unfolding load_attached
  load_attached-links chain l old = Yields-bind _ _ Yields-any λ a any.
      Yields-bind _ _ Yields-any λ b any. Yields-bind _ _ Yields-any λ c any.
        Yields-bind _ _ Yields-any λ p any.
          Yields-bind _ _ Yields-any
            λ done any. Yields-bind _ _ (attach_new-IsAttached chain p old) λ links h. Yields-ret h

  new_program-links :
      (front : ℕ) (chain : Chain) (old : Option StoredProgram)
      → Yields (λ p. IsAttached chain p.links) (new_program env front chain old)
  unfolding new_program program_load
  new_program-links front chain old = Yields-bind _ _ Yields-any λ prog any.
      Yields-bind _ _ Yields-any λ ops any. Yields-bind _ _ Yields-any λ code any.
        Yields-bind _ _ (load_attached-links chain (record { prog = prog; code = code }) old)
          λ p h. Yields-bind _ _ Yields-any λ done any. Yields-ret h

  pub cgen_up-IsLoaded :
      (cgen : Codegen) → Yields (λ new. IsLoaded new × (new.chain ≡ cgen.chain)) (cgen_up env cgen)
  unfolding cgen_up
  cgen_up-IsLoaded cgen =
      Yields-bind _ _ (new_program-links cgen.front cgen.chain none) λ p h. Yields-ret (h, refl)

  pub cgen_update-IsLoaded :
      (cgen : Codegen) (chain : Chain)
      → Yields (λ new. IsLoaded new × (new.chain ≡ chain)) (cgen_update env cgen chain)
  unfolding cgen_update
  cgen_update-IsLoaded cgen chain =
      Yields-bind _ _ (new_program-links cgen.front chain cgen.program) λ p h. Yields-ret (h, refl)
