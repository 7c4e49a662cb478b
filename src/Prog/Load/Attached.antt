-- ===== src/Prog/Load/Attached.antt =====
-- What is seen of the outside when attaching the program fails (bf_program_attach in
-- bpfilter/cgen/program.c).
use bpfilter.Prelude.{
  Bool, true, false, List, [], ◌∷◌, Option, none, some, if◌then◌else◌, ◌==◌, get_elem?,
}
use bpfilter.Hook.{xdp}
use bpfilter.Chain.{Chain}
use bpfilter.Prog.{System}
use bpfilter.Prog.Ident.{by_interface, by_netfilter}
use bpfilter.Prog.Link.{Link}
use bpfilter.Prog.Stored.{StoredProgram}
use bpfilter.Prog.Calls.{Io, Calls}
use bpfilter.Prog.Attach.{get_new_link, attach_one, replace_nf, attach_nf, attach_prog}
use bpfilter.Prog.Load.Keeps.{
  Keeps, KeepsOnError, Keeps-bind, KeepsOnError-bind, KeepsOnError-ret, quiet, IsQuiet,
  attach_xdp-Keeps, attach_tc-Keeps, attach_nf-Keeps, attach_cgroup-Keeps, link_get_info-Keeps,
  duplicate-Keeps,
}

module _ {W V : Type 0} (view : W → V) (calls : Calls W) (q : IsQuiet view calls)
    (sys : System) where
  on_error : {A : Type 0} {m : Io W A} → Keeps view m → KeepsOnError view m
  on_error h = record { kept = λ w e f. h.kept w }

  either :
      {A : Type 0} {m n : Io W A} (b : Bool)
      → KeepsOnError view m
      → KeepsOnError view n
      → KeepsOnError view (if b then m else n)
  either true h k = h
  either false h k = k

  module _ (prog : StoredProgram) where
    get_new_link-Keeps :
        (links : List Link) (old : Option Link) → Keeps view (get_new_link calls sys prog links old)
    unfolding get_new_link
    get_new_link-Keeps links old =
        Keeps-bind view _ _ (quiet view) λ link. duplicate-Keeps view calls q old link

    attach_one-KeepsOnError :
        (attach : Link → Io W Link) (old : Option Link)
        → ((link : Link) → Keeps view (attach link))
        → KeepsOnError view (attach_one calls sys prog attach old)
    unfolding attach_one
    attach_one-KeepsOnError attach none h = on_error (
        Keeps-bind view _ _ (get_new_link-Keeps [] none)
          λ link. Keeps-bind view _ _ (h link) λ attached. quiet view)
    attach_one-KeepsOnError attach (some old) h =
        KeepsOnError-bind view _ _ (get_new_link-Keeps [] (some old)) λ link.
          KeepsOnError-ret view (calls.link_update link.fd prog.prog_fd) (λ done. link ∷ [])
            (q.link_update link.fd prog.prog_fd)

    replace_nf-Keeps : (links olds : List Link) → Keeps view (replace_nf calls sys prog links olds)
    unfolding replace_nf
    replace_nf-Keeps links [] = quiet view
    replace_nf-Keeps links (old ∷ olds) =
        Keeps-bind view _ _ (link_get_info-Keeps view calls q old) λ info.
          Keeps-bind view _ _ (get_new_link-Keeps links none) λ link.
            Keeps-bind view _ _ (attach_nf-Keeps view calls q link _ _ _)
              λ attached. replace_nf-Keeps _ olds

    attach_nf-list : (olds : List Link) → Keeps view (attach_nf calls sys prog olds)
    unfolding attach_nf
    attach_nf-list (old ∷ olds) = replace_nf-Keeps [] (old ∷ olds)
    attach_nf-list [] = Keeps-bind view _ _ (get_new_link-Keeps [] none) λ first.
        Keeps-bind view _ _ (attach_nf-Keeps view calls q first _ _ _) λ ipv4.
          Keeps-bind view _ _ (get_new_link-Keeps (ipv4 ∷ []) none) λ second.
            Keeps-bind view _ _ (attach_nf-Keeps view calls q second _ _ _) λ ipv6. quiet view

    pub attach_prog-KeepsOnError :
        (chain : Chain) (olds : List Link)
        → KeepsOnError view (attach_prog calls sys prog chain olds)
    unfolding attach_prog
    attach_prog-KeepsOnError chain olds =
        either (prog.hook == xdp)
          (attach_one-KeepsOnError _ (get_elem? olds 0)
            λ link. attach_xdp-Keeps view calls q link _ _ _)
          (either (by_interface prog.hook)
            (attach_one-KeepsOnError _ (get_elem? olds 0)
              λ link. attach_tc-Keeps view calls q link _ _)
            (either (by_netfilter prog.hook) (on_error (attach_nf-list olds)) (
              attach_one-KeepsOnError _ (get_elem? olds 0)
                λ link. attach_cgroup-Keeps view calls q link _ _)))
