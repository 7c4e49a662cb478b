-- ===== src/Prog/Attach/Links.antt =====
-- The links that attaching a program gives.
use bpfilter.Prelude.{
  ℕ, ◌≡◌, ◌≢◌, ap, subst, List, [], ◌∷◌, ◌++◌, Option, none, some, All, All-append, ◌==◌, get_elem?,
}
use bpfilter.Result.{Result, ok, err, eperm, ok_injective}
use bpfilter.Hook.{xdp}
use bpfilter.Chain.{Chain}
use bpfilter.Prog.{System}
use bpfilter.Prog.Ident.{by_interface, by_netfilter}
use bpfilter.Prog.Link.{Link}
use bpfilter.Prog.Stored.{StoredProgram}
use bpfilter.Prog.Calls.{
  Io, Calls, LinkAttr, Yields, Yields-bind, Yields-any, Yields-ret, Yields-either,
}
use bpfilter.Prog.Attach.{
  create, link_attach_xdp, link_attach_tc, link_attach_nf, link_attach_cgroup, duplicate,
  get_new_link, attach_one, replace_nf, attach_nf, attach_prog,
}

-- A link with a descriptor.
abbrev pub IsOpen : Link → Type 0
IsOpen link = link.fd ≢ none

-- The links of a program that is attached.
pub record AreOpen (links : List Link) : Type 0 where
  pub some_link : links ≢ []
  pub all_open : All IsOpen links

some-ne-none : {n : ℕ} → some n ≢ none
some-ne-none e = cc

cons-ne-nil : {link : Link} {links : List Link} → link ∷ links ≢ []
cons-ne-nil e = cc

append-ne-nil : (links : List Link) (link : Link) → links ++ link ∷ [] ≢ []
append-ne-nil [] link e = cc
append-ne-nil (x ∷ links) link e = cc

module _ {W : Type 0} (calls : Calls W) where
  create-IsOpen : (attr : LinkAttr) (link : Link) → Yields IsOpen (create calls attr link)
  unfolding create
  create-IsOpen attr link = Yields-bind _ _ Yields-any λ fd any. Yields-ret some-ne-none

  attach_xdp-IsOpen :
      (link : Link) (fd : Option ℕ) (ifindex mode : ℕ)
      → Yields IsOpen (link_attach_xdp calls link fd ifindex mode)
  unfolding link_attach_xdp
  attach_xdp-IsOpen link fd ifindex mode = create-IsOpen _ link

  attach_tc-IsOpen :
      (link : Link) (fd : Option ℕ) (ifindex : ℕ)
      → Yields IsOpen (link_attach_tc calls link fd ifindex)
  unfolding link_attach_tc
  attach_tc-IsOpen link fd ifindex =
      Yields-bind _ _ Yields-any λ attach_type any. create-IsOpen _ link

  attach_nf-IsOpen :
      (link : Link) (fd : Option ℕ) (family priority : ℕ)
      → Yields IsOpen (link_attach_nf calls link fd family priority)
  unfolding link_attach_nf
  attach_nf-IsOpen link fd family priority =
      Yields-bind _ _ Yields-any λ hooknum any. create-IsOpen _ link

  attach_cgroup-IsOpen :
      (link : Link) (fd : Option ℕ) (path : Option (List ℕ))
      → Yields IsOpen (link_attach_cgroup calls link fd path)
  unfolding link_attach_cgroup
  attach_cgroup-IsOpen link fd none = record { holds = λ w a u e. cc }
  attach_cgroup-IsOpen link fd (some path) =
      Yields-bind _ _ Yields-any
        λ attach_type any. Yields-bind _ _ Yields-any λ cgroup_fd any. create-IsOpen _ link

  duplicate-IsOpen : (old link : Link) → Yields IsOpen (duplicate calls (some old) link)
  unfolding duplicate
  duplicate-IsOpen old link = record { holds = λ w a u e. by_fd (calls.dup old.fd w) a u e }
    where
      by_fd :
          (x : Option ℕ × W) (a : Link) (u : W)
          → elim x.0 as (λ _. Result Link × W) [
            | none ↦ (err eperm, x.1)
            | some fd ↦ (ok (record link { fd = some fd }), x.1)
          ]
            ≡ (ok a, u)
          → IsOpen a
      by_fd (none, v) a u e = cc
      by_fd (some fd, v) a u e = subst IsOpen (ok_injective (ap (λ y. y.0) e)) some-ne-none

  module _ (sys : System) (prog : StoredProgram) where
    one : (link : Link) → IsOpen link → AreOpen (link ∷ [])
    one link h = record { some_link = cons-ne-nil; all_open = (h, tt) }

    attach_one-AreOpen :
        (attach : Link → Io W Link) (old : Option Link)
        → ((link : Link) → Yields IsOpen (attach link))
        → Yields AreOpen (attach_one calls sys prog attach old)
    unfolding attach_one get_new_link
    attach_one-AreOpen attach none h =
        Yields-bind _ _ Yields-any
          λ link any. Yields-bind _ _ (h link) λ attached o. Yields-ret (one attached o)
    attach_one-AreOpen attach (some old) h =
        Yields-bind _ _ (Yields-bind _ _ Yields-any λ link any. duplicate-IsOpen old link)
          λ link o. Yields-bind _ _ Yields-any λ done any. Yields-ret (one link o)

    -- One round of the loop.
    replace_nf-step :
        (links : List Link) (old : Link) (olds : List Link)
        → All IsOpen links
        → ((new : List Link) → AreOpen new → Yields AreOpen (replace_nf calls sys prog new olds))
        → Yields AreOpen (replace_nf calls sys prog links (old ∷ olds))
    unfolding replace_nf
    replace_nf-step links old olds h rest = Yields-bind _ _ Yields-any λ info any.
        Yields-bind _ _ Yields-any λ link any.
          Yields-bind _ _ (attach_nf-IsOpen link _ _ _) λ attached o.
            rest (links ++ attached ∷ []) (record {
              some_link = append-ne-nil links attached;
              all_open = All-append IsOpen links attached h o;
            })

    replace_nf-AreOpen :
        (links olds : List Link)
        → AreOpen links
        → Yields AreOpen (replace_nf calls sys prog links olds)
    unfolding replace_nf
    replace_nf-AreOpen links [] h = Yields-ret h
    replace_nf-AreOpen links (old ∷ olds) h =
        replace_nf-step links old olds h.all_open λ new o. replace_nf-AreOpen new olds o

    attach_nf-AreOpen : (olds : List Link) → Yields AreOpen (attach_nf calls sys prog olds)
    unfolding attach_nf
    attach_nf-AreOpen (old ∷ olds) =
        replace_nf-step [] old olds tt λ new o. replace_nf-AreOpen new olds o
    attach_nf-AreOpen [] = Yields-bind _ _ Yields-any λ first any.
        Yields-bind _ _ (attach_nf-IsOpen first _ _ _) λ ipv4 o.
          Yields-bind _ _ Yields-any λ second any.
            Yields-bind _ _ (attach_nf-IsOpen second _ _ _)
              λ ipv6 p. Yields-ret (record { some_link = cons-ne-nil; all_open = (o, (p, tt)) })

    -- A program that is attached, at any hook, has a link, and all its links have a descriptor.
    pub attach_prog-AreOpen :
        (chain : Chain) (olds : List Link) → Yields AreOpen (attach_prog calls sys prog chain olds)
    unfolding attach_prog
    attach_prog-AreOpen chain olds =
        Yields-either (prog.hook == xdp)
          (attach_one-AreOpen _ (get_elem? olds 0) λ link. attach_xdp-IsOpen link _ _ _)
          (Yields-either (by_interface prog.hook)
            (attach_one-AreOpen _ (get_elem? olds 0) λ link. attach_tc-IsOpen link _ _)
            (Yields-either (by_netfilter prog.hook) (attach_nf-AreOpen olds)
              (attach_one-AreOpen _ (get_elem? olds 0) λ link. attach_cgroup-IsOpen link _ _)))
