-- ===== src/Prog/Unload.antt =====
-- src/bpfilter/cgen/program.c, bf_program_unload, with bf_link_detach and the `detach_prog` of the flavors,
-- which all detach the first link.
use bpfilter.Prelude.{ℕ, List, [], ◌∷◌, Option, none, ◌==◌, if◌then◌else◌, map}
use bpfilter.Result.{Result, ok, fault, ◌>>=◌}
use bpfilter.Chain.{Chain}
use bpfilter.Prog.Map.{map_destroy}
use bpfilter.Prog.Link.{Link}
use bpfilter.Prog.Stored.{StoredProgram}

-- bf_link_detach; `detach` is BPF_LINK_DETACH on a descriptor, with 0 for success or an errno.
unfoldable pub link_detach : (Option ℕ → ℕ) → Link → ℕ × Link
link_detach detach link =
    let r = detach link.fd in if r == 0 then (0, record link { fd = none }) else (r, link)

-- The first link; a NULL link is a fault.
unfoldable pub detach_prog : (Option ℕ → ℕ) → List Link → Result (ℕ × List Link)
unfolding link_detach
detach_prog detach [] = fault
detach_prog detach (link ∷ links) =
    let (r, link') = link_detach detach link in ok (r, link' ∷ links)

-- The loop over the links; their errors are ignored.
unfoldable pub detach_links : (Option ℕ → ℕ) → List Link → List Link
unfolding link_detach
detach_links detach [] = []
detach_links detach (link ∷ links) = (link_detach detach link).1 ∷ detach_links detach links

-- What is done behind `detach_prog`.
unfoldable pub close_objects : (Option ℕ → ℕ) → StoredProgram → List Link → StoredProgram
unfolding detach_links map_destroy
close_objects detach p links = record p {
  prog_fd = none;
  cmap = map_destroy p.cmap;
  pmap = map_destroy p.pmap;
  sets = map map_destroy p.sets;
  links = detach_links detach links;
}

-- The errno, or 0, and the program.
unfoldable pub program_unload : (Option ℕ → ℕ) → Chain → StoredProgram → Result (ℕ × StoredProgram)
unfolding detach_prog close_objects
program_unload detach chain p = do
  (r, links) ← if chain.hook_opts.attach then detach_prog detach p.links else ok (0, p.links)
  ok (if r == 0 then (0, close_objects detach p links) else (r, record p { links = links }))
