-- ===== src/Prog/Pin/Rollback.antt =====
-- What pinning and unpinning leave in the directory.
use bpfilter.Prelude.{
  ℕ, ◌≡◌, ◌≢◌, ◌⊎◌, inl, inr, refl, sym, ap, subst, ◌∙◌, Bool, true, false, ◌||◌, List,
}
use bpfilter.Result.{Result, ok, ◌>>=◌, Gives, Gives-bind, ok_injective}
use bpfilter.Hook.Options.{streq}
use bpfilter.Printer.Packed.{streq_refl}
use bpfilter.Prog.Stored.{StoredProgram}
use bpfilter.Prog.Pin.{
  map_pin, map_unpin, link_pin, link_unpin, pin_each, unpin_each, err_cmap_pin, err_pmap_pin,
  err_set_pin, err_link_pin, at_label, program_pin, program_unpin,
}
use bpfilter.Prog.Pin.Names.{
  member, text, IsName, map_names, link_names, names, IsNew, Place, IsRestored,
}
use bpfilter.Prog.Pin.Branches.{or_fail-Gives}
use bpfilter.Prog.Pin.Steps.{
  Holds, Only, Drops, Pins, Unpins-Drops, map_Unpins, link_Unpins, unlink_Unpins, each_Unpins,
  or_true, each_Pins, obj_Pins, map_Pins, link_Pins,
}

module _ (at : Place) (p : StoredProgram) (v : IsNew at.has at.before p) where
  abbrev on_prog : List ℕ → Bool
  on_prog name = streq name p.prog_name

  abbrev on_cmap : List ℕ → Bool
  on_cmap name = streq name (text p.cmap.name)

  abbrev on_pmap : List ℕ → Bool
  on_pmap name = streq name (text p.pmap.name)

  abbrev on_sets : List ℕ → Bool
  on_sets name = member name (map_names p)

  abbrev on_links : List ℕ → Bool
  on_links name = member name (link_names p)

  own_links : (name : List ℕ) → on_links name ≡ true → names p name ≡ true
  unfolding names
  own_links name h = rw h refl

  own_sets : (name : List ℕ) → on_sets name ≡ true → names p name ≡ true
  unfolding names
  own_sets name h = rw h (or_true (on_links name))

  own_pmap : names p (text p.pmap.name) ≡ true
  unfolding names
  own_pmap =
      rw (streq_refl (text p.pmap.name), or_true (on_sets (text p.pmap.name)))
        (or_true (on_links (text p.pmap.name)))

  own_cmap : names p (text p.cmap.name) ≡ true
  unfolding names
  own_cmap =
      rw
        (
          streq_refl (text p.cmap.name),
          or_true (on_pmap (text p.cmap.name)),
          or_true (on_sets (text p.cmap.name)),
        )
        (or_true (on_links (text p.cmap.name)))

  own_prog : names p p.prog_name ≡ true
  unfolding names
  own_prog =
      rw
        (
          streq_refl p.prog_name,
          or_true (on_cmap p.prog_name),
          or_true (on_pmap p.prog_name),
          or_true (on_sets p.prog_name),
        )
        (or_true (on_links p.prog_name))

  cmap_label : Drops at (names p) (err_cmap_pin at.ops at.dir_fd p) on_prog
  unfolding err_cmap_pin
  cmap_label =
      Unpins-Drops at (names p) _ on_prog
        (unlink_Unpins at (names p) p.prog_name v.no_prog own_prog)

  pmap_label :
      (g : List ℕ → Bool) (d : at.Dir)
      → Only at (names p) (λ name. on_cmap name || (on_prog name || g name)) d
      → Gives (err_pmap_pin at.ops at.dir_fd p d) (Only at (names p) g)
  unfolding err_pmap_pin Drops
  pmap_label g d h =
      Gives-bind
        (Unpins-Drops at (names p) _ on_cmap
          (map_Unpins at (names p) p.cmap v.cmap_name v.no_cmap own_cmap)
          (λ name. on_prog name || g name) d h)
        (cmap_label g)

  drop_sets : Drops at (names p) (unpin_each (map_unpin at.ops at.dir_fd) p.sets) on_sets
  unfolding map_names
  drop_sets = Unpins-Drops at (names p) _ on_sets (
      each_Unpins at (names p) (λ m. IsName m.name × (at.has (text m.name) at.before ≡ false))
        (map_unpin at.ops at.dir_fd) (λ m. text m.name) p.sets v.set_names own_sets
        λ m n mine. map_Unpins at (names p) m n.0 n.1 mine)

  drop_links : Drops at (names p) (unpin_each (link_unpin at.ops at.dir_fd) p.links) on_links
  unfolding link_names
  drop_links = Unpins-Drops at (names p) _ on_links (
      each_Unpins at (names p) (λ l. IsName l.name × (at.has (text l.name) at.before ≡ false))
        (link_unpin at.ops at.dir_fd) (λ l. text l.name) p.links v.link_names own_links
        λ l n mine. link_Unpins at (names p) l n.0 n.1 mine)

  set_label :
      (g : List ℕ → Bool) (d : at.Dir)
      → Only at
          (names p)
          (λ name. on_sets name || (on_pmap name || (on_cmap name || (on_prog name || g name))))
          d
      → Gives (err_set_pin at.ops at.dir_fd p d) (Only at (names p) g)
  unfolding err_set_pin Drops
  set_label g d h =
      Gives-bind
        (drop_sets (λ name. on_pmap name || (on_cmap name || (on_prog name || g name))) d h)
        λ a i.
          Gives-bind
            (Unpins-Drops at (names p) _ on_pmap
              (map_Unpins at (names p) p.pmap v.pmap_name v.no_pmap own_pmap)
              (λ name. on_cmap name || (on_prog name || g name)) a i)
            (pmap_label g)

  link_label :
      (g : List ℕ → Bool) (d : at.Dir)
      → Only at
          (names p)
          (λ name.
            on_links name
            || (on_sets name || (on_pmap name || (on_cmap name || (on_prog name || g name)))))
          d
      → Gives (err_link_pin at.ops at.dir_fd p d) (Only at (names p) g)
  unfolding err_link_pin Drops
  link_label g d h =
      Gives-bind
        (drop_links
          (λ name. on_sets name || (on_pmap name || (on_cmap name || (on_prog name || g name)))) d
          h)
        (set_label g)

  pin_sets : Pins at (names p) (pin_each (map_pin at.ops at.dir_fd) p.sets) on_sets on_sets
  unfolding map_names
  pin_sets =
      each_Pins at (names p) (λ m. IsName m.name × (at.has (text m.name) at.before ≡ false))
        (map_pin at.ops at.dir_fd) (λ m. text m.name) p.sets v.set_names
        λ m n. map_Pins at (names p) m n.0

  pin_links : Pins at (names p) (pin_each (link_pin at.ops at.dir_fd) p.links) on_links on_links
  unfolding link_names
  pin_links =
      each_Pins at (names p) (λ l. IsName l.name × (at.has (text l.name) at.before ≡ false))
        (link_pin at.ops at.dir_fd) (λ l. text l.name) p.links v.link_names
        λ l n. link_Pins at (names p) l n.0

  Outcome : ℕ × at.Dir → Type 0
  Outcome x =
      ((x.0 ≡ 0) × ((name : List ℕ) → at.has name x.1 ≡ (names p name || at.has name at.before)))
      ⊎ ((x.0 ≢ 0) × ((name : List ℕ) → IsRestored at (names p) x.1 name))

  rolled_back :
      (label : at.Dir → Result at.Dir) (r : ℕ) (d : at.Dir)
      → r ≢ 0
      → Gives (label d) (Only at (names p) λ name. false)
      → Gives (at_label label r d) Outcome
  unfolding Only Outcome
  rolled_back label r d n g = Gives-bind g λ e o. ((r, e), refl, inr (n, λ name. o name refl))

  all_names :
      (d : at.Dir)
      → Holds at
          (names p)
          (λ name.
            on_links name
            || (on_sets name || (on_pmap name || (on_cmap name || (on_prog name || false)))))
          d
      → Outcome (0, d)
  unfolding Holds Outcome names
  all_names d h = inl (
    refl,
    λ name.
        h name
        ∙ ap (λ b. b || at.has name at.before)
            (no_more (on_links name) (on_sets name) (on_pmap name) (on_cmap name) (on_prog name)),
  )
    where
      or_false : (a : Bool) → (a || false) ≡ a
      or_false true = refl
      or_false false = refl

      no_more :
          (l s p c r : Bool)
          → (l || (s || (p || (c || (r || false))))) ≡ (l || (s || (p || (c || r))))
      no_more l s p c r = rw (or_false r) refl

  -- If the program's objects have names that are not in the directory, _bf_program_pin either succeeds,
  -- and the names of all objects have been added to the directory, or it returns an error, and the
  -- directory has the names that it had before, and besides only names of the program's objects that
  -- unlinkat fails to remove. The system calls on the directory do what `IsLawful` says.
  pub program_pin_lem : Gives (program_pin at.ops at.dir_fd p at.before) λ x.
      ((x.0 ≡ 0) × ((name : List ℕ) → at.has name x.1 ≡ (names p name || at.has name at.before)))
      ⊎ ((x.0 ≢ 0) × ((name : List ℕ) → IsRestored at (names p) x.1 name))
  unfolding program_pin Pins Holds Only Outcome Drops
  program_pin_lem =
      let g₁ : List ℕ → Bool = λ name. on_prog name || false in
      let g₂ : List ℕ → Bool = λ name. on_cmap name || g₁ name in
      let g₃ : List ℕ → Bool = λ name. on_pmap name || g₂ name in
      let g₄ : List ℕ → Bool = λ name. on_sets name || g₃ name in
      let g₅ : List ℕ → Bool = λ name. on_links name || g₄ name in
      let none_left : List ℕ → Bool = λ name. false in
      or_fail-Gives (Holds at (names p) g₁) (Only at (names p) none_left) Outcome _ _ _
        (obj_Pins at (names p) p.prog_name p.prog_fd v.relative none_left at.before (λ name. refl))
        (λ a h₁.
          or_fail-Gives (Holds at (names p) g₂) (Only at (names p) g₁) Outcome _ _ _
            (map_Pins at (names p) p.cmap v.cmap_name g₁ a h₁)
            (λ b h₂.
              or_fail-Gives (Holds at (names p) g₃) (Only at (names p) g₂) Outcome _ _ _
                (map_Pins at (names p) p.pmap v.pmap_name g₂ b h₂)
                (λ c h₃.
                  or_fail-Gives (Holds at (names p) g₄) (Only at (names p) g₄) Outcome _ _ _
                    (pin_sets g₃ c h₃)
                    (λ d h₄.
                      or_fail-Gives (Holds at (names p) g₅) (Only at (names p) g₅) Outcome _ _ _
                        (pin_links g₄ d h₄) (λ e h₅. ((0, e), refl, all_names e h₅))
                        (λ r e n o.
                          rolled_back (err_link_pin at.ops at.dir_fd p) r e n
                            (link_label none_left e o)))
                    (λ r e n o.
                      rolled_back (err_set_pin at.ops at.dir_fd p) r e n (set_label none_left e o)))
                (λ r e n o.
                  rolled_back (err_pmap_pin at.ops at.dir_fd p) r e n (pmap_label none_left e o)))
            (λ r e n o.
              rolled_back (err_cmap_pin at.ops at.dir_fd p) r e n (cmap_label none_left e o)))
        (λ r e n o. ((r, e), refl, inr (n, λ name. o name refl)))

  -- _bf_program_unpin undoes _bf_program_pin: if the names of the program's objects have been added to
  -- a directory that had none of them, unpinning ends and leaves the names that were there before, and
  -- besides only names of the program's objects that unlinkat fails to remove. The system calls on the
  -- directory do what `IsLawful` says.
  pub program_unpin_lem :
      (dir : at.Dir)
      → ((name : List ℕ) → at.has name dir ≡ (names p name || at.has name at.before))
      → Gives
          (program_unpin at.ops at.dir_fd p dir)
          λ d. (name : List ℕ) → IsRestored at (names p) d name
  unfolding program_unpin Drops Only names err_cmap_pin
  program_unpin_lem dir h =
      let g₁ : List ℕ → Bool = λ name. on_links name || false in
      let g₂ : List ℕ → Bool = λ name. on_sets name || g₁ name in
      let g₃ : List ℕ → Bool = λ name. on_cmap name || g₂ name in
      let g₄ : List ℕ → Bool = λ name. on_pmap name || g₃ name in
      let pinned : (name : List ℕ)
          → (on_prog name || g₄ name) ≡ false
          → IsRestored at (names p) dir name =
        λ name q. inl (
          h name
          ∙ ap (λ b. b || at.has name at.before)
              (no_name (on_links name) (on_sets name) (on_pmap name) (on_cmap name) (on_prog name)
                q)) in
      let (a, same, i₀) = cmap_label g₄ dir pinned in
      let (b, e, i₁) =
        Gives-bind
          (Unpins-Drops at (names p) _ on_pmap
            (map_Unpins at (names p) p.pmap v.pmap_name v.no_pmap own_pmap) g₃ a i₀)
          λ b i.
            Gives-bind
              (Unpins-Drops at (names p) _ on_cmap
                (map_Unpins at (names p) p.cmap v.cmap_name v.no_cmap own_cmap) g₂ b i)
              λ c j. Gives-bind (drop_sets g₁ c j) (drop_links (λ name. false)) in
      (
        b,
        subst
            (λ d.
              (map_unpin at.ops at.dir_fd p.pmap d >>= λ b.
              map_unpin at.ops at.dir_fd p.cmap b >>= λ c.
              unpin_each (map_unpin at.ops at.dir_fd) p.sets c
              >>= unpin_each (link_unpin at.ops at.dir_fd) p.links)
              ≡ ok b)
            (sym (ok_injective same)) e,
        λ name. i₁ name refl,
      )
    where
      no_name :
          (l s p c r : Bool)
          → (r || (p || (c || (s || (l || false))))) ≡ false
          → (l || (s || (p || (c || r)))) ≡ false
      no_name l s p c true q = cc
      no_name l s true c false q = cc
      no_name l s false true false q = cc
      no_name l true false false false q = cc
      no_name true false false false false q = q
      no_name false false false false false q = refl
