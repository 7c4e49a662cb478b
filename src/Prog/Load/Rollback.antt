-- ===== src/Prog/Load/Rollback.antt =====
-- What is seen of the outside when the replacement of a program fails.
use bpfilter.Prelude.{
  ℕ, ◌≡◌, refl, Bool, true, false, List, some, if◌then◌else◌, ◌⊎◌, subst, sym, ap, ◌∙◌, inl, inr,
  Bool-cases,
}
use bpfilter.Result.{Result, ok, err, fault}
use bpfilter.Chain.{Chain}
use bpfilter.Prog.{System}
use bpfilter.Prog.Link.{Link}
use bpfilter.Prog.Stored.{StoredProgram}
use bpfilter.Prog.Calls.{
  continue, Yields, Yields-bind, Yields-any, Yields-ret, Io, ◌>>=◌, ret, Calls,
}
use bpfilter.Prog.Load.{
  load_sets_maps, load_counters_map, load_printer_map, prog_load, Loading, move_old, restore_old,
  or_restore, attach_new, load_attached, dir_of, tmp_dir_of, rename_dir,
}
use bpfilter.Prog.Load.Attached.{attach_prog-KeepsOnError}
use bpfilter.Prog.Load.Keeps.{
  Keeps, before_ret, IsQuiet, load_sets_maps-Keeps, load_counters_map-Keeps, load_printer_map-Keeps,
  prog_load-Keeps,
}

module _ {W V : Type 0} (view : W → V) (calls : Calls W) (q : IsQuiet view calls)
    (sys : System) where
  -- The directory was moved, and moving it back failed: what is seen is what moving it left.
  pub record IsMoved (id : List ℕ) (v : V) (x : W) : Type 0 where
    pub before : W
    pub as_before : view before ≡ v
    pub was_moved : (calls.rename (dir_of id) (tmp_dir_of id) before).0 ≡ true
    pub as_moved : view x ≡ view (calls.rename (dir_of id) (tmp_dir_of id) before).1
    pub behind : W
    pub not_back : (calls.rename (tmp_dir_of id) (dir_of id) behind).0 ≡ false
    pub left : x ≡ (calls.rename (tmp_dir_of id) (dir_of id) behind).1

  abbrev IsBack : List ℕ → V → W → Type 0
  IsBack id v x = (view x ≡ v) ⊎ IsMoved id v x

  record EndsBack {A : Type 0} (id : List ℕ) (m : Io W A) : Type 0 where
    ends : (w : W) (e : ℕ) → (m w).0 ≡ err e → IsBack id (view w) (m w).1

  for_id :
      {A : Type 0} {id other : List ℕ} {m : Io W A} → id ≡ other → EndsBack id m → EndsBack other m
  for_id {m = m} same h = subst (λ id. EndsBack id m) same h

  EndsBack-bind :
      {A B : Type 0} {P : A → Type 0} (id : List ℕ) (m : Io W A) (rest : A → Io W B)
      → Keeps view m
      → Yields P m
      → ((a : A) → P a → EndsBack id (rest a))
      → EndsBack id (m >>= rest)
  unfolding ◌>>=◌
  EndsBack-bind {A} {B} {P} id m rest h y k = record { ends = λ w e f. by_result w e (m w) refl f }
    where
      by_result :
          (w : W) (e : ℕ) (x : Result A × W)
          → m w ≡ x
          → (continue x rest).0 ≡ err e
          → IsBack id (view w) (continue x rest).1
      by_result w e (ok a, u) s f =
          subst (λ v. IsBack id v (rest a u).1) (ap (λ z. view z.1) (sym s) ∙ h.kept w)
            ((k a (y.holds w a u s)).ends u e f)
      by_result w e (err n, u) s f = inl (ap (λ z. view z.1) (sym s) ∙ h.kept w)
      by_result w e (fault, u) s f = cc

  restored :
      (P : W → Type 0) (p old : StoredProgram) (x : Result (List Link) × W) (e : ℕ)
      → ((n : ℕ) → x.0 ≡ err n → P (calls.rename (tmp_dir_of p.id) (dir_of p.id) x.1).1)
      → (or_restore calls p (some old) x).0 ≡ err e
      → P (or_restore calls p (some old) x).1
  unfolding or_restore restore_old
  restored P p old (ok links, u) e h f = cc
  restored P p old (err n, u) e h f = h n refl
  restored P p old (fault, u) e h f = cc

  chosen :
      (P : W → Type 0) (p old : StoredProgram) (attach : Bool) (x : Result (List Link) × W) (u : W)
      (e : ℕ)
      → ((n : ℕ) → x.0 ≡ err n → P (calls.rename (tmp_dir_of p.id) (dir_of p.id) x.1).1)
      → (if attach then or_restore calls p (some old) x else (ok p.links, u)).0 ≡ err e
      → P (if attach then or_restore calls p (some old) x else (ok p.links, u)).1
  chosen P p old true x u e h f = restored P p old x e h f
  chosen P p old false x u e h f = cc

  renamed-IsBack :
      (id : List ℕ) (w u : W)
      → (calls.rename (dir_of id) (tmp_dir_of id) w).0 ≡ true
      → view u ≡ view (calls.rename (dir_of id) (tmp_dir_of id) w).1
      → IsBack id (view w) (calls.rename (tmp_dir_of id) (dir_of id) u).1
  renamed-IsBack id w u moved same =
      elim (Bool-cases (calls.rename (tmp_dir_of id) (dir_of id) u).0) [
        | inl back ↦ inl (q.rename_back (dir_of id) (tmp_dir_of id) w u moved same back)
        | inr stuck ↦ inr (record {
          before = w;
          as_before = refl;
          was_moved = moved;
          as_moved = q.rename_fails (tmp_dir_of id) (dir_of id) u stuck ∙ same;
          behind = u;
          not_back = stuck;
          left = refl;
        })
      ]

  -- Behind a rename that succeeds.
  attach_new-IsBack :
      (chain : Chain) (p old : StoredProgram) (w : W) (e : ℕ)
      → (calls.rename (dir_of p.id) (tmp_dir_of p.id) w).0 ≡ true
      → (attach_new calls sys chain p
          (some old)
          (calls.rename (dir_of p.id) (tmp_dir_of p.id) w).1).0
        ≡ err e
      → IsBack p.id
          (view w)
          (attach_new calls sys chain p
            (some old)
            (calls.rename (dir_of p.id) (tmp_dir_of p.id) w).1).1
  unfolding attach_new
  attach_new-IsBack chain p old w e moved f =
      chosen (IsBack p.id (view w)) p old chain.hook_opts.attach _ _ e
        (λ n g.
          renamed-IsBack p.id w _ moved
            ((attach_prog-KeepsOnError view calls q sys p chain old.links).kept _ n g))
        f

  move_and_attach :
      (chain : Chain) (p old : StoredProgram)
      → EndsBack p.id (
          move_old calls false p (some old) >>= λ done.
          attach_new calls sys chain p (some old) >>= λ links. ret (record p { links = links }))
  unfolding move_old rename_dir ◌>>=◌
  move_and_attach chain p old = record {
    ends = λ w e f. by_move w e (calls.rename (dir_of p.id) (tmp_dir_of p.id) w).0 refl f;
  }
    where
      by_move :
          (w : W) (e : ℕ) (moved : Bool)
          → (calls.rename (dir_of p.id) (tmp_dir_of p.id) w).0 ≡ moved
          → ((move_old calls false p (some old) >>= λ done.
                attach_new calls sys chain p (some old) >>= λ links.
                ret (record p { links = links }))
              w).0
            ≡ err e
          → IsBack p.id
              (view w)
              ((move_old calls false p (some old) >>= λ done.
                  attach_new calls sys chain p (some old) >>= λ links.
                  ret (record p { links = links }))
                w).1
      by_move w e true m f = rw m (
          before_ret view _ (λ links. record p { links = links }) (IsBack p.id (view w)) e
            (λ n g. attach_new-IsBack chain p old w n m g) (rw m at f))
      by_move w e false m f = rw m (inl (q.rename_fails _ _ w m))

  -- The identifier of the program while it is loaded.
  abbrev HasId : List ℕ → Loading → Type 0
  HasId id l = l.prog.id ≡ id

  load_sets_maps-HasId :
      (chain : Chain) (l : Loading) → Yields (HasId l.prog.id) (load_sets_maps calls chain l)
  unfolding load_sets_maps
  load_sets_maps-HasId chain l =
      Yields-bind _ _ Yields-any λ maps a. Yields-bind _ _ Yields-any λ code b. Yields-ret refl

  load_counters_map-HasId : (l : Loading) → Yields (HasId l.prog.id) (load_counters_map calls l)
  unfolding load_counters_map
  load_counters_map-HasId l = Yields-bind _ _ Yields-any λ sized a.
      Yields-bind _ _ Yields-any λ map b. Yields-bind _ _ Yields-any λ code c. Yields-ret refl

  load_printer_map-HasId :
      (malloc : ℕ → List ℕ) (l : Loading)
      → Yields (HasId l.prog.id) (load_printer_map calls malloc l)
  unfolding load_printer_map
  load_printer_map-HasId malloc l = Yields-bind _ _ Yields-any λ pstr a.
      Yields-bind _ _ Yields-any λ sized b. Yields-bind _ _ Yields-any λ map c.
        Yields-bind _ _ Yields-any λ done d. Yields-bind _ _ Yields-any λ code e. Yields-ret refl

  prog_load-id :
      (l : Loading) → Yields (λ (p : StoredProgram). p.id ≡ l.prog.id) (prog_load calls l)
  unfolding prog_load
  prog_load-id l = Yields-bind _ _ Yields-any λ prog_type a.
      Yields-bind _ _ Yields-any λ attach_type b. Yields-bind _ _ Yields-any λ fd c. Yields-ret refl

  load_attached-EndsBack :
      (malloc : ℕ → List ℕ) (chain : Chain) (l : Loading) (old : StoredProgram)
      → EndsBack l.prog.id (load_attached calls sys malloc false chain l (some old))
  unfolding load_attached
  load_attached-EndsBack malloc chain l old =
      EndsBack-bind _ _ _ (load_sets_maps-Keeps view calls q chain l) (load_sets_maps-HasId chain l)
        λ a i.
          EndsBack-bind _ _ _ (load_counters_map-Keeps view calls q a) (load_counters_map-HasId a)
            λ b j.
              EndsBack-bind _ _ _ (load_printer_map-Keeps view calls q malloc b)
                (load_printer_map-HasId malloc b)
                λ c k.
                  EndsBack-bind _ _ _ (prog_load-Keeps view calls q c) (prog_load-id c)
                    λ p m. for_id (m ∙ k ∙ j ∙ i) (move_and_attach chain p old)

  -- If a daemon that is not transient replaces an old program, and this fails before the new one is
  -- pinned, then, by the laws `IsQuiet` of the system calls, what is seen of the outside is as it was, so
  -- that also the link of the old program was not updated; or the directory of the old program was
  -- moved, moving it back failed, and what is seen differs by this move only.
  pub load_attached_lem :
      (malloc : ℕ → List ℕ) (chain : Chain) (l : Loading) (old : StoredProgram) (w : W) (e : ℕ)
      → (load_attached calls sys malloc false chain l (some old) w).0 ≡ err e
      → (view (load_attached calls sys malloc false chain l (some old) w).1 ≡ view w)
        ⊎ IsMoved l.prog.id (view w) (load_attached calls sys malloc false chain l (some old) w).1
  load_attached_lem malloc chain l old w e failed =
      (load_attached-EndsBack malloc chain l old).ends w e failed
