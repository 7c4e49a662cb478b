-- ===== src/Prog/Load/Keeps.antt =====
-- What a failure of bf_program_load before the pinning leaves as it was.
use bpfilter.Prelude.{ℕ, ◌≡◌, refl, ◌∙◌, true, false, List, [], ◌∷◌, Option, none, some}
use bpfilter.Result.{Result, ok, err, fault}
use bpfilter.Set.{KeySet}
use bpfilter.Chain.{Chain}
use bpfilter.Prog.Map.{BpfMap, CreateAttr}
use bpfilter.Prog.Link.{Link}
use bpfilter.Prog.Calls.{Io, ◌>>=◌, continue, lift, ret, Calls, LoadAttr, LinkAttr}
use bpfilter.Prog.Attach.{
  create, link_attach_xdp, link_attach_tc, link_attach_nf, link_attach_cgroup, link_get_info,
  duplicate,
}
use bpfilter.Prog.Load.{
  Loading, map_create, load_sets, load_sets_maps, load_counters_map, load_printer_map, prog_load,
}

module _ {W V : Type 0} (view : W → V) where
  -- The calls of a function do not change what is seen of the outside.
  pub record Keeps {A : Type 0} (m : Io W A) : Type 0 where
    pub kept : (w : W) → view (m w).1 ≡ view w

  -- They do not, if the function fails.
  pub record KeepsOnError {A : Type 0} (m : Io W A) : Type 0 where
    pub kept : (w : W) (e : ℕ) → (m w).0 ≡ err e → view (m w).1 ≡ view w

  pub quiet : {A : Type 0} {r : Result A} → Keeps (lift r)
  quiet = record { kept = λ w. refl }

  after :
      {A B : Type 0} (x : Result A × W) (rest : A → Io W B) (v : V)
      → view x.1 ≡ v
      → ((a : A) → Keeps (rest a))
      → view (continue x rest).1 ≡ v
  after (ok a, u) rest v h k = (k a).kept u ∙ h
  after (err n, u) rest v h k = h
  after (fault, u) rest v h k = h

  after_error :
      {A B : Type 0} (x : Result A × W) (rest : A → Io W B) (v : V) (e : ℕ)
      → view x.1 ≡ v
      → ((a : A) → KeepsOnError (rest a))
      → (continue x rest).0 ≡ err e
      → view (continue x rest).1 ≡ v
  after_error (ok a, u) rest v e h k f = (k a).kept u e f ∙ h
  after_error (err n, u) rest v e h k f = h
  after_error (fault, u) rest v e h k f = h

  pub before_ret :
      {A B : Type 0} (x : Result A × W) (f : A → B) (P : W → Type 0) (e : ℕ)
      → ((n : ℕ) → x.0 ≡ err n → P x.1)
      → (continue x (λ a. ret (f a))).0 ≡ err e
      → P (continue x (λ a. ret (f a))).1
  before_ret (ok a, u) f P e h g = cc
  before_ret (err n, u) f P e h g = h n refl
  before_ret (fault, u) f P e h g = cc

  pub Keeps-bind :
      {A B : Type 0} (m : Io W A) (rest : A → Io W B)
      → Keeps m
      → ((a : A) → Keeps (rest a))
      → Keeps (m >>= rest)
  unfolding ◌>>=◌
  Keeps-bind m rest h k = record { kept = λ w. after (m w) rest (view w) (h.kept w) k }

  pub KeepsOnError-bind :
      {A B : Type 0} (m : Io W A) (rest : A → Io W B)
      → Keeps m
      → ((a : A) → KeepsOnError (rest a))
      → KeepsOnError (m >>= rest)
  unfolding ◌>>=◌
  KeepsOnError-bind m rest h k = record {
    kept = λ w e f. after_error (m w) rest (view w) e (h.kept w) k f;
  }

  -- Nothing fails behind the last call.
  pub KeepsOnError-ret :
      {A B : Type 0} (m : Io W A) (f : A → B) → KeepsOnError m → KeepsOnError (m >>= λ a. ret (f a))
  unfolding ◌>>=◌
  KeepsOnError-ret m f h = record {
    kept = λ w e g. before_ret (m w) f (λ u. view u ≡ view w) e (λ n. h.kept w n) g;
  }

  -- What the system calls do not change of what is seen. A link that is created is gone when its
  -- descriptor is closed, so it is not seen; an update that succeeds is.
  pub record IsQuiet (calls : Calls W) : Type 0 where
    pub map_create : (attr : CreateAttr) → Keeps (calls.map_create attr)
    pub update_batch :
        (fd : Option ℕ) (keys values : List ℕ) (n : ℕ) → Keeps (calls.update_batch fd keys values n)
    pub update_elem : (fd : Option ℕ) (key value : List ℕ) → Keeps (calls.update_elem fd key value)
    pub prog_load : (attr : LoadAttr) → Keeps (calls.prog_load attr)
    pub link_create : (attr : LinkAttr) → Keeps (calls.link_create attr)
    pub link_update : (link prog : Option ℕ) → KeepsOnError (calls.link_update link prog)
    pub link_info : (fd : ℕ) → Keeps (calls.link_info fd)
    pub dup : (fd : Option ℕ) (w : W) → view (calls.dup fd w).1 ≡ view w
    pub open_cgroup : (path : List ℕ) → Keeps (calls.open_cgroup path)
    pub rename_fails :
        (from to : List ℕ) (w : W)
        → (calls.rename from to w).0 ≡ false
        → view (calls.rename from to w).1 ≡ view w
    -- A directory that was moved and is moved back is where it was.
    pub rename_back :
        (from to : List ℕ) (w u : W)
        → (calls.rename from to w).0 ≡ true
        → view u ≡ view (calls.rename from to w).1
        → (calls.rename to from u).0 ≡ true
        → view (calls.rename to from u).1 ≡ view w

  module _ (calls : Calls W) (q : IsQuiet calls) where
    -- The functions that only create and load.
    map_create-Keeps : (map : BpfMap) (flags : ℕ) → Keeps (map_create calls map flags)
    unfolding map_create
    map_create-Keeps map flags =
        Keeps-bind _ _ quiet λ attr. Keeps-bind _ _ (q.map_create attr) λ fd. quiet

    load_sets-Keeps : (sets : List KeySet) (maps : List BpfMap) → Keeps (load_sets calls sets maps)
    unfolding load_sets
    load_sets-Keeps [] maps = quiet
    load_sets-Keeps (set ∷ sets) [] = quiet
    load_sets-Keeps (set ∷ sets) (map ∷ maps) = Keeps-bind _ _ (map_create-Keeps map 0) λ created.
        Keeps-bind _ _ quiet λ keys.
          Keeps-bind _ _ (q.update_batch _ _ _ _)
            λ done. Keeps-bind _ _ (load_sets-Keeps sets maps) λ others. quiet

    pub load_sets_maps-Keeps : (chain : Chain) (l : Loading) → Keeps (load_sets_maps calls chain l)
    unfolding load_sets_maps
    load_sets_maps-Keeps chain l =
        Keeps-bind _ _ (load_sets-Keeps chain.sets l.prog.sets)
          λ maps. Keeps-bind _ _ quiet λ code. quiet

    pub load_counters_map-Keeps : (l : Loading) → Keeps (load_counters_map calls l)
    unfolding load_counters_map
    load_counters_map-Keeps l = Keeps-bind _ _ quiet λ sized.
        Keeps-bind _ _ (map_create-Keeps sized 0) λ created. Keeps-bind _ _ quiet λ code. quiet

    pub load_printer_map-Keeps :
        (malloc : ℕ → List ℕ) (l : Loading) → Keeps (load_printer_map calls malloc l)
    unfolding load_printer_map
    load_printer_map-Keeps malloc l = Keeps-bind _ _ quiet λ pstr. Keeps-bind _ _ quiet λ sized.
        Keeps-bind _ _ (map_create-Keeps sized 0)
          λ created. Keeps-bind _ _ (q.update_elem _ _ _) λ done. Keeps-bind _ _ quiet λ code. quiet

    pub prog_load-Keeps : (l : Loading) → Keeps (prog_load calls l)
    unfolding prog_load
    prog_load-Keeps l =
        Keeps-bind _ _ quiet λ prog_type.
          Keeps-bind _ _ quiet λ attach_type. Keeps-bind _ _ (q.prog_load _) λ fd. quiet

    -- The functions that attach.
    create-Keeps : (attr : LinkAttr) (link : Link) → Keeps (create calls attr link)
    unfolding create
    create-Keeps attr link = Keeps-bind _ _ (q.link_create attr) λ fd. quiet

    pub attach_xdp-Keeps :
        (link : Link) (fd : Option ℕ) (ifindex mode : ℕ)
        → Keeps (link_attach_xdp calls link fd ifindex mode)
    unfolding link_attach_xdp
    attach_xdp-Keeps link fd ifindex mode = create-Keeps _ link

    pub attach_tc-Keeps :
        (link : Link) (fd : Option ℕ) (ifindex : ℕ) → Keeps (link_attach_tc calls link fd ifindex)
    unfolding link_attach_tc
    attach_tc-Keeps link fd ifindex = Keeps-bind _ _ quiet λ attach_type. create-Keeps _ link

    pub attach_nf-Keeps :
        (link : Link) (fd : Option ℕ) (family priority : ℕ)
        → Keeps (link_attach_nf calls link fd family priority)
    unfolding link_attach_nf
    attach_nf-Keeps link fd family priority = Keeps-bind _ _ quiet λ hooknum. create-Keeps _ link

    pub attach_cgroup-Keeps :
        (link : Link) (fd : Option ℕ) (path : Option (List ℕ))
        → Keeps (link_attach_cgroup calls link fd path)
    unfolding link_attach_cgroup
    attach_cgroup-Keeps link fd none = quiet
    attach_cgroup-Keeps link fd (some path) =
        Keeps-bind _ _ quiet
          λ attach_type. Keeps-bind _ _ (q.open_cgroup path) λ cgroup_fd. create-Keeps _ link

    pub link_get_info-Keeps : (link : Link) → Keeps (link_get_info calls link)
    unfolding link_get_info
    link_get_info-Keeps link = by_fd link.fd refl
      where
        by_fd : (fd : Option ℕ) → link.fd ≡ fd → Keeps (link_get_info calls link)
        by_fd none e = rw e quiet
        by_fd (some fd) e = rw e (q.link_info fd)

    pub duplicate-Keeps : (old : Option Link) (link : Link) → Keeps (duplicate calls old link)
    unfolding duplicate
    duplicate-Keeps none link = quiet
    duplicate-Keeps (some old) link = record {
      kept = λ w. by_fd (calls.dup old.fd w) (view w) (q.dup old.fd w);
    }
      where
        by_fd :
            (x : Option ℕ × W) (v : V)
            → view x.1 ≡ v
            → view
                (elim x.0 as (λ _. Result Link × W) [
                  | none ↦ (err 1, x.1)
                  | some fd ↦ (ok (record link { fd = some fd }), x.1)
                ]).1
              ≡ v
        by_fd (none, u) v h = h
        by_fd (some fd, u) v h = h
