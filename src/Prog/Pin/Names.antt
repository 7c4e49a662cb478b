-- ===== src/Prog/Pin/Names.antt =====
-- The names of a program's objects, and what the system calls on a directory do to the names in it.
use bpfilter.Prelude.{
  ℕ, ◌<◌, ◌≡◌, ◌≢◌, ◌⊎◌, Bool, true, false, not, ◌&&◌, ◌||◌, List, [], ◌∷◌, Option, map, All,
}
use bpfilter.Result.{Result, ok, err, fault}
use bpfilter.Bytes.{c_string}
use bpfilter.Hook.Options.{streq}
use bpfilter.Prog.{is_absolute}
use bpfilter.Prog.Map.{BpfMap}
use bpfilter.Prog.Link.{Link}
use bpfilter.Prog.Stored.{StoredProgram}
use bpfilter.Prog.Pin.{Directory}

-- What the system calls do, seen through the names that a directory has: a call that succeeds adds or
-- removes the name, and a call that fails changes nothing.
pub record IsLawful {Dir : Type 0} (ops : Directory Dir) (has : List ℕ → Dir → Bool) : Type 0 where
  pub adds :
      (name : List ℕ) (fd : Option ℕ) (dir : Dir)
      → (ops.pin name fd dir).0 ≡ 0
      → (other : List ℕ) → has other (ops.pin name fd dir).1 ≡ (streq other name || has other dir)
  pub keeps :
      (name : List ℕ) (fd : Option ℕ) (dir : Dir)
      → (ops.pin name fd dir).0 ≢ 0
      → (other : List ℕ) → has other (ops.pin name fd dir).1 ≡ has other dir
  pub removes :
      (name : List ℕ) (dir : Dir)
      → (ops.unlink name dir).0 ≡ 0
      → (other : List ℕ)
      → has other (ops.unlink name dir).1 ≡ (has other dir && not (streq other name))
  pub stays :
      (name : List ℕ) (dir : Dir)
      → (ops.unlink name dir).0 ≢ 0
      → (other : List ℕ) → has other (ops.unlink name dir).1 ≡ has other dir

unfoldable pub member : List ℕ → List (List ℕ) → Bool
member name [] = false
member name (x ∷ xs) = streq name x || member name xs

-- The C string that an array holds.
abbrev string_in : Result (List ℕ) → List ℕ
string_in (ok s) = s
string_in (err e) = []
string_in fault = []

abbrev pub text : List ℕ → List ℕ
text array = string_in (c_string array)

-- An array with a string that is no absolute path.
pub record IsName (array : List ℕ) : Type 0 where
  pub is_string : c_string array ≡ ok (text array)
  pub relative : is_absolute (text array) ≡ false

unfoldable pub map_names : StoredProgram → List (List ℕ)
map_names p = map (λ (m : BpfMap). text m.name) p.sets

unfoldable pub link_names : StoredProgram → List (List ℕ)
link_names p = map (λ (l : Link). text l.name) p.links

-- The names of a program's objects.
unfoldable pub names : StoredProgram → List ℕ → Bool
unfolding member map_names link_names
names p name =
    member name (link_names p)
    || (member name (map_names p)
        || (streq name (text p.pmap.name)
            || (streq name (text p.cmap.name) || streq name p.prog_name)))

-- The program's objects have names, and none of them is in the directory.
pub record IsNew {Dir : Type 0} (has : List ℕ → Dir → Bool) (dir : Dir) (p : StoredProgram)
    : Type 0 where
  pub relative : is_absolute p.prog_name ≡ false
  pub no_prog : has p.prog_name dir ≡ false
  pub cmap_name : IsName p.cmap.name
  pub no_cmap : has (text p.cmap.name) dir ≡ false
  pub pmap_name : IsName p.pmap.name
  pub no_pmap : has (text p.pmap.name) dir ≡ false
  pub set_names : All (λ (m : BpfMap). IsName m.name × (has (text m.name) dir ≡ false)) p.sets
  pub link_names : All (λ (l : Link). IsName l.name × (has (text l.name) dir ≡ false)) p.links

-- A directory, opened with a descriptor, and what it has before anything is pinned.
pub record Place : Type 1 where
  pub Dir : Type 0
  pub ops : Directory Dir
  pub has : List ℕ → Dir → Bool
  pub laws : IsLawful ops has
  pub dir_fd : ℕ
  pub some_fd : 0 < dir_fd
  pub before : Dir

-- A name that is there and cannot be unlinked, in some state of the directory.
abbrev IsStuck : (at : Place) → List ℕ → Type 0
IsStuck at name = (d : at.Dir) × (at.has name d ≡ true) × ((at.ops.unlink name d).0 ≢ 0)

-- The directory has the name as before, or it is one of those in `own`, and was not unlinked.
abbrev pub IsRestored : (at : Place) → (List ℕ → Bool) → at.Dir → List ℕ → Type 0
IsRestored at own d name =
    (at.has name d ≡ at.has name at.before) ⊎ ((own name ≡ true) × IsStuck at name)
