-- ===== src/Examples/Pins.antt =====
-- A directory as a list of names, in which one name cannot be pinned.
use bpfilter.Prelude.{
  ℕ, ◌≡◌, ◌≢◌, ◌⊎◌, inl, inr, refl, sym, ap, ◌∙◌, Bool, true, false, not, ◌&&◌, ◌||◌, List, [], ◌∷◌,
  Bool-cases, arith,
}
use bpfilter.Result.{ok, Gives}
use bpfilter.Bytes.{c_string}
use bpfilter.Hook.Options.{streq}
use bpfilter.Printer.Packed.{streq_eq}
use bpfilter.Prog.Stored.{prog_suffix, cmap_suffix, pmap_suffix}
use bpfilter.Prog.Pin.{Directory, program_pin, program_unpin}
use bpfilter.Prog.Pin.Names.{
  IsLawful, member, text, IsName, map_names, link_names, names, IsNew, Place, IsRestored,
}
use bpfilter.Prog.Pin.Rollback.{program_pin_lem, program_unpin_lem}
use bpfilter.Examples.Saved.{web_program, stored_name}

abbrev Names : Type 0
Names = List (List ℕ)

abbrev pin_name : (taken refused : Bool) → List ℕ → Names → ℕ × Names
pin_name true refused name dir = (17, dir)
pin_name false true name dir = (28, dir)
pin_name false false name dir = (0, name ∷ dir)

abbrev keep_other : Bool → List ℕ → Names → Names
keep_other true name dir = dir
keep_other false name dir = name ∷ dir

abbrev unlink_name : List ℕ → Names → Names
unlink_name name [] = []
unlink_name name (x ∷ dir) = keep_other (streq x name) x (unlink_name name dir)

abbrev unlink_unless : Bool → List ℕ → Names → ℕ × Names
unlink_unless true name dir = (13, dir)
unlink_unless false name dir = (0, unlink_name name dir)

-- The name that cannot be unlinked.
abbrev kept_name : List ℕ
kept_name = b'w' ∷ cmap_suffix

-- The name that cannot be pinned.
abbrev refused_name : List ℕ
refused_name = b'w' ∷ pmap_suffix

abbrev names_ops : Directory Names
names_ops = record {
  pin = λ name fd dir. pin_name (member name dir) (streq name refused_name) name dir;
  unlink = λ name dir. unlink_unless (streq name kept_name) name dir;
}

pin_name-adds :
    (taken refused : Bool) (name : List ℕ) (dir : Names)
    → (pin_name taken refused name dir).0 ≡ 0
    → (other : List ℕ)
    → member other (pin_name taken refused name dir).1 ≡ (streq other name || member other dir)
unfolding member
pin_name-adds true refused name dir e other = absurd (omega (arith, e))
pin_name-adds false true name dir e other = absurd (omega (arith, e))
pin_name-adds false false name dir e other = refl

pin_name-keeps :
    (taken refused : Bool) (name : List ℕ) (dir : Names)
    → (pin_name taken refused name dir).0 ≢ 0
    → (other : List ℕ) → member other (pin_name taken refused name dir).1 ≡ member other dir
pin_name-keeps true refused name dir n other = refl
pin_name-keeps false true name dir n other = refl
pin_name-keeps false false name dir n other = absurd (n refl)

unlink_name-removes :
    (name : List ℕ) (dir : Names) (other : List ℕ)
    → member other (unlink_name name dir) ≡ (member other dir && not (streq other name))
unfolding member
unlink_name-removes name [] other = refl
unlink_name-removes name (x ∷ dir) other = elim (Bool-cases (streq x name)) [
  | inl same ↦
      let swapped : streq other x ≡ streq other name = ap (streq other) (streq_eq x name same) in
      rw (same, swapped, unlink_name-removes name dir other)
        (sym (again (streq other name) (member other dir)))
  | inr differ ↦
      rw (differ, unlink_name-removes name dir other)
        (apart (Bool-cases (streq other x)) (Bool-cases (streq other name)) differ)
]
  where
    again : (s m : Bool) → ((s || m) && not s) ≡ (m && not s)
    again true true = refl
    again true false = refl
    again false m = refl

    apart :
        (streq other x ≡ true) ⊎ (streq other x ≡ false)
        → (streq other name ≡ true) ⊎ (streq other name ≡ false)
        → streq x name ≡ false
        → (streq other x || (member other dir && not (streq other name)))
          ≡ ((streq other x || member other dir) && not (streq other name))
    apart (inr a) b d = rw a refl
    apart (inl a) (inr b) d = rw (a, b) refl
    apart (inl a) (inl b) d =
        let same : streq x name ≡ true = ap (λ y. streq y name) (sym (streq_eq other x a)) ∙ b in
        absurd (cc (d, same))

unlink_unless-removes :
    (stuck : Bool) (name : List ℕ) (dir : Names)
    → (unlink_unless stuck name dir).0 ≡ 0
    → (other : List ℕ)
    → member other (unlink_unless stuck name dir).1 ≡ (member other dir && not (streq other name))
unlink_unless-removes true name dir e other = absurd (omega (arith, e))
unlink_unless-removes false name dir e other = unlink_name-removes name dir other

unlink_unless-stays :
    (stuck : Bool) (name : List ℕ) (dir : Names)
    → (unlink_unless stuck name dir).0 ≢ 0
    → (other : List ℕ) → member other (unlink_unless stuck name dir).1 ≡ member other dir
unlink_unless-stays true name dir n other = refl
unlink_unless-stays false name dir n other = absurd (n refl)

names-IsLawful : IsLawful names_ops member
names-IsLawful = record {
  adds = λ name fd dir. pin_name-adds (member name dir) (streq name refused_name) name dir;
  keeps = λ name fd dir. pin_name-keeps (member name dir) (streq name refused_name) name dir;
  removes = λ name dir. unlink_unless-removes (streq name kept_name) name dir;
  stays = λ name dir. unlink_unless-stays (streq name kept_name) name dir;
}

abbrev place : Place
place = record {
  Dir = Names;
  ops = names_ops;
  has = member;
  laws = names-IsLawful;
  dir_fd = 9;
  some_fd = omega arith;
  before = (b'o' ∷ []) ∷ [];
}

stored_name-IsName :
    (suffix : List ℕ)
    → c_string (stored_name suffix) ≡ ok (b'w' ∷ suffix)
    → IsName (stored_name suffix)
stored_name-IsName suffix e = record { is_string = rw e refl; relative = rw e refl }

cmap-IsName : IsName (stored_name cmap_suffix)
unfolding c_string
cmap-IsName = stored_name-IsName cmap_suffix refl

pmap-IsName : IsName (stored_name pmap_suffix)
unfolding c_string
pmap-IsName = stored_name-IsName pmap_suffix refl

link-IsName : IsName (stored_name prog_suffix)
unfolding c_string
link-IsName = stored_name-IsName prog_suffix refl

web_program-IsNew : IsNew member ((b'o' ∷ []) ∷ []) web_program
unfolding member streq c_string
web_program-IsNew = record {
  relative = refl;
  no_prog = refl;
  cmap_name = cmap-IsName;
  no_cmap = refl;
  pmap_name = pmap-IsName;
  no_pmap = refl;
  set_names = ((cmap-IsName, refl), tt);
  link_names = ((link-IsName, refl), tt);
}

program_pin_lem_example : Gives (program_pin names_ops 9 web_program ((b'o' ∷ []) ∷ [])) λ x.
    ((x.0 ≡ 0)
      × ((name : List ℕ)
          → member name x.1 ≡ (names web_program name || member name ((b'o' ∷ []) ∷ []))))
    ⊎ ((x.0 ≢ 0) × ((name : List ℕ) → IsRestored place (names web_program) x.1 name))
program_pin_lem_example = program_pin_lem place web_program web_program-IsNew

-- The directory with the objects of the program.
abbrev pinned_names : Names
pinned_names =
    text (stored_name prog_suffix)
    ∷ text (stored_name cmap_suffix)
    ∷ text (stored_name pmap_suffix)
    ∷ text (stored_name cmap_suffix)
    ∷ (b'w' ∷ prog_suffix)
    ∷ (b'o' ∷ [])
    ∷ []

pinned_names-names :
    (name : List ℕ)
    → member name pinned_names ≡ (names web_program name || member name ((b'o' ∷ []) ∷ []))
unfolding member names map_names link_names
pinned_names-names name =
    regroup (streq name (text (stored_name prog_suffix)))
      (streq name (text (stored_name cmap_suffix))) (streq name (text (stored_name pmap_suffix)))
      (streq name (text (stored_name cmap_suffix))) (streq name (b'w' ∷ prog_suffix))
      (streq name (b'o' ∷ []))
  where
    regroup :
        (l s p c r o : Bool)
        → (l || (s || (p || (c || (r || (o || false))))))
          ≡ (((l || false) || ((s || false) || (p || (c || r)))) || (o || false))
    regroup true s p c r o = refl
    regroup false true p c r o = refl
    regroup false false true c r o = refl
    regroup false false false true r o = refl
    regroup false false false false r o = refl

program_unpin_lem_example :
    Gives
      (program_unpin names_ops 9 web_program pinned_names)
      λ d. (name : List ℕ) → IsRestored place (names web_program) d name
program_unpin_lem_example =
    program_unpin_lem place web_program web_program-IsNew pinned_names pinned_names-names
