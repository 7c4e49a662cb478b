-- ===== src/Prog/Pin/Steps.antt =====
-- What each step of pinning and unpinning does to the names in the directory.
use bpfilter.Prelude.{
  ℕ, ◌≡◌, ◌≢◌, ◌⊎◌, inl, inr, refl, sym, ap, subst, ◌∙◌, Bool, true, false, not, ◌&&◌, ◌||◌, List,
  [], ◌∷◌, Option, map, All, ◌==◌, ltb, if◌then◌else◌, Bool-cases, arith,
}
use bpfilter.Result.{Result, ok, assert, Gives, Gives-bind}
use bpfilter.Hook.Options.{streq}
use bpfilter.Printer.Packed.{streq_eq, streq_refl}
use bpfilter.Prog.{is_absolute}
use bpfilter.Prog.Map.{BpfMap}
use bpfilter.Prog.Link.{Link}
use bpfilter.Prog.Pin.{bpf_obj_pin, map_pin, map_unpin, link_pin, link_unpin, pin_each, unpin_each}
use bpfilter.Prog.Pin.Names.{member, text, IsName, Place, IsRestored}
use bpfilter.Prog.Pin.Branches.{
  or_fail-Gives, and_true, or_swap, or_right, and_not, and_false, or_assoc,
}

pub or_true : (a : Bool) → (a || true) ≡ true
or_true true = refl
or_true false = refl

zero_of : (n : ℕ) → (n == 0) ≡ true → n ≡ 0
zero_of n h = ground (arith, h)

nonzero_of : (n : ℕ) → (n == 0) ≡ false → n ≢ 0
nonzero_of n h = ground (arith, h)

module _ (at : Place) (own : List ℕ → Bool) where
  -- The names in `g` have been added to those that were there before.
  unfoldable pub Holds : (List ℕ → Bool) → at.Dir → Type 0
  Holds g d = (name : List ℕ) → at.has name d ≡ (g name || at.has name at.before)

  -- At most the names in `g` have been added, and those of `own` that could not be removed.
  unfoldable pub Only : (List ℕ → Bool) → at.Dir → Type 0
  Only g d = (name : List ℕ) → g name ≡ false → IsRestored at own d name

  Holds-Only : (g : List ℕ → Bool) (d : at.Dir) → Holds g d → Only g d
  unfolding Holds Only
  Holds-Only g d h name e = inl (h name ∙ (rw e refl))

  Holds-same :
      (g g' : List ℕ → Bool) (d : at.Dir)
      → ((name : List ℕ) → g name ≡ g' name)
      → Holds g d
      → Holds g' d
  unfolding Holds
  Holds-same g g' d e h name = h name ∙ ap (λ b. b || at.has name at.before) (e name)

  Only-more :
      (g g' : List ℕ → Bool) (d : at.Dir)
      → ((name : List ℕ) → g' name ≡ false → g name ≡ false)
      → Only g d
      → Only g' d
  unfolding Only
  Only-more g g' d e h name k = h name (e name k)

  -- A step that adds the names in `h`, or some of those in `h'` when it fails.
  unfoldable pub Pins : (at.Dir → Result (ℕ × at.Dir)) → (h h' : List ℕ → Bool) → Type 0
  Pins f h h' =
      (g : List ℕ → Bool) (d : at.Dir)
      → Holds g d
      → Gives (f d) (λ x.
        ((x.0 ≡ 0) × Holds (λ name. h name || g name) x.1)
        ⊎ ((x.0 ≢ 0) × Only (λ name. h' name || g name) x.1))

  -- A step that removes the names in `h`.
  unfoldable pub Unpins : (at.Dir → Result at.Dir) → (List ℕ → Bool) → Type 0
  Unpins f h =
      (g : List ℕ → Bool) (d : at.Dir)
      → Only g d
      → Gives (f d) (Only (λ name. g name && not (h name)))

  -- A step that removes the names in `h`, where others may have been added.
  unfoldable pub Drops : (at.Dir → Result at.Dir) → (List ℕ → Bool) → Type 0
  Drops f h =
      (g : List ℕ → Bool) (d : at.Dir) → Only (λ name. h name || g name) d → Gives (f d) (Only g)

  path_ok :
      (path : List ℕ)
      → is_absolute path ≡ false
      → assert (if is_absolute path then at.dir_fd == 0 else true) ≡ ok tt
  path_ok path h = rw h refl

  positive : ltb 0 at.dir_fd ≡ true
  positive = ground (arith, at.some_fd)

  pub obj_Pins :
      (path : List ℕ) (fd : Option ℕ)
      → is_absolute path ≡ false
      → Pins (bpf_obj_pin at.ops at.dir_fd path fd) (λ name. streq name path) (λ name. false)
  unfolding bpf_obj_pin Pins Holds Only
  obj_Pins path fd rel g d h = (
    at.ops.pin path fd d,
    rw (path_ok path rel) refl,
    elim (Bool-cases ((at.ops.pin path fd d).0 == 0)) [
      | inl z ↦
          let e = zero_of (at.ops.pin path fd d).0 z in
          inl (
            e,
            λ name.
                at.laws.adds path fd d e name
                ∙ (rw (h name) (or_assoc (streq name path) (g name) (at.has name at.before))),
          )
      | inr s ↦
          let n = nonzero_of (at.ops.pin path fd d).0 s in
          inr (n, λ name k. inl (at.laws.keeps path fd d n name ∙ h name ∙ (rw k refl)))
    ],
  )

  pub map_Pins :
      (m : BpfMap)
      → IsName m.name
      → Pins (map_pin at.ops at.dir_fd m) (λ name. streq name (text m.name)) (λ name. false)
  unfolding map_pin Pins
  map_Pins m v g d h =
      rw v.is_string (unfold Pins in (obj_Pins (text m.name) m.fd v.relative g d h))

  pub link_Pins :
      (l : Link)
      → IsName l.name
      → Pins (link_pin at.ops at.dir_fd l) (λ name. streq name (text l.name)) (λ name. false)
  unfolding link_pin Pins
  link_Pins l v g d h =
      rw (positive, v.is_string) (unfold Pins in (obj_Pins (text l.name) l.fd v.relative g d h))

  pub unlink_Unpins :
      (path : List ℕ)
      → at.has path at.before ≡ false
      → own path ≡ true
      → Unpins (λ d. ok (at.ops.unlink path d).1) (λ name. streq name path)
  unfolding Unpins Only
  unlink_Unpins path absent mine g d h = (
    (at.ops.unlink path d).1,
    refl,
    λ name k. elim (Bool-cases ((at.ops.unlink path d).0 == 0)) [
      | inl z ↦ gone name k (zero_of _ z) (Bool-cases (streq name path))
      | inr s ↦ left name k (nonzero_of _ s) (Bool-cases (streq name path))
    ],
  )
    where
      as_before :
          (name : List ℕ)
          → at.has name (at.ops.unlink path d).1 ≡ at.has name d
          → IsRestored at own d name
          → IsRestored at own (at.ops.unlink path d).1 name
      as_before name e (inl same) = inl (e ∙ same)
      as_before name e (inr stuck) = inr stuck

      unlisted :
          (name : List ℕ)
          → (g name && not (streq name path)) ≡ false
          → streq name path ≡ false
          → IsRestored at own d name
      unlisted name k other = h name (sym (and_true (g name)) ∙ (rw other at k))

      gone :
          (name : List ℕ)
          → (g name && not (streq name path)) ≡ false
          → (at.ops.unlink path d).0 ≡ 0
          → (streq name path ≡ true) ⊎ (streq name path ≡ false)
          → IsRestored at own (at.ops.unlink path d).1 name
      gone name k z (inl same) = inl (
          at.laws.removes path d z name
          ∙ (rw same (and_false (at.has name d)))
          ∙ sym (ap (λ x. at.has x at.before) (streq_eq name path same) ∙ absent))
      gone name k z (inr other) =
          as_before name (at.laws.removes path d z name ∙ (rw other (and_true (at.has name d))))
            (unlisted name k other)

      left :
          (name : List ℕ)
          → (g name && not (streq name path)) ≡ false
          → (at.ops.unlink path d).0 ≢ 0
          → (streq name path ≡ true) ⊎ (streq name path ≡ false)
          → IsRestored at own (at.ops.unlink path d).1 name
      left name k n (inr other) =
          as_before name (at.laws.stays path d n name) (unlisted name k other)
      left name k n (inl same) =
          subst (IsRestored at own (at.ops.unlink path d).1) (sym (streq_eq name path same))
            (elim (Bool-cases (at.has path d)) [
              | inl there ↦ inr (mine, (d, there, n))
              | inr free ↦ inl (at.laws.stays path d n path ∙ free ∙ sym absent)
            ])

  pub Unpins-Drops : (f : at.Dir → Result at.Dir) (h : List ℕ → Bool) → Unpins f h → Drops f h
  unfolding Unpins Drops
  Unpins-Drops f h u g d k =
      let (e, same, o) = u (λ name. h name || g name) d k in
      (e, same, Only-more _ g e (λ name q. gone (h name) (g name) q) o)
    where
      gone : (a b : Bool) → b ≡ false → ((a || b) && not a) ≡ false
      gone true b q = refl
      gone false b q = and_true b ∙ q

  pub map_Unpins :
      (m : BpfMap)
      → IsName m.name
      → at.has (text m.name) at.before ≡ false
      → own (text m.name) ≡ true
      → Unpins (map_unpin at.ops at.dir_fd m) (λ name. streq name (text m.name))
  unfolding map_unpin Unpins
  map_Unpins m v absent mine g d h =
      rw v.is_string (unfold Unpins in (unlink_Unpins (text m.name) absent mine g d h))

  pub link_Unpins :
      (l : Link)
      → IsName l.name
      → at.has (text l.name) at.before ≡ false
      → own (text l.name) ≡ true
      → Unpins (link_unpin at.ops at.dir_fd l) (λ name. streq name (text l.name))
  unfolding link_unpin Unpins
  link_Unpins l v absent mine g d h =
      rw (positive, v.is_string) (unfold Unpins in (unlink_Unpins (text l.name) absent mine g d h))

  -- A loop, whose items are named by `name_of`.
  pub each_Pins :
      {A : Type 0} (P : A → Type 0) (pin : A → at.Dir → Result (ℕ × at.Dir)) (name_of : A → List ℕ)
      (xs : List A)
      → All P xs
      → ((x : A) → P x → Pins (pin x) (λ name. streq name (name_of x)) (λ name. false))
      → Pins
          (pin_each pin xs)
          (λ name. member name (map name_of xs))
          (λ name. member name (map name_of xs))
  unfolding pin_each member Pins
  each_Pins P pin name_of [] v one g d h = ((0, d), refl, inl (refl, h))
  each_Pins P pin name_of (x ∷ xs) v one g d h =
      or_fail-Gives (Holds (λ name. streq name (name_of x) || g name)) (Only g) _ _ _ _
        (one x v.0 g d h)
        (λ e k.
          let g' : List ℕ → Bool = λ name. streq name (name_of x) || g name in
          let (y, f, z) = each_Pins P pin name_of xs v.1 one g' e k in
          let all : List ℕ → Bool = λ name. member name (map name_of (x ∷ xs)) || g name in
          let same : (name : List ℕ) → (member name (map name_of xs) || g' name) ≡ all name =
            λ name. or_swap (member name (map name_of xs)) (streq name (name_of x)) (g name) in
          (
            y,
            f,
            elim z [
              | inl (o, u) ↦ inl (o, Holds-same _ all y.1 same u)
              | inr (o, u) ↦ inr (o, Only-more _ all y.1 (λ name q. same name ∙ q) u)
            ],
          ))
        (λ r e n k. ((r, e), refl, inr (n, Only-more g _ e (λ name q. or_right _ (g name) q) k)))

  pub each_Unpins :
      {A : Type 0} (P : A → Type 0) (unpin : A → at.Dir → Result at.Dir) (name_of : A → List ℕ)
      (xs : List A)
      → All P xs
      → ((name : List ℕ) → member name (map name_of xs) ≡ true → own name ≡ true)
      → ((x : A) → P x → own (name_of x) ≡ true → Unpins (unpin x) (λ name. streq name (name_of x)))
      → Unpins (unpin_each unpin xs) (λ name. member name (map name_of xs))
  unfolding unpin_each member Unpins
  each_Unpins P unpin name_of [] v mine one g d h =
      (d, refl, Only-more g _ d (λ name q. sym (and_true (g name)) ∙ q) h)
  each_Unpins P unpin name_of (x ∷ xs) v mine one g d h =
      let here = mine (name_of x) (rw (streq_refl (name_of x)) refl) in
      let later : (name : List ℕ) → member name (map name_of xs) ≡ true → own name ≡ true =
        λ name q. mine name (rw q (or_true (streq name (name_of x)))) in
      Gives-bind (one x v.0 here g d h) λ e k.
        let g' : List ℕ → Bool = λ name. g name && not (streq name (name_of x)) in
        let (y, f, z) = each_Unpins P unpin name_of xs v.1 later one g' e k in
        (
          y,
          f,
          Only-more _ _ y
              (λ name q.
                and_not (g name) (streq name (name_of x)) (member name (map name_of xs)) ∙ q)
              z,
        )
