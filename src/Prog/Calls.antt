-- ===== src/Prog/Calls.antt =====
-- The system calls that create, load, attach and pin what a program is made of. What they change is
-- outside of the daemon: a value of the type `W` is passed to each call and returned by it.
use bpfilter.Prelude.{ℕ, ◌≡◌, refl, ap, subst, Bool, true, false, if◌then◌else◌, List, Option}
use bpfilter.Result.{Result, ok, err, fault, ok_injective}
use bpfilter.Cgen.{Insn}
use bpfilter.Prog.Map.{CreateAttr}
use bpfilter.Prog.Pin.{Directory}

-- A function that makes calls: how it ends, and what is outside then.
abbrev pub Io : Type 0 → Type 0 → Type 0
Io W A = W → Result A × W

abbrev pub continue : {W A B : Type 0} → Result A × W → (A → Io W B) → Result B × W
continue (ok a, w) rest = rest a w
continue (err e, w) rest = (err e, w)
continue (fault, w) rest = (fault, w)

infixl 5 ◌>>=◌ ◌>>◌
unfoldable pub ◌>>=◌ : {W A B : Type 0} → Io W A → (A → Io W B) → Io W B
(m >>= rest) w = continue (m w) rest

abbrev pub ◌>>◌ : {W B : Type 0} → Io W (Unit {0}) → Io W B → Io W B
m >> rest = m >>= λ _. rest

-- A function that makes no calls.
abbrev pub lift : {W A : Type 0} → Result A → Io W A
lift r w = (r, w)

abbrev pub ret : {W A : Type 0} → A → Io W A
ret a w = (ok a, w)

-- Inversion of a successful step.
pub >>=-eq-ok :
    {W A B : Type 0} (m : Io W A) (rest : A → Io W B) (w : W) {b : B} {w' : W}
    → (m >>= rest) w ≡ (ok b, w')
    → (a : A) × (u : W) × (m w ≡ (ok a, u)) × (rest a u ≡ (ok b, w'))
unfolding ◌>>=◌
>>=-eq-ok m rest w {b} {w'} h = split (m w) refl h
  where
    split :
        (x : Result _ × _)
        → m w ≡ x
        → continue x rest ≡ (ok b, w')
        → (a : _) × (u : _) × (m w ≡ (ok a, u)) × (rest a u ≡ (ok b, w'))
    split (ok a, u) e h = (a, u, e, h)
    split (err n, u) e h = cc
    split (fault, u) e h = cc

-- What holds of the result of a function that succeeds.
pub record Yields {W A : Type 0} (P : A → Type 0) (m : Io W A) : Type 0 where
  pub holds : (w : W) (a : A) (u : W) → m w ≡ (ok a, u) → P a

pub Yields-bind :
    {W A B : Type 0} {P : A → Type 0} {Q : B → Type 0} (m : Io W A) (rest : A → Io W B)
    → Yields P m
    → ((a : A) → P a → Yields Q (rest a))
    → Yields Q (m >>= rest)
Yields-bind m rest h k = record {
  holds =
      λ w b v e. let (a, u, f, g) = >>=-eq-ok m rest w e in (k a (h.holds w a u f)).holds u b v g;
}

-- Nothing is known of the result of a call.
pub Yields-any : {W A : Type 0} {m : Io W A} → Yields (λ a. Unit {0}) m
Yields-any = record { holds = λ w a u e. tt }

ok_pair : {W A : Type 0} {a b : A} {u v : W} → ◌≡◌ {A = Result A × W} (ok a, u) (ok b, v) → a ≡ b
ok_pair e = ok_injective (ap (λ x. x.0) e)

pub Yields-ret : {W A : Type 0} {P : A → Type 0} {a : A} → P a → Yields P (λ (w : W). (ok a, w))
Yields-ret {P = P} p = record { holds = λ w a u e. subst P (ok_pair e) p }

pub Yields-either :
    {W A : Type 0} {P : A → Type 0} {m n : Io W A} (b : Bool)
    → Yields P m
    → Yields P n
    → Yields P (if b then m else n)
Yields-either true h k = h
Yields-either false h k = k

-- `union bpf_attr` of BPF_PROG_LOAD
pub record LoadAttr : Type 0 where
  pub prog_name : List ℕ
  pub prog_type : ℕ
  pub insns : List Insn
  pub attach_type : ℕ

-- `union bpf_attr` of BPF_LINK_CREATE; a member that the hook does not use is 0.
pub record LinkAttr : Type 0 where
  pub prog_fd : Option ℕ
  pub target_fd : ℕ
  pub attach_type : ℕ
  pub flags : ℕ
  pub pf : ℕ
  pub hooknum : ℕ
  pub priority : ℕ

-- The members of `struct bpf_link_info` that are used.
pub record LinkInfo : Type 0 where
  pub pf : ℕ
  pub priority : ℕ

-- A descriptor of -1 is `none`. A call fails with an errno, but `rename` and `dup`, whose errno the
-- code does not look at, are a test and an option.
pub record Calls (W : Type 0) : Type 0 where
  -- BPF_MAP_CREATE, BPF_MAP_UPDATE_BATCH, BPF_MAP_UPDATE_ELEM, BPF_PROG_LOAD
  pub map_create : CreateAttr → Io W ℕ
  pub update_batch : Option ℕ → List ℕ → List ℕ → ℕ → Io W (Unit {0})
  pub update_elem : Option ℕ → List ℕ → List ℕ → Io W (Unit {0})
  pub prog_load : LoadAttr → Io W ℕ
  -- BPF_LINK_CREATE, BPF_LINK_UPDATE, BPF_OBJ_GET_INFO_BY_FD
  pub link_create : LinkAttr → Io W ℕ
  pub link_update : Option ℕ → Option ℕ → Io W (Unit {0})
  pub link_info : ℕ → Io W LinkInfo
  pub dup : Option ℕ → W → Option ℕ × W
  -- `open` of a cgroup's directory
  pub open_cgroup : List ℕ → Io W ℕ
  -- `access` for reading and writing, `mkdir`, `stat` with S_ISDIR, `open` and `rmdir` of a directory
  pub access : List ℕ → W → ℕ × W
  pub mkdir : List ℕ → Io W (Unit {0})
  pub is_dir : List ℕ → W → Bool × W
  pub open_pins : List ℕ → Io W ℕ
  pub rmdir : List ℕ → W → W
  pub rename : List ℕ → List ℕ → W → Bool × W
  -- The calls on an open directory.
  pub pins : ℕ → Directory W
