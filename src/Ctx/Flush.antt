-- ===== src/Ctx/Flush.antt =====
-- What bf_ctx_flush leaves and returns.
use bpfilter.Prelude.{
  ℕ, ◌≡◌, ◌≢◌, refl, sym, ◌∙◌, ap, length, List, [], ◌∷◌, ◌++◌, Option, none, some, ◌==◌,
  if◌then◌else◌, map, All, true, Bool, Bool-cases, inl, inr, arith,
}
use bpfilter.Result.{ok, ◌>>=◌, Gives}
use bpfilter.Prog.Link.{Link}
use bpfilter.Prog.Stored.{StoredProgram}
use bpfilter.Prog.Unload.{program_unload, detach_prog, link_detach, close_objects}
use bpfilter.Codegen.{Codegen, cgen_unload}
use bpfilter.Chain.{Chain}
use bpfilter.Ctx.{
  Ctx, empty_lists, hook_max, ctx_new, ctx_is_empty, unload_list, unload_lists, ctx_flush,
}

-- What detaching the first link gives, if there is one.
first_code : (Option ℕ → ℕ) → List Link → ℕ
first_code detach [] = 0
first_code detach (link ∷ links) = detach link.fd

-- What unloading a codegen's program gives.
code_of : (Option ℕ → ℕ) → Bool → Option StoredProgram → ℕ
unfolding first_code
code_of detach attach none = 0
code_of detach attach (some p) = if attach then first_code detach p.links else 0

pub unload_code : (Option ℕ → ℕ) → Codegen → ℕ
unfolding code_of
unload_code detach cgen = code_of detach cgen.chain.hook_opts.attach cgen.program

-- A program that is attached has a link.
abbrev pub HasLink : Bool → Option StoredProgram → Type 0
HasLink attach none = ⊥
HasLink attach (some p) = attach ≡ true → p.links ≢ []

abbrev pub IsLoaded : Codegen → Type 0
IsLoaded cgen = HasLink cgen.chain.hook_opts.attach cgen.program

pub all_cgens : Ctx → List Codegen
all_cgens [] = []
all_cgens (cgens ∷ ctx) = cgens ++ all_cgens ctx

-- The first number that is not 0.
pub first_error : List ℕ → ℕ
first_error [] = 0
first_error (e ∷ es) = if e == 0 then first_error es else e

link_detach-code :
    (detach : Option ℕ → ℕ) (link : Link) → (link_detach detach link).0 ≡ detach link.fd
unfolding link_detach
link_detach-code detach link = ground arith

detach_prog-code :
    (detach : Option ℕ → ℕ) (links : List Link)
    → links ≢ []
    → Gives (detach_prog detach links) (λ x. x.0 ≡ first_code detach links)
unfolding detach_prog first_code
detach_prog-code detach [] h = absurd (h refl)
detach_prog-code detach (link ∷ links) h = (
  ((link_detach detach link).0, (link_detach detach link).1 ∷ links),
  refl,
  link_detach-code detach link,
)

closed :
    (n : ℕ) (a b : StoredProgram)
    → (if◌then◌else◌ {A = ℕ × StoredProgram} (n == 0) (0, a) (n, b)).0 ≡ n
closed n a b = elim (Bool-cases (n == 0)) [ inl z ↦ rw z (ground (arith, z)) | inr s ↦ rw s refl ]

program_unload-code :
    (detach : Option ℕ → ℕ) (chain : Chain) (p : StoredProgram)
    → (chain.hook_opts.attach ≡ true → p.links ≢ [])
    → Gives
        (program_unload detach chain p)
        (λ x. x.0 ≡ code_of detach chain.hook_opts.attach (some p))
unfolding program_unload code_of
program_unload-code detach chain p v = elim (Bool-cases chain.hook_opts.attach) [
  | inl a ↦
      let ((r, links), e, f) = detach_prog-code detach p.links (v a) in
      (
        (if r == 0 then (0, close_objects detach p links) else (r, record p { links = links })),
        rw (a, e) refl,
        closed r _ _ ∙ (rw a f),
      )
  | inr a ↦ ((0, close_objects detach p p.links), rw a refl, rw a refl)
]

cgen_unload-code :
    (detach : Option ℕ → ℕ) (cgen : Codegen) (program : Option StoredProgram)
    → cgen.program ≡ program
    → HasLink cgen.chain.hook_opts.attach program
    → Gives
        (cgen_unload detach cgen)
        (λ x. x.0 ≡ code_of detach cgen.chain.hook_opts.attach program)
unfolding cgen_unload
cgen_unload-code detach cgen none e v = absurd v
cgen_unload-code detach cgen (some p) e v =
    let ((r, q), f, g) = program_unload-code detach cgen.chain p v in
    ((r, record cgen { program = some q }), rw (e, cgen_unload, f) refl, g)

-- The error that is kept, when `e` came before.
abbrev keep : ℕ → ℕ → ℕ
keep e r = if e == 0 then r else e

unload_list-code :
    (detach : Option ℕ → ℕ) (e : ℕ) (cgens : List Codegen)
    → All IsLoaded cgens
    → unload_list detach e cgens ≡ ok (keep e (first_error (map (unload_code detach) cgens)))
unfolding unload_list first_error
unload_list-code detach e [] v = ground arith
unload_list-code detach e (cgen ∷ cgens) v =
    let ((r, old), f, g) = cgen_unload-code detach cgen cgen.program refl v.0 in
    let r_is : r ≡ unload_code detach cgen = unfold unload_code in g in
    rw (f, ◌>>=◌, unload_list-code detach (keep e r) cgens v.1, r_is) (ground arith)

first_error-append :
    (e : ℕ) (xs ys : List ℕ)
    → keep (keep e (first_error xs)) (first_error ys) ≡ keep e (first_error (xs ++ ys))
unfolding first_error
first_error-append e [] ys = ground arith
first_error-append e (x ∷ xs) ys =
    ground (arith, first_error-append e xs ys, first_error-append x xs ys)

map-append {ℓ} :
    {A B : Type ℓ} (f : A → B) (xs ys : List A) → map f (xs ++ ys) ≡ map f xs ++ map f ys
map-append f [] ys = refl
map-append f (x ∷ xs) ys = ap (◌∷◌ (f x)) (map-append f xs ys)

unload_lists-code :
    (detach : Option ℕ → ℕ) (e : ℕ) (ctx : Ctx)
    → All (All IsLoaded) ctx
    → unload_lists detach e ctx
      ≡ ok (keep e (first_error (map (unload_code detach) (all_cgens ctx))))
unfolding unload_lists all_cgens
unload_lists-code detach e [] v = unfold first_error in (ground arith)
unload_lists-code detach e (cgens ∷ ctx) v =
    let codes = unload_code detach in
    rw
      (
        unload_list-code detach e cgens v.0,
        ◌>>=◌,
        unload_lists-code detach (keep e (first_error (map codes cgens))) ctx v.1,
      )
      (ap ok (
        first_error-append e (map codes cgens) (map codes (all_cgens ctx))
        ∙ ap (λ l. keep e (first_error l)) (sym (map-append codes cgens (all_cgens ctx)))))

-- If every codegen has a program, and every program that is attached has a link, bf_ctx_flush goes on
-- after an error: it leaves an empty context and returns the first error of detaching the programs, in
-- the order of the hooks and of their codegens, or 0.
pub ctx_flush_lem :
    (detach : Option ℕ → ℕ) (ctx : Ctx)
    → All (All IsLoaded) ctx
    → Gives (ctx_flush detach ctx) (λ x.
      (x.0 ≡ first_error (map (unload_code detach) (all_cgens ctx)))
      × (ctx_is_empty x.1 ≡ true)
      × (length x.1 ≡ hook_max))
unfolding ctx_flush ctx_new ctx_is_empty
ctx_flush_lem detach ctx v = (
  (first_error (map (unload_code detach) (all_cgens ctx)), empty_lists hook_max),
  rw (unload_lists-code detach 0 ctx v) refl,
  (refl, refl, refl),
)
