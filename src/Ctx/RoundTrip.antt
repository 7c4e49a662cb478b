-- ===== src/Ctx/RoundTrip.antt =====
-- The serialised form of a context, written when the daemon stops and read when it starts again.
use bpfilter.Prelude.{
  ℕ, suc, ◌^◌, ◌<◌, ◌≡◌, refl, sym, ap, ◌∙◌, List, [], ◌∷◌, ◌++◌, length, length-append, arith,
  append_assoc, append-nil, All, map, get_elem?-length, set-length,
}
use bpfilter.Result.{ok, ◌>>=◌, Gives}
use bpfilter.Bytes.{At}
use bpfilter.Marsh.{marsh_new, image, list_marsh}
use bpfilter.Marsh.Children.{image-marsh_new, enc, children}
use bpfilter.Marsh.Loop.{list_marsh-marsh_new, fold_children-At}
use bpfilter.Prog.{System}
use bpfilter.Codegen.{Codegen, cgen_marsh, cgen_new_from_marsh}
use bpfilter.Codegen.RoundTrip.{restored, cgen_bytes, cgen_marsh_lem, cgen_new_from_marsh-At}
use bpfilter.Codegen.RoundTrip as CodegenTrip
use bpfilter.Ctx.{
  Ctx, hook_max, empty_lists, ctx_new, add_tail_at, ctx_marsh, load_list, ctx_new_from_marsh,
}

-- A list for each hook, of valid codegens.
pub record IsValid (sys : System) (ctx : Ctx) : Type 0 where
  pub all_hooks : length ctx ≡ hook_max
  pub valid_cgens : All (All (CodegenTrip.IsValid sys)) ctx

list_bytes : List Codegen → List ℕ
list_bytes cgens = children (map cgen_bytes cgens)

ctx_bytes : Ctx → List ℕ
ctx_bytes ctx = children (map list_bytes ctx)

ctx_marsh_lem :
    (sys : System) (ctx : Ctx)
    → All (All (CodegenTrip.IsValid sys)) ctx
    → ctx_marsh ctx ≡ marsh_new (ctx_bytes ctx)
unfolding ctx_marsh ctx_bytes
ctx_marsh_lem sys ctx v =
    list_marsh-marsh_new (All (CodegenTrip.IsValid sys)) _ list_bytes ctx [] v
      λ cgens h. whole cgens h
  where
    whole :
        (cgens : List Codegen)
        → All (CodegenTrip.IsValid sys) cgens
        → list_marsh cgen_marsh cgens (marsh_new []) ≡ marsh_new (list_bytes cgens)
    whole cgens h =
        unfold list_bytes in
        list_marsh-marsh_new (CodegenTrip.IsValid sys) cgen_marsh cgen_bytes cgens [] h
          (cgen_marsh_lem sys)

add_tail_at-length :
    (done rest : Ctx) (cgens : List Codegen) (cgen : Codegen)
    → add_tail_at (done ++ (cgens ∷ rest)) (length done) cgen
      ≡ ok (done ++ ((cgens ++ cgen ∷ []) ∷ rest))
unfolding add_tail_at
add_tail_at-length done rest cgens cgen =
    rw (get_elem?-length done rest cgens, add_tail_at) (ap ok (set-length done rest cgens _))

-- During the inner loop: the list of the hook is what has been read, and `xs` is left.
Filling : System → (done rest : Ctx) (full : List Codegen) → List Codegen → Ctx → Type 0
Filling sys done rest full xs s =
    All (CodegenTrip.IsValid sys) xs
    × ((pre : List Codegen) × (s ≡ done ++ (pre ∷ rest)) × (pre ++ map restored xs ≡ full))

-- During the outer loop: the lists of the first hooks are read, the others are empty.
Reading : System → Ctx → Ctx → ℕ × Ctx → Type 0
Reading sys full ls s =
    All (All (CodegenTrip.IsValid sys)) ls
    × ((done : Ctx) × (s.0 ≡ length done)
        × (s.1 ≡ done ++ empty_lists (length ls))
        × (done ++ map (map restored) ls ≡ full))

module _ (b : List ℕ) (fits : length b < 2 ^ 64) (sys : System) where
  load_one :
      (done rest : Ctx) (full : List Codegen) (x : Codegen) (xs : List Codegen) (t : Ctx) (c : ℕ)
      → Filling sys done rest full (x ∷ xs) t
      → At b c (enc (cgen_bytes x))
      → Gives
          (cgen_new_from_marsh sys b c >>= λ cgen. add_tail_at t (length done) cgen)
          (Filling sys done rest full xs)
  unfolding Filling
  load_one done rest full x xs t c (v, (pre, e, f)) a = (
    done ++ ((pre ++ restored x ∷ []) ∷ rest),
    rw (cgen_new_from_marsh-At b fits sys c x v.0 a, ◌>>=◌, e)
        (add_tail_at-length done rest pre (restored x)),
    (v.1, (pre ++ restored x ∷ [], refl, append_assoc pre (restored x ∷ []) (map restored xs) ∙ f)),
  )

  load_list-At :
      (done rest : Ctx) (cgens : List Codegen) (c : ℕ)
      → All (CodegenTrip.IsValid sys) cgens
      → At b c (enc (list_bytes cgens))
      → load_list sys b (done ++ ([] ∷ rest)) (length done) c
        ≡ ok (done ++ (map restored cgens ∷ rest))
  unfolding load_list list_bytes Filling
  load_list-At done rest cgens c v a =
      let (s, e, (u, (pre, f, g))) =
        fold_children-At b fits (Filling sys done rest (map restored cgens)) cgen_bytes _ c cgens
          (done ++ ([] ∷ rest)) (v, ([], refl, refl)) a (load_one done rest (map restored cgens)) in
      let same : pre ≡ map restored cgens = sym (append-nil pre) ∙ g in
      e ∙ ap ok (f ∙ ap (λ x. done ++ (x ∷ rest)) same)

  read_one :
      (full : Ctx) (l : List Codegen) (ls : Ctx) (s : ℕ × Ctx) (c : ℕ)
      → Reading sys full (l ∷ ls) s
      → At b c (enc (list_bytes l))
      → Gives (load_list sys b s.1 s.0 c >>= λ t. ok (suc s.0, t)) (Reading sys full ls)
  unfolding Reading
  read_one full l ls s c (v, (done, i, e, f)) a =
      let rest = empty_lists (length ls) in
      let next = done ++ (map restored l ∷ rest) in
      (
        (suc s.0, next),
        rw (e, i, load_list-At done rest l c v.0 a) refl,
        (
          v.1,
          (
            done ++ map restored l ∷ [],
            omega (arith, i, length-append done (map restored l ∷ [])),
            sym (append_assoc done (map restored l ∷ []) rest),
            append_assoc done (map restored l ∷ []) (map (map restored) ls) ∙ f,
          ),
        ),
      )

  -- Wherever the serialised form of a context lies in a memory block smaller than 2^64 bytes,
  -- bf_ctx_load restores the context from it, if its codegens are valid and their objects are pinned
  -- where the new daemon looks for them: each hook has its codegens in their order, each with its
  -- front, chain, maps, links, messages and code. Only the room behind the code is not kept.
  pub ctx_new_from_marsh-ctx_marsh :
      (p : ℕ) (ctx : Ctx)
      → IsValid sys ctx
      → At b p (image (ctx_marsh ctx))
      → ctx_new_from_marsh sys b p ≡ ok (map (map restored) ctx)
  unfolding ctx_new_from_marsh ctx_new Reading
  ctx_new_from_marsh-ctx_marsh p ctx v a =
      let a' : At b p (enc (children (map list_bytes ctx))) =
        unfold ctx_bytes in (rw (ctx_marsh_lem sys ctx v.valid_cgens, image-marsh_new) at a) in
      let (s, e, (u, (done, i, f, g))) =
        fold_children-At b fits (Reading sys (map (map restored) ctx)) list_bytes _ p ctx
          (0, empty_lists hook_max)
          (v.valid_cgens, ([], refl, ap empty_lists (sym v.all_hooks), refl)) a'
          (read_one (map (map restored) ctx)) in
      rw (e, ◌>>=◌) (ap ok (f ∙ g))
