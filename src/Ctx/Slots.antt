-- ===== src/Ctx/Slots.antt =====
-- The slots of the hooks: an interface, a cgroup, or the hook as a whole. The three functions that look
-- a codegen up are described by one search for the first codegen in a slot.
use bpfilter.Prelude.{
  ℕ, ◌≡◌, ◌≢◌, refl, ◌∙◌, Bool, true, false, List, [], ◌∷◌, ◌++◌, Option, none, some, ◌==◌,
  if◌then◌else◌, All, Bool-cases, inl, inr, arith,
}
use bpfilter.Result.{ok, ◌>>=◌}
use bpfilter.Hook.{HookOpts}
use bpfilter.Hook.Options.{streq}
use bpfilter.Printer.Packed.{streq_refl}
use bpfilter.Prog.Ident.{by_interface, by_netfilter}
use bpfilter.Codegen.{Codegen}
use bpfilter.Ctx.{same_path, get_xdp_cgen, get_nf_cgen, get_cgroup_cgen, get_from}

abbrev pub same_text : Option (List ℕ) → Option (List ℕ) → Bool
same_text (some s) (some t) = streq s t
same_text none t = false
same_text (some s) none = false

-- Do the options stand for the same slot of the hook?
unfoldable pub same_slot : ℕ → HookOpts → HookOpts → Bool
same_slot hook a b =
    if by_interface hook
    then a.ifindex == b.ifindex
    else if by_netfilter hook
    then true
    else same_text a.cgroup b.cgroup

-- The first codegen in the slot.
unfoldable pub find_slot : ℕ → List Codegen → HookOpts → Option Codegen
find_slot hook [] opts = none
find_slot hook (cgen ∷ cgens) opts =
    if same_slot hook cgen.chain.hook_opts opts then some cgen else find_slot hook cgens opts

-- A hook that goes by cgroups has one.
abbrev pub HasSlot : ℕ → HookOpts → Type 0
HasSlot hook opts = by_interface hook ≡ false → by_netfilter hook ≡ false → opts.cgroup ≢ none

get_xdp-find :
    (hook : ℕ) (cgens : List Codegen) (opts : HookOpts)
    → by_interface hook ≡ true
    → get_xdp_cgen cgens opts ≡ find_slot hook cgens opts
unfolding get_xdp_cgen find_slot same_slot
get_xdp-find hook [] opts h = refl
get_xdp-find hook (cgen ∷ cgens) opts h = rw (h, get_xdp-find hook cgens opts h) refl

get_nf-find :
    (hook : ℕ) (cgens : List Codegen) (opts : HookOpts)
    → by_interface hook ≡ false
    → by_netfilter hook ≡ true
    → get_nf_cgen cgens opts ≡ find_slot hook cgens opts
unfolding get_nf_cgen find_slot same_slot
get_nf-find hook [] opts h k = refl
get_nf-find hook (cgen ∷ cgens) opts h k = rw (h, k) refl

same_path-text : (a b : Option (List ℕ)) → a ≢ none → b ≢ none → same_path a b ≡ ok (same_text a b)
unfolding same_path
same_path-text none b h k = absurd (h refl)
same_path-text (some s) none h k = absurd (k refl)
same_path-text (some s) (some t) h k = refl

get_cgroup-find :
    (hook : ℕ) (cgens : List Codegen) (opts : HookOpts)
    → by_interface hook ≡ false
    → by_netfilter hook ≡ false
    → All (λ cgen. HasSlot hook cgen.chain.hook_opts) cgens
    → opts.cgroup ≢ none
    → get_cgroup_cgen cgens opts ≡ ok (find_slot hook cgens opts)
unfolding get_cgroup_cgen find_slot same_slot
get_cgroup-find hook [] opts h k v o = refl
get_cgroup-find hook (cgen ∷ cgens) opts h k v o =
    let same = same_path-text cgen.chain.hook_opts.cgroup opts.cgroup (v.0 h k) o in
    let rest = get_cgroup-find hook cgens opts h k v.1 o in
    elim (Bool-cases (same_text cgen.chain.hook_opts.cgroup opts.cgroup)) [
      | inl t ↦ rw (same, h, k, t, ◌>>=◌) refl
      | inr f ↦ rw (same, h, k, f, ◌>>=◌) rest
    ]

-- If the codegens of a hook and the options that are asked for have a slot, the getter of the hook
-- gives the first codegen in that slot, or none.
pub get_from-find_slot :
    (hook : ℕ) (cgens : List Codegen) (opts : HookOpts)
    → All (λ cgen. HasSlot hook cgen.chain.hook_opts) cgens
    → HasSlot hook opts
    → get_from hook cgens opts ≡ ok (find_slot hook cgens opts)
unfolding get_from
get_from-find_slot hook cgens opts v o = elim (Bool-cases (by_interface hook)) [
  | inl a ↦ rw (a, get_xdp-find hook cgens opts a) refl
  | inr a ↦ elim (Bool-cases (by_netfilter hook)) [
    | inl b ↦ rw (a, b, get_nf-find hook cgens opts a b) refl
    | inr b ↦ rw (a, b) (get_cgroup-find hook cgens opts a b v (o a b))
  ]
]

-- What is found when a codegen is appended.
find_slot-append :
    (hook : ℕ) (cgens : List Codegen) (cgen : Codegen) (opts : HookOpts)
    → find_slot hook (cgens ++ cgen ∷ []) opts ≡ elim (find_slot hook cgens opts) [
      | some old ↦ some old
      | none ↦ if same_slot hook cgen.chain.hook_opts opts then some cgen else none
    ]
unfolding find_slot
find_slot-append hook [] cgen opts = refl
find_slot-append hook (x ∷ cgens) cgen opts =
    elim (Bool-cases (same_slot hook x.chain.hook_opts opts)) [
      | inl t ↦ rw t refl
      | inr f ↦ rw f (find_slot-append hook cgens cgen opts)
    ]

-- Nothing is found in a slot that no codegen stands for.
pub find_slot-none :
    (hook : ℕ) (cgen : Codegen) (cgens : List Codegen) (opts : HookOpts)
    → find_slot hook (cgen ∷ cgens) opts ≡ none
    → (same_slot hook cgen.chain.hook_opts opts ≡ false) × (find_slot hook cgens opts ≡ none)
unfolding find_slot
find_slot-none hook cgen cgens opts h =
    elim (Bool-cases (same_slot hook cgen.chain.hook_opts opts)) [
      | inl t ↦ absurd (cc (rw t at h))
      | inr f ↦ (f, rw f at h)
    ]

same_text_refl : (s : Option (List ℕ)) → s ≢ none → same_text s s ≡ true
same_text_refl none h = absurd (h refl)
same_text_refl (some s) h = streq_refl s

pub same_slot_refl :
    (hook : ℕ) (opts : HookOpts) → HasSlot hook opts → same_slot hook opts opts ≡ true
unfolding same_slot
same_slot_refl hook opts o = elim (Bool-cases (by_interface hook)) [
  | inl a ↦ rw a (ground arith)
  | inr a ↦ elim (Bool-cases (by_netfilter hook)) [
    | inl b ↦ rw (a, b) refl
    | inr b ↦ rw (a, b) (same_text_refl opts.cgroup (o a b))
  ]
]

pub find_slot-append_other :
    (hook : ℕ) (cgens : List Codegen) (cgen : Codegen) (opts : HookOpts)
    → same_slot hook cgen.chain.hook_opts opts ≡ false
    → find_slot hook (cgens ++ cgen ∷ []) opts ≡ find_slot hook cgens opts
unfolding find_slot
find_slot-append_other hook [] cgen opts h = rw h refl
find_slot-append_other hook (x ∷ cgens) cgen opts h =
    elim (Bool-cases (same_slot hook x.chain.hook_opts opts)) [
      | inl t ↦ rw t refl
      | inr f ↦ rw f (find_slot-append_other hook cgens cgen opts h)
    ]

pub find_slot-append_new :
    (hook : ℕ) (cgens : List Codegen) (cgen : Codegen)
    → HasSlot hook cgen.chain.hook_opts
    → find_slot hook cgens cgen.chain.hook_opts ≡ none
    → find_slot hook (cgens ++ cgen ∷ []) cgen.chain.hook_opts ≡ some cgen
find_slot-append_new hook cgens cgen o h =
    find_slot-append hook cgens cgen cgen.chain.hook_opts
    ∙ (rw (h, same_slot_refl hook cgen.chain.hook_opts o) refl)
