-- ===== src/Prog/Ident.antt =====
-- src/bpfilter/cgen/program.c, _bf_program_genid: the identifier of a program and the names that are
-- derived from it. The directory and the objects of a program are pinned under these names.
use bpfilter.Prelude.{
  ℕ, ◌%◌, Bool, ◌||◌, List, [], ◌∷◌, ◌++◌, Option, none, some, ◌==◌, if◌then◌else◌, get_elem?,
}
use bpfilter.Result.{Result, ok, err, fault, ◌>>=◌, enotsup}
use bpfilter.Hook.{
  has_flag, opt_name, xdp, tc_ingress, tc_egress, nf_pre_routing, nf_local_in, nf_forward,
  nf_local_out, nf_post_routing, cgroup_ingress, cgroup_egress,
}
use bpfilter.Chain.{Chain}
use bpfilter.Strings.{clip, hex}
use bpfilter.Prog.{System}
pub mod Bounds

-- The table `flavor_keys`.
abbrev pub flavor_keys : List (List ℕ)
flavor_keys =
    (b'x' ∷ b'd' ∷ b'p' ∷ [])
    ∷ (b't' ∷ b'c' ∷ b'i' ∷ [])
    ∷ (b'n' ∷ b'f' ∷ b'p' ∷ [])
    ∷ (b'n' ∷ b'f' ∷ b'i' ∷ [])
    ∷ (b'n' ∷ b'f' ∷ b'f' ∷ [])
    ∷ (b'c' ∷ b'g' ∷ b'i' ∷ [])
    ∷ (b'c' ∷ b'g' ∷ b'e' ∷ [])
    ∷ (b'n' ∷ b'f' ∷ b'o' ∷ [])
    ∷ (b'n' ∷ b'f' ∷ b'r' ∷ [])
    ∷ (b't' ∷ b'c' ∷ b'e' ∷ [])
    ∷ []

-- BF_PROG_ID_LEN, PATH_MAX
abbrev pub prog_id_len : ℕ
prog_id_len = 12

abbrev path_max : ℕ
path_max = 4096

abbrev pub by_interface : ℕ → Bool
by_interface hook = hook == xdp || (hook == tc_ingress || hook == tc_egress)

abbrev pub by_netfilter : ℕ → Bool
by_netfilter hook =
    hook == nf_pre_routing
    || (hook == nf_local_in
        || (hook == nf_forward || (hook == nf_local_out || hook == nf_post_routing)))

abbrev pub by_group : ℕ → Bool
by_group hook = hook == cgroup_ingress || hook == cgroup_egress

-- A NULL pointer for `%s` or `bf_strncpy`.
abbrev text_of : Option (List ℕ) → Result (List ℕ)
text_of none = fault
text_of (some s) = ok s

-- The switch: the text that is hashed.
unfoldable pub id_source : ℕ → List ℕ → Chain → Result (List ℕ)
id_source hook key chain =
    if by_interface hook
    then ok (clip path_max (key ++ b'_' ∷ hex 8 chain.hook_opts.ifindex))
    else if by_netfilter hook
    then ok (clip path_max key)
    else if by_group hook
    then (text_of chain.hook_opts.cgroup >>= λ path. ok (clip path_max (key ++ b'_' ∷ path)))
    else err enotsup

-- "bf_%3s_%04x"; every key has three characters.
abbrev pub id_text : List ℕ → ℕ → List ℕ
id_text key hash =
    clip prog_id_len ((b'b' ∷ b'f' ∷ b'_' ∷ []) ++ (key ++ b'_' ∷ hex 4 (hash % 256)))

-- Reading behind the table of keys is a fault.
abbrev pub key_of : ℕ → Result (List ℕ)
key_of hook = elim (get_elem? flavor_keys hook) [ none ↦ fault | some key ↦ ok key ]

abbrev hashed_id : System → ℕ → Chain → Result (List ℕ)
hashed_id sys hook chain = do
  key ← key_of hook
  text ← id_source hook key chain
  ok (id_text key (sys.murmur3 text))

abbrev named_id : Chain → Result (List ℕ)
named_id chain = do name ← text_of chain.hook_opts.name; ok (clip prog_id_len name)

unfoldable pub genid : System → ℕ → Chain → Result (List ℕ)
unfolding id_source
genid sys hook chain =
    if has_flag chain.hook_opts.used_opts opt_name then named_id chain else hashed_id sys hook chain
