-- ===== src/Hook/Options.antt =====
-- src/core/hook.c, from `_bf_hook_opt_ifindex_parse` to `bf_hook_opts_init`: the options of a hook
-- are parsed from texts such as "ifindex=2" and checked against what the hook supports.
use Prim.Native.Nat.{bit_or}
use bpfilter.Prelude.{
  ℕ, zero, suc, ◌+◌, ◌-◌, ◌*◌, ◌%◌, ◌^◌, Bool, true, false, not, ◌&&◌, ◌||◌, List, [], ◌∷◌, ◌++◌,
  Option, none, some, ltb, leb, ◌==◌, if◌then◌else◌, length, take,
}
use bpfilter.Result.{Result, ok, err, fault, ◌>>=◌, ◌>>◌, assert, require, e2big, einval, enotsup}
use bpfilter.Hook.{
  HookOpts, Support, has_flag, support_of, opt_ifindex, opt_cgroup, opt_name, opt_attach, opt_max,
}
pub mod Strtoul
pub mod Flags
pub mod Checked
pub mod Init
use Strtoul.{strtoul}

-- BF_CHAIN_NAME_LEN
abbrev pub chain_name_len : ℕ
chain_name_len = 11

unfoldable pub ifindex_parse : HookOpts → List ℕ → Result HookOpts
ifindex_parse opts raw =
    let (ifindex, errno) = strtoul raw in
    if not (errno == 0)
    then err errno
    else if ltb (2 ^ 32 - 1) ifindex
    then err e2big
    else ok (record opts { ifindex = ifindex % 2 ^ 32 })

unfoldable pub cgroup_parse : HookOpts → List ℕ → Result HookOpts
cgroup_parse opts raw = ok (record opts { cgroup = some raw })

-- The error E2BIG becomes negative in `bf_err_r`, which returns `-abs(code)`.
unfoldable pub name_parse : HookOpts → List ℕ → Result HookOpts
name_parse opts raw =
    if ltb chain_name_len (length raw) then err e2big else ok (record opts { name = some raw })

-- `bf_streq` of two C strings
unfoldable pub streq : List ℕ → List ℕ → Bool
streq [] [] = true
streq [] (c ∷ t) = false
streq (c ∷ s) [] = false
streq (c ∷ s) (d ∷ t) = c == d && streq s t

abbrev text_yes : List ℕ
text_yes = b'y' ∷ b'e' ∷ b's' ∷ []

abbrev text_no : List ℕ
text_no = b'n' ∷ b'o' ∷ []

unfoldable pub attach_parse : HookOpts → List ℕ → Result HookOpts
unfolding streq
attach_parse opts raw =
    if streq raw text_yes
    then ok (record opts { attach = true })
    else if streq raw text_no
    then ok (record opts { attach = false })
    else err einval

-- The names in `_bf_hook_opt_ops`, in the order of `enum bf_hook_opt`.
abbrev opt_names : List (List ℕ × ℕ)
opt_names =
    (b'i' ∷ b'f' ∷ b'i' ∷ b'n' ∷ b'd' ∷ b'e' ∷ b'x' ∷ [], opt_ifindex)
    ∷ (b'c' ∷ b'g' ∷ b'r' ∷ b'o' ∷ b'u' ∷ b'p' ∷ [], opt_cgroup)
    ∷ (b'n' ∷ b'a' ∷ b'm' ∷ b'e' ∷ [], opt_name)
    ∷ (b'a' ∷ b't' ∷ b't' ∷ b'a' ∷ b'c' ∷ b'h' ∷ [], opt_attach)
    ∷ []

-- `strncmp(s, t, n) == 0` of two C strings
unfoldable pub strncmp_same : List ℕ → List ℕ → ℕ → Bool
strncmp_same s t zero = true
strncmp_same [] [] (suc n) = true
strncmp_same [] (d ∷ t) (suc n) = false
strncmp_same (c ∷ s) [] (suc n) = false
strncmp_same (c ∷ s) (d ∷ t) (suc n) = c == d && strncmp_same s t n

find_opt : List (List ℕ × ℕ) → List ℕ → ℕ → Option ℕ
find_opt [] key len = none
find_opt ((name, opt) ∷ rest) key len =
    if strncmp_same name key len then some opt else find_opt rest key len

-- `_bf_hook_opts_get_ops`
unfoldable pub opts_get_ops : List ℕ → ℕ → Result (Option ℕ)
unfolding find_opt strncmp_same
opts_get_ops key len = do assert (ltb 0 len); ok (find_opt opt_names key len)

-- `strchr(s, '=')`: the place of the first '=' and the text behind it.
unfoldable pub find_equals : List ℕ → Option (ℕ × List ℕ)
find_equals [] = none
find_equals (c ∷ s) =
    if c == b'='
    then some (0, s)
    else elim (find_equals s) [ none ↦ none | some (n, value) ↦ some (suc n, value) ]

-- The parser that goes with an option.
unfoldable pub opt_parse : ℕ → HookOpts → List ℕ → Result HookOpts
unfolding ifindex_parse cgroup_parse name_parse attach_parse
opt_parse opt opts raw =
    if opt == opt_ifindex
    then ifindex_parse opts raw
    else if opt == opt_cgroup
    then cgroup_parse opts raw
    else if opt == opt_name
    then name_parse opts raw
    else attach_parse opts raw

-- `if (r < 0) return r; opts->used_opts |= (1 << ops->opt);`
abbrev mark_used : ℕ → Result HookOpts → Result HookOpts
mark_used opt r = r >>= λ opts. ok (record opts { used_opts = bit_or opts.used_opts (2 ^ opt) })

-- The body of the loop, once the option is known.
unfoldable pub process_known : HookOpts → ℕ → ℕ → List ℕ → Result HookOpts
unfolding opt_parse
process_known opts hook opt value = do
  s ← support_of hook
  require (has_flag s.supported opt) enotsup
  mark_used opt (opt_parse opt opts value)

abbrev use_found : HookOpts → ℕ → List ℕ → Option ℕ → Result HookOpts
use_found opts hook value none = err enotsup
use_found opts hook value (some opt) = process_known opts hook opt value

-- A text without '=' makes C subtract from NULL.
use_equals : HookOpts → ℕ → List ℕ → Option (ℕ × List ℕ) → Result HookOpts
unfolding opts_get_ops process_known
use_equals opts hook raw none = fault
use_equals opts hook raw (some (len, value)) = do
  found ← opts_get_ops raw len
  use_found opts hook value found

-- One round of the loop.
unfoldable pub process_opt : HookOpts → ℕ → List ℕ → Result HookOpts
unfolding find_equals use_equals
process_opt opts hook raw = use_equals opts hook raw (find_equals raw)

unfoldable pub process_opts : HookOpts → ℕ → List (List ℕ) → Result HookOpts
process_opts opts hook [] = ok opts
process_opts opts hook (raw ∷ raws) = do
  next ← process_opt opts hook raw
  process_opts next hook raws

-- The loop over the options from `opt` on, `rounds` of them: a required option must be used.
unfoldable pub check_required : ℕ → ℕ → HookOpts → ℕ → Result HookOpts
check_required zero opt opts hook = ok opts
check_required (suc rounds) opt opts hook = do
  s ← support_of hook
  require (not (has_flag s.required opt && not (has_flag opts.used_opts opt))) einval
  check_required rounds (opt + 1) opts hook

-- What `bf_hook_opts_init` starts from.
abbrev pub default_opts : HookOpts
default_opts = record {
  used_opts = 2 ^ opt_attach;
  ifindex = 0;
  cgroup = none;
  name = none;
  attach = true;
}

unfoldable pub hook_opts_init : ℕ → List (List ℕ) → Result HookOpts
unfolding process_opts check_required
hook_opts_init hook raws = do
  opts ← process_opts default_opts hook raws
  check_required opt_max 0 opts hook
