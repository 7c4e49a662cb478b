-- ===== src/Codegen.antt =====
-- src/bpfilter/cgen/cgen.c: a codegen is a chain with the front that defined it and its program.
use bpfilter.Prelude.{
  ℕ, ◌+◌, ◌-◌, ◌^◌, Bool, true, false, ◌||◌, List, [], ◌∷◌, Option, none, some, ltb, leb, ◌==◌,
  if◌then◌else◌, length,
}
use bpfilter.Result.{Result, ok, err, fault, ◌>>=◌, einval}
use bpfilter.Bytes.{le}
use bpfilter.Marsh.{
  Marsh, marsh_new, add_child_raw, add_child_obj, require_child, load_uint, is_empty,
}
use bpfilter.Chain.{Chain, chain_marsh, chain_new_from_marsh}
use bpfilter.Prog.{System}
use bpfilter.Prog.Stored.{StoredProgram, program_marsh, program_unmarsh}
use bpfilter.Prog.Unload.{program_unload}
pub mod RoundTrip
pub mod Up

-- `struct bf_cgen`
pub record Codegen : Type 0 where
  pub front : ℕ
  pub chain : Chain
  pub program : Option StoredProgram

unfoldable pub cgen_new : ℕ → Chain → Codegen
cgen_new front chain = record { front = front; chain = chain; program = none }

abbrev program_child : Option StoredProgram → Marsh
program_child none = marsh_new []
program_child (some p) = program_marsh p

unfoldable pub cgen_marsh : Codegen → Marsh
cgen_marsh cgen =
    let a = add_child_raw (marsh_new []) (le 4 cgen.front) in
    let b = add_child_obj a (chain_marsh cgen.chain) in add_child_obj b (program_child cgen.program)

-- The block of bf_cgen_new_from_marsh for the program, which is left out if there is none.
unfoldable pub load_program : System → List ℕ → ℕ → Codegen → Result Codegen
load_program sys b c cgen = is_empty b c >>= λ empty. if empty then ok cgen else do
  program ← program_unmarsh sys b c cgen.chain
  ok (record cgen { program = some program })

-- A child behind the program is warned about and ignored.
unfoldable pub cgen_new_from_marsh : System → List ℕ → ℕ → Result Codegen
unfolding cgen_new load_program
cgen_new_from_marsh sys b m = do
  c ← require_child b m none
  front ← load_uint b c 4
  c ← require_child b m (some c)
  chain ← chain_new_from_marsh b c
  c ← require_child b m (some c)
  load_program sys b c (cgen_new front chain)

-- `enum bf_counter_type` is an int: BF_COUNTER_POLICY is -1 and BF_COUNTER_ERRORS is -2, here as bit
-- patterns of 32 bits.
abbrev pub counter_policy : ℕ
counter_policy = 2 ^ 32 - 1

abbrev pub counter_errors : ℕ
counter_errors = 2 ^ 32 - 2

-- bf_cgen_get_counter up to the lookup in the map: the index of the counter there.
unfoldable pub counter_index : Codegen → ℕ → Result ℕ
counter_index cgen counter_idx =
    let rule_count = length cgen.chain.rules in
    if counter_idx == counter_policy
    then ok rule_count
    else if counter_idx == counter_errors
    then ok (rule_count + 1)
    else if leb (2 ^ 31) counter_idx || leb rule_count counter_idx
    then err einval
    else ok counter_idx

-- bf_cgen_unload; a codegen without a program fails an assertion of bf_program_unload.
unfoldable pub cgen_unload : (Option ℕ → ℕ) → Codegen → Result (ℕ × Codegen)
cgen_unload detach cgen = elim cgen.program [
  | none ↦ fault
  | some p ↦ do
    (r, q) ← program_unload detach cgen.chain p
    ok (r, record cgen { program = some q })
]
