-- ===== src/Codegen/RoundTrip.antt =====
-- The serialised form of a codegen, written and read.
use bpfilter.Prelude.{
  ℕ, ◌^◌, ◌<◌, ◌≡◌, refl, List, [], ◌∷◌, Option, none, some, length, arith, append_assoc,
  append-nil, ◌==◌, false,
}
use bpfilter.Result.{ok}
use bpfilter.Bytes.{le, At}
use bpfilter.Marsh.{marsh_new, is_empty}
use bpfilter.Marsh.Children.{
  enc, children, add_child_raw-marsh_new, add_child_obj-marsh_new, Visits-start,
  require_child-Visits, object-Visits, field-Visits, data_len-At,
}
use bpfilter.Chain.{Chain}
use bpfilter.Chain.RoundTrip.{chain_bytes, chain_marsh_lem, chain_new_from_marsh-enc}
use bpfilter.Chain.RoundTrip as ChainTrip
use bpfilter.Prog.{System}
use bpfilter.Prog.Stored.{StoredProgram}
use bpfilter.Prog.Stored.RoundTrip.{
  program_bytes, program_bytes-pos, program_marsh_lem, program_unmarsh-At,
}
use bpfilter.Prog.Stored.RoundTrip as StoredTrip
use bpfilter.Codegen.{
  Codegen, program_child, cgen_new, cgen_marsh, load_program, cgen_new_from_marsh,
}

-- A program that is there is valid for its chain.
abbrev pub HasProgram : System → Chain → Option StoredProgram → Type 0
HasProgram sys chain none = Unit {0}
HasProgram sys chain (some p) = StoredTrip.IsValid sys chain p

pub record IsValid (sys : System) (cgen : Codegen) : Type 0 where
  pub front_fits : cgen.front < 2 ^ 32
  pub valid_chain : ChainTrip.IsValid cgen.chain
  pub valid_program : HasProgram sys cgen.chain cgen.program

-- The room behind the code is not kept.
abbrev pub trimmed : Option StoredProgram → Option StoredProgram
trimmed none = none
trimmed (some p) = some (record p { img_cap = p.img_size })

abbrev pub restored : Codegen → Codegen
restored cgen = record cgen { program = trimmed cgen.program }

program_part : Option StoredProgram → List ℕ
program_part none = []
program_part (some p) = program_bytes p

cgen_fields : Codegen → List (List ℕ)
unfolding program_part
cgen_fields cgen = le 4 cgen.front ∷ chain_bytes cgen.chain ∷ program_part cgen.program ∷ []

pub cgen_bytes : Codegen → List ℕ
unfolding cgen_fields
cgen_bytes cgen = children (cgen_fields cgen)

program_child_lem :
    (sys : System) (chain : Chain) (program : Option StoredProgram)
    → HasProgram sys chain program
    → program_child program ≡ marsh_new (program_part program)
unfolding program_part
program_child_lem sys chain none v = refl
program_child_lem sys chain (some p) v = program_marsh_lem sys chain p v

pub cgen_marsh_lem :
    (sys : System) (cgen : Codegen)
    → IsValid sys cgen
    → cgen_marsh cgen ≡ marsh_new (cgen_bytes cgen)
unfolding cgen_marsh cgen_bytes
cgen_marsh_lem sys cgen v = simp (
  chain_marsh_lem cgen.chain v.valid_chain,
  program_child_lem sys cgen.chain cgen.program v.valid_program,
  add_child_raw-marsh_new,
  add_child_obj-marsh_new,
  append_assoc,
  append-nil,
)

not_zero : (n : ℕ) → 0 < n → (n == 0) ≡ false
not_zero n h = ground arith

module _ (b : List ℕ) (fits : length b < 2 ^ 64) (sys : System) where
  load_program-At :
      (c front : ℕ) (chain : Chain) (program : Option StoredProgram)
      → HasProgram sys chain program
      → At b c (enc (program_part program))
      → load_program sys b c (cgen_new front chain)
        ≡ ok (record { front = front; chain = chain; program = trimmed program })
  unfolding load_program program_part is_empty cgen_new
  load_program-At c front chain none v a = rw (data_len-At b fits c [] a)
  load_program-At c front chain (some p) v a =
      rw
        (
          data_len-At b fits c (program_bytes p) a,
          not_zero _ (program_bytes-pos p),
          program_unmarsh-At b fits sys chain c p v a,
        )
        refl

  pub cgen_new_from_marsh-At :
      (c : ℕ) (cgen : Codegen)
      → IsValid sys cgen
      → At b c (enc (cgen_bytes cgen))
      → cgen_new_from_marsh sys b c ≡ ok (restored cgen)
  unfolding cgen_new_from_marsh cgen_bytes
  cgen_new_from_marsh-At c cgen v a =
      field-Visits b fits c none 4 cgen.front _ _ _ v.front_fits
        (Visits-start b fits c (cgen_fields cgen) a)
        λ c₁ v₁.
          object-Visits b fits c (some c₁) _ _ _ cgen.chain _ _
            (λ x h. chain_new_from_marsh-enc b fits x cgen.chain v.valid_chain h) v₁
            λ c₂ v₂.
              require_child-Visits b fits c (some c₂) _ _ _ _ v₂
                λ c₃ a₃ v₃. load_program-At c₃ cgen.front cgen.chain cgen.program v.valid_program a₃
