-- ===== src/Ports/Permits.antt =====
-- core/mcp/ports/permit.go: admissions, and the permits that are issued for them.
use xops_cli.Base.{
  Bool, List, Option, String, ℕ, [], contains, if◌then◌else◌, negate, none, some, ◌==◌, ◌∷◌,
  string_eq, nat_eq,
}
use xops_cli.Ports.Kinds.{
  Binding, Context, Error, Hashes, OperationSnapshot, Permit, Phase, phase_eq, inspect, execute,
  transfer_start, commit, recovery, invalid, purpose,
}
use xops_cli.Ports.Bindings.{validate_binding}

-- The permit of an earlier phase that an admission names: whether it is nil or has no context,
-- what its methods answer, the registration that its context carries, by number, and whether its
-- context is that registration's own
pub record Previous : Type 0 where
  pub is_nil : Bool
  pub phase : Phase
  pub binding : Binding
  pub entry : Option ℕ
  pub own_context : Bool

pub record Admission : Type 0 where
  pub operation_id : String
  pub phase : Phase
  pub snapshot : OperationSnapshot
  pub binding : Binding
  pub previous : Option Previous

abbrev all_phases : List Phase
all_phases = inspect ∷ execute ∷ transfer_start ∷ commit ∷ recovery ∷ []

-- What a context that is not nil says against going on
abbrev pub check_context : Option Context → Option Error
check_context none = some invalid
check_context (some ctx) = ctx.err

-- NewPermit: `none` is success.
unfoldable pub new_permit : Hashes → Context → Admission → Option Error
new_permit h ctx admission = elim ctx.err [
  | some e ↦ some e
  | none ↦ elim ctx.deadline [
    | none ↦ some invalid
    | some deadline ↦
        if admission.operation_id == ""
        then some invalid
        else if negate (contains all_phases admission.phase)
        then some purpose
        else validate_binding h admission.binding admission.snapshot
  ]
]

-- The permit that NewPermit issues, as its methods answer where its context reports this error
unfoldable pub issued_permit : Context → Admission → Option Error → Permit
issued_permit ctx admission ended = record {
  phase = admission.phase;
  binding = admission.binding;
  snapshot = admission.snapshot;
  context = some (record ctx { err = ended });
}

-- The tests of WorkContext on a permit's context: `none` is success.
unfoldable pub work_permit : Hashes → Context → Permit → List Phase → Option Error
work_permit h ctx permit phases = elim ctx.err [
  | some e ↦ some e
  | none ↦ if negate (contains phases permit.phase) then some purpose else elim ctx.deadline [
    | none ↦ some invalid
    | some deadline ↦ validate_binding h permit.binding permit.snapshot
  ]
]

-- WorkContext: `none` is success.
unfoldable pub work_context : Hashes → Option Context → Option Permit → List Phase → Option Error
unfolding work_permit
work_context h call none phases = some invalid
work_context h call (some permit) phases = elim permit.context [
  | none ↦ some invalid
  | some ctx ↦ elim (check_context call) [
    | some e ↦ some e
    | none ↦ work_permit h ctx permit phases
  ]
]
