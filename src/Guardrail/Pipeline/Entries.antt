-- ===== src/Guardrail/Pipeline/Entries.antt =====
-- core/mcp/guardrail/context.go and audit.go: entries that the audit takes.
use xops_cli.Base.{
  Bool, Bool-cases, In, In-append_left, In-append_right, List, Option, Option-cases, String, [],
  arith, false, here, inl, inr, none, refl, some, true, ◌!=◌, ◌++◌, ◌==◌, ◌||◌, ◌∷◌, ◌≡◌, ◌⊎◌,
  nat_eq, string_eq, text_eq,
}
use xops_cli.Guardrail.Policy.{Config}
use xops_cli.Guardrail.Pipeline.Audit.{
  AuditEntry, Guardrail, Writer, file_logger, other_writer, Append, invocation, take_entry,
  write_entry, log,
}

-- The writer writes down what it is given.
unfoldable pub writes : Writer → Bool
writes (file_logger none) = false
writes (file_logger (some path)) = path != ""
writes other_writer = true

-- The destination writes down what it is given, unless it is a logger without a path.
unfoldable pub records : Guardrail → Bool
unfolding writes
records g = g.sink || elim g.writer [ none ↦ true | some w ↦ writes w ]

take-cases :
    (append : Append) (before : List AuditEntry) (e : AuditEntry) (after : List AuditEntry)
    → take_entry append before e ≡ some after
    → after ≡ before ++ e ∷ []
unfolding take_entry
take-cases append before e after h = ground arith

write-cases :
    (append : Append) (w : Writer) (before : List AuditEntry) (e : AuditEntry)
    (after : List AuditEntry)
    → write_entry append w before e ≡ some after
    → (after ≡ before ++ e ∷ []) ⊎ ((after ≡ before) × (writes w ≡ false))
unfolding write_entry writes
write-cases append (file_logger none) before e after h = inr (ground arith, refl)
write-cases append (file_logger (some path)) before e after h = elim (Bool-cases (path == "")) [
  | inl f ↦ inr (ground arith, ground arith)
  | inr f ↦ inl (take-cases append before e after (ground arith))
]
write-cases append other_writer before e after h = inl (take-cases append before e after h)

log-cases :
    (append : Append) (g : Guardrail) (scope : Option (Config × String)) (done : Bool)
    (before : List AuditEntry) (e : AuditEntry) (after : List AuditEntry)
    → log append g scope done before e ≡ some after
    → (after ≡ before ++ record e { binding = (invocation g scope).2 } ∷ [])
      ⊎ ((after ≡ before) × (records g ≡ false))
unfolding log records
log-cases append g scope done before e after h =
    let bound : AuditEntry = record e { binding = (invocation g scope).2 } in
    elim (Bool-cases g.sink) [
      | inl s ↦ inl (take-cases append before bound after (ground (arith, s)))
      | inr s ↦ elim (Option-cases g.writer) [
        | inl n ↦ absurd (ground (arith, s, n))
        | inr (w, k) ↦ elim (write-cases append w before bound after (ground (arith, s, k))) [
          | inl a ↦ inl a
          | inr (same, idle) ↦ inr (same, ground (arith, s, k, idle))
        ]
      ]
    ]

pub record Logged (g : Guardrail) (e : AuditEntry) (before after : List AuditEntry) : Type 0 where
  pub taken : records g ≡ true → In e after
  pub grown : (x : AuditEntry) → In x before → In x after

pub log-Logged :
    (append : Append) (g : Guardrail) (scope : Option (Config × String)) (done : Bool)
    (before : List AuditEntry) (e : AuditEntry) (after : List AuditEntry)
    → log append g scope done before e ≡ some after
    → Logged g (record e { binding = (invocation g scope).2 }) before after
log-Logged append g scope done before e after h =
    elim (log-cases append g scope done before e after h) [
      | inl same ↦ record {
        taken = λ r. rw same (In-append_right before here);
        grown = λ x m. rw same (In-append_left _ m);
      }
      | inr (same, idle) ↦ record { taken = λ r. absurd (ground arith); grown = λ x m. rw same m }
    ]
