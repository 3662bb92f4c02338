-- ===== src/Guardrail/Decisions.antt =====
-- When the policy of core/mcp/guardrail/policy.go denies, asks and allows.
use xops_cli.Base.{
  !=→ne, ==→eq, Bool, Bool-cases, In, In-any, In-any-false, List, Option, String, [], and_parts,
  any, any-In, any-false-In, ap, arith, codes, false, here, if◌then◌else◌, inl, inr, ne→!=, none,
  or_cases, refl, some, there, trim_space, true, ℕ, ◌!=◌, ◌&&◌, ◌<◌, ◌==◌, ◌||◌, ◌↔◌, ◌∷◌, ◌≡◌, ◌≢◌,
  ◌⊎◌, nat_eq, string_eq, text_eq,
}
use xops_cli.Guardrail.Risk.{RiskLevel, rank, RiskInput, Platform}
use xops_cli.Guardrail.Analyzer.{is_blocked, blocked_patterns}
use xops_cli.Guardrail.Policy.{
  allow, deny, Config, denied, glob_denies, effective_risk, reaches, threshold_for_node, visits,
  evaluate,
}

-- Why a call must not run.
pub data Denial (p : Platform) (cfg : Config) (input : RiskInput) : Type 0 where
  bad_command :
      {pattern : String}
      → input.tool_name ≡ "terminal"
      → In pattern blocked_patterns
      → p.regexp_match pattern (trim_space (codes input.command)) ≡ true
      → Denial p cfg input
  bad_text :
      {pattern : String}
      → input.text ≢ ""
      → In pattern blocked_patterns
      → p.regexp_match pattern (trim_space (codes input.text)) ≡ true
      → Denial p cfg input
  command_glob :
      {glob : String}
      → In glob cfg.blocked_globs
      → p.glob_match glob input.command ≢ some false
      → Denial p cfg input
  text_glob :
      {glob : String}
      → input.text ≢ ""
      → In glob cfg.blocked_globs
      → p.glob_match glob input.text ≢ some false
      → Denial p cfg input

module _ (p : Platform) where
  is_blocked-In :
      (cmd : List ℕ)
      → is_blocked p cmd ≡ true
      → (pattern : String) × In pattern blocked_patterns
        × (p.regexp_match pattern (trim_space cmd) ≡ true)
  unfolding is_blocked
  is_blocked-In cmd h = any-In (λ pat. p.regexp_match pat (trim_space cmd)) blocked_patterns h

  In-is_blocked :
      (cmd : List ℕ) {pattern : String}
      → In pattern blocked_patterns
      → p.regexp_match pattern (trim_space cmd) ≡ true
      → is_blocked p cmd ≡ true
  unfolding is_blocked
  In-is_blocked cmd m e = In-any (λ pat. p.regexp_match pat (trim_space cmd)) m e

  open_glob : (o : Option Bool) → o ≢ some false → elim o [ none ↦ true | some m ↦ m ] ≡ true
  open_glob none h = refl
  open_glob (some true) h = refl
  open_glob (some false) h = absurd (h refl)

  closed_glob : (o : Option Bool) → elim o [ none ↦ true | some m ↦ m ] ≡ true → o ≢ some false
  closed_glob none h e = cc
  closed_glob (some true) h e = cc
  closed_glob (some false) h e = cc

  module _ (cfg : Config) (input : RiskInput) where
    abbrev candidates : List String
    candidates = input.command ∷ (if input.text != "" then input.text ∷ [] else [])

    candidate-In :
        {x : String}
        → In x candidates
        → (x ≡ input.command) ⊎ ((input.text ≢ "") × (x ≡ input.text))
    candidate-In m = candidate_cases (input.text != "") refl m
      where
        candidate_cases :
            {x : String} (b : Bool)
            → (input.text != "") ≡ b
            → In x (input.command ∷ (if b then input.text ∷ [] else []))
            → (x ≡ input.command) ⊎ ((input.text ≢ "") × (x ≡ input.text))
        candidate_cases b e here = inl refl
        candidate_cases false e (there m') = elim m' [ ]
        candidate_cases true e (there here) = inr (!=→ne input.text "" e, refl)
        candidate_cases true e (there (there m')) = elim m' [ ]

    glob-Denial :
        (glob : String)
        → In glob cfg.blocked_globs
        → glob_denies p candidates glob ≡ true
        → Denial p cfg input
    unfolding glob_denies
    glob-Denial glob m h =
        let (x, in_x, e) =
          any-In (λ text. elim (p.glob_match glob text) [ none ↦ true | some b ↦ b ]) candidates
            h in
        elim (candidate-In in_x) [
          | inl c ↦ command_glob m (rw (← c) (closed_glob (p.glob_match glob x) e))
          | inr (t, c) ↦ text_glob t m (rw (← c) (closed_glob (p.glob_match glob x) e))
        ]

    pattern-Denial :
        ((input.tool_name == "terminal" && is_blocked p (codes input.command))
            || (input.text != "" && is_blocked p (codes input.text)))
          ≡ true
        → Denial p cfg input
    pattern-Denial h = elim (or_cases h) [
      | inl c ↦
          let (e, b) = and_parts c in
          let (pat, m, q) = is_blocked-In (codes input.command) b in
          bad_command (==→eq input.tool_name "terminal" e) m q
      | inr t ↦
          let (e, b) = and_parts t in
          let (pat, m, q) = is_blocked-In (codes input.text) b in
          bad_text (!=→ne input.text "" e) m q
    ]

    denied-Denial : denied p cfg input ≡ true → Denial p cfg input
    unfolding denied
    denied-Denial h = elim (or_cases h) [
      | inl h' ↦ pattern-Denial h'
      | inr g ↦
          let (glob, m, e) = any-In (glob_denies p candidates) cfg.blocked_globs g in
          glob-Denial glob m e
    ]

    In-glob_denied :
        {glob : String}
        → In glob cfg.blocked_globs
        → glob_denies p candidates glob ≡ true
        → denied p cfg input ≡ true
    unfolding denied
    In-glob_denied m e = ground (arith, In-any (glob_denies p candidates) m e)

    Denial-denied : Denial p cfg input → denied p cfg input ≡ true
    unfolding denied glob_denies
    Denial-denied (bad_command t m e) =
        ground (arith, ap (λ s. s == "terminal") t, In-is_blocked (codes input.command) m e)
    Denial-denied (bad_text t m e) =
        ground (arith, ne→!= input.text "" t, In-is_blocked (codes input.text) m e)
    Denial-denied (command_glob {glob = g} m e) =
        In-glob_denied m (ground (arith, open_glob (p.glob_match g input.command) e))
    Denial-denied (text_glob {glob = g} t m e) =
        In-glob_denied m
          (ground (arith, ne→!= input.text "" t, open_glob (p.glob_match g input.text) e))

    not_denied : ¬ Denial p cfg input → denied p cfg input ≡ false
    not_denied h = elim (Bool-cases (denied p cfg input)) [
      | inl e ↦ absurd (h (denied-Denial e))
      | inr e ↦ e
    ]

    -- Every node whose threshold the call must stay below, with the number of the range over the
    -- overrides that looks for it
    abbrev pub covered : List (ℕ × String)
    covered = (0, input.node_id) ∷ visits 1 input.node_ids

    module _ (risk : RiskLevel) where
      abbrev asks : ℕ × String → Bool
      asks (range, node) =
          reaches (effective_risk cfg risk input) (threshold_for_node p cfg range node)

      asks-false :
          (v : ℕ × String)
          → asks v ≡ false
          → rank (effective_risk cfg risk input) < rank (threshold_for_node p cfg (v.0) (v.1))
      unfolding reaches
      asks-false v h = ground arith

      asks_below :
          (v : ℕ × String)
          → rank (effective_risk cfg risk input) < rank (threshold_for_node p cfg (v.0) (v.1))
          → asks v ≡ false
      unfolding reaches
      asks_below v h = ground arith

      allow_tests :
          cfg.enabled ≡ true
          → evaluate p cfg risk input ≡ allow
          → (denied p cfg input ≡ false) × (any asks covered ≡ false)
      unfolding evaluate
      allow_tests on h = ground arith

      tests_allow :
          cfg.enabled ≡ true
          → denied p cfg input ≡ false
          → any asks covered ≡ false
          → evaluate p cfg risk input ≡ allow
      unfolding evaluate
      tests_allow on h k = ground arith

      -- With the guardrail on, a call is denied exactly when there is a reason to deny it.
      pub evaluate-deny_iff :
          cfg.enabled ≡ true → (evaluate p cfg risk input ≡ deny) ↔ Denial p cfg input
      unfolding evaluate
      evaluate-deny_iff on =
          (λ h. denied-Denial (ground arith), λ d. ground (arith, Denial-denied d))

      -- With the guardrail on, a call runs without approval exactly when nothing denies it and its
      -- effective risk stays below the threshold of each node that it covers, as the range over the
      -- overrides finds it that looks for that node.
      pub evaluate-allow_iff :
          cfg.enabled ≡ true
          → (evaluate p cfg risk input ≡ allow) ↔ (
              (¬ Denial p cfg input)
              × ((range : ℕ) (node : String)
                  → In (range, node) covered
                  → rank (effective_risk cfg risk input)
                    < rank (threshold_for_node p cfg range node)))
      evaluate-allow_iff on = (
        λ h. (
          λ d. cc (Denial-denied d, (allow_tests on h).0),
          λ range node m. asks-false (range, node) (any-false-In asks (allow_tests on h).1 m),
        ),
        λ h.
            tests_allow on (not_denied h.0)
              (In-any-false asks covered (λ v m. asks_below v (h.1 (v.0) (v.1) m))),
      )
