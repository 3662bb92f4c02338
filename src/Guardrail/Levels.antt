-- ===== src/Guardrail/Levels.antt =====
-- core/mcp/guardrail/analyzer.go and risk.go: what bounds the levels.
use xops_cli.Base.{
  ==→eq, Bool-cases, In, List, String, [], any-false-In, arith, codes, false, here, if◌then◌else◌,
  inl, inr, ltb, refl, sym, tests, there, trim_space, true, ℕ, ◌!=◌, ◌&&◌, ◌==◌, ◌∙◌, ◌∷◌, ◌≡◌, ◌≢◌,
  ◌≤◌, ◌⊎◌, nat_eq, string_eq, text_eq,
}
use xops_cli.Guardrail.Risk.{RiskLevel, safe, dangerous, rank, RiskInput, Platform}
use xops_cli.Guardrail.Analyzer.{
  analyze_command_with_dialect, analyze_paths, analyze_paths_from, analyze_single_path, is_blocked,
  is_dangerous, dangerous_patterns, contains_chaining, is_read_only_invocation,
}
use xops_cli.Guardrail.Classify.{classify, classify_base, classify_terminal}

rank_inj : (r s : RiskLevel) → rank r ≡ rank s → r ≡ s
unfolding rank
rank_inj r s h = ground arith

rank-le : (r : RiskLevel) → rank r ≤ 2
unfolding rank
rank-le r = ground arith

module _ (p : Platform) where
  -- The level is above the start and every path, and is the start or one of the paths' own.
  abbrev IsMaximum : RiskLevel → List String → RiskLevel → Type 0
  IsMaximum start paths level =
      (rank start ≤ rank level)
      × ((path : String) → In path paths → rank (analyze_single_path p path) ≤ rank level)
      × ((level ≡ start) ⊎ ((path : String) × In path paths × (level ≡ analyze_single_path p path)))

  abbrev higher : RiskLevel → String → RiskLevel
  higher level path =
      if ltb (rank level) (rank (analyze_single_path p path))
      then analyze_single_path p path
      else level

  higher_bounds :
      (level : RiskLevel) (path : String)
      → (rank level ≤ rank (higher level path))
        × (rank (analyze_single_path p path) ≤ rank (higher level path))
        × ((higher level path ≡ level) ⊎ (higher level path ≡ analyze_single_path p path))
  higher_bounds level path =
      elim (Bool-cases (ltb (rank level) (rank (analyze_single_path p path)))) [
        | inl e ↦ rw e (omega tests, omega arith, inr refl)
        | inr e ↦ rw e (omega arith, ground arith, inl refl)
      ]

  IsMaximum-cons :
      (start : RiskLevel) (path : String) (paths : List String) (level : RiskLevel)
      → IsMaximum (higher start path) paths level
      → IsMaximum start (path ∷ paths) level
  IsMaximum-cons start path paths level (low, each, from) =
      (omega (arith, higher_bounds start path), each_path, attained from)
    where
      each_path : (q : String) → In q (path ∷ paths) → rank (analyze_single_path p q) ≤ rank level
      each_path q here = omega (arith, higher_bounds start path)
      each_path q (there m) = each q m

      attained :
          (level ≡ higher start path)
            ⊎ ((q : String) × In q paths × (level ≡ analyze_single_path p q))
          → (level ≡ start)
            ⊎ ((q : String) × In q (path ∷ paths) × (level ≡ analyze_single_path p q))
      attained (inr (q, m, e)) = inr (q, there m, e)
      attained (inl e) = elim (higher_bounds start path).2 [
        | inl f ↦ inl (e ∙ f)
        | inr f ↦ inr (path, here, e ∙ f)
      ]

  top_stays : (r s : RiskLevel) → rank r ≡ rank dangerous → rank r ≤ rank s → s ≡ dangerous
  top_stays r s e h = rank_inj s dangerous (unfold rank in omega (arith, rank-le s))

  -- The early return changes nothing.
  analyze_paths_from-cons :
      (start : RiskLevel) (path : String) (paths : List String)
      → rank (higher start path) ≤ rank (analyze_paths_from p (higher start path) paths)
      → analyze_paths_from p start (path ∷ paths) ≡ analyze_paths_from p (higher start path) paths
  unfolding analyze_paths_from
  analyze_paths_from-cons start path paths low =
      elim (Bool-cases (rank (higher start path) == rank dangerous)) [
        | inl e ↦ rw e (
            sym (
              top_stays (higher start path) (analyze_paths_from p (higher start path) paths)
                (==→eq (rank (higher start path)) (rank dangerous) e) low))
        | inr e ↦ rw e
      ]

  analyze_paths_from-IsMaximum :
      (start : RiskLevel) (paths : List String)
      → IsMaximum start paths (analyze_paths_from p start paths)
  analyze_paths_from-IsMaximum start [] =
      unfold analyze_paths_from in (omega arith, λ q m. elim m [ ], inl refl)
  analyze_paths_from-IsMaximum start (path ∷ paths) =
      let rest = analyze_paths_from-IsMaximum (higher start path) paths in
      rw (analyze_paths_from-cons start path paths rest.0) (IsMaximum-cons start path paths _ rest)

  -- The risk of the paths is the highest of theirs: none exceeds it, and it is safe or the risk of
  -- one of them.
  pub analyze_paths-IsMaximum :
      (paths : List String)
      → ((path : String)
          → In path paths
          → rank (analyze_single_path p path) ≤ rank (analyze_paths p paths))
        × ((analyze_paths p paths ≡ safe)
            ⊎ ((path : String) × In path paths
                × (analyze_paths p paths ≡ analyze_single_path p path)))
  unfolding analyze_paths
  analyze_paths-IsMaximum paths = let m = analyze_paths_from-IsMaximum safe paths in (m.1, m.2)

  not_dangerous :
      (s : List ℕ) {pattern : String}
      → is_dangerous p s ≡ false
      → In pattern dangerous_patterns
      → p.regexp_match pattern s ≡ false
  unfolding is_dangerous
  not_dangerous s h m = any-false-In (λ pat. p.regexp_match pat s) h m

  known_dialect :
      (dialect : String)
      → (dialect != "" && dialect != "posix") ≡ false
      → (dialect ≡ "") ⊎ (dialect ≡ "posix")
  known_dialect dialect h = ground (arith, ==→eq dialect "", ==→eq dialect "posix")

  safe_tests :
      (cmd dialect : String)
      → analyze_command_with_dialect p cmd dialect ≡ safe
      → cmd ≢ ""
      → (is_blocked p (trim_space (codes cmd)) ≡ false)
        × (is_dangerous p (trim_space (codes cmd)) ≡ false)
        × (contains_chaining (trim_space (codes cmd)) ≡ false)
        × ((dialect ≡ "") ⊎ (dialect ≡ "posix"))
        × (is_read_only_invocation (codes cmd) ≡ true)
  unfolding analyze_command_with_dialect
  safe_tests cmd dialect h ne = ground (arith, ==→eq cmd "", known_dialect dialect)

  -- The level of an invocation is the higher one of its base level and its paths' level.
  pub classify-max :
      (input : RiskInput)
      → (rank (classify_base p input) ≤ rank (classify p input))
        × (rank (analyze_paths p input.paths) ≤ rank (classify p input))
        × ((classify p input ≡ classify_base p input)
            ⊎ (classify p input ≡ analyze_paths p input.paths))
  unfolding classify
  classify-max input =
      elim (Bool-cases (ltb (rank (classify_base p input)) (rank (analyze_paths p input.paths)))) [
        | inl e ↦ rw e (omega tests, omega arith, inr refl)
        | inr e ↦ rw e (omega arith, ground arith, inl refl)
      ]

  base_of_terminal :
      (input : RiskInput)
      → input.tool_name ≡ "terminal"
      → rank (classify_base p input) ≡ rank (classify_terminal p input)
  unfolding classify_base
  base_of_terminal input t = rw t refl

  sudo_terminal :
      (input : RiskInput)
      → input.sudo ≡ true
      → (input.command ≢ "") ⊎ (input.action ≢ "poll")
      → 1 ≤ rank (classify_terminal p input)
  unfolding classify_terminal
  sudo_terminal input s h = ground (arith, ==→eq input.command "", ==→eq input.action "poll")

  -- A terminal call with sudo is never safe, but for a poll without a command.
  pub sudo_not_safe :
      (input : RiskInput)
      → input.tool_name ≡ "terminal"
      → input.sudo ≡ true
      → (input.command ≢ "") ⊎ (input.action ≢ "poll")
      → 1 ≤ rank (classify p input)
  sudo_not_safe input t s h =
      omega (arith, classify-max input, base_of_terminal input t, sudo_terminal input s h)
