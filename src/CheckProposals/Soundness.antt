-- ===== src/CheckProposals/Soundness.antt =====
-- services/check_proposal_gate.py: what the tests of the gate say of a proposal that passes them.
use hungerloop.Prelude.{
  ℕ, suc, if◌then◌else◌, String, Bool, false, Option, none, some, List, string_eq, ◌≡◌, refl, arith,
}
use hungerloop.Models.Enums.{AcceptanceCheckType}
use hungerloop.Models.Synthesis.{Argument, CheckProposal, Param, missing, mistyped, given}
use hungerloop.CheckProposals.{
  CheckProposalGate, DryRunResult, Verdict, and_then, assertion_not_executable_reason, same_outcome,
  validate_argv, dry_run_twice, command_of, examine_shell_proposal, validate_file_proposal, examine,
  python_inline_syntax_reason, validate_fixture, precheck_fixture,
}
use hungerloop.CheckProposals.Paths.{IsSafePath, is_unsafe_path-none}

and_then-none :
    (verdict : Verdict) (next : ℕ → Verdict)
    → (and_then verdict next).0 ≡ none
    → (verdict.0 ≡ none) × ((next verdict.1).0 ≡ none)
unfolding and_then
and_then-none (some reason, runs) next h = absurd (ground (arith, h))
and_then-none (none, runs) next h = (refl, h)

executable_kind :
    (result : DryRunResult)
    → assertion_not_executable_reason result ≡ none
    → result.failure_kind ≡ none
unfolding assertion_not_executable_reason
executable_kind result h = ground (arith, h)

-- Two runs of a command, one after the other, in which it could be executed, with one outcome.
pub record IsReproduced (runner : Option (ℕ → List Argument → DryRunResult))
    (command : List Argument) : Type 0 where
  pub run : ℕ → List Argument → DryRunResult
  pub is_run : runner ≡ some run
  pub runs : ℕ
  pub first : (run runs command).failure_kind ≡ none
  pub second : (run (suc runs) command).failure_kind ≡ none
  pub outcome : (run runs command).passed ≡ (run (suc runs) command).passed

one_outcome :
    (a b : Bool) (runs : ℕ)
    → let verdict : Verdict =
        if same_outcome a b then (none, runs) else (some "nondeterministic", runs) in
      verdict.0 ≡ none → a ≡ b
one_outcome a b runs h = ground (arith, h)

dry_run_twice-none :
    (runner : Option (ℕ → List Argument → DryRunResult)) (command : List Argument) (runs : ℕ)
    → (dry_run_twice runner command runs).0 ≡ none
    → IsReproduced runner command
unfolding dry_run_twice
dry_run_twice-none none command runs h = absurd (ground (arith, h))
dry_run_twice-none (some run) command runs h =
    let first = run runs command in
    let second = run (suc runs) command in
    let (a, k) = and_then-none (assertion_not_executable_reason first, suc runs) _ h in
    let (b, l) = and_then-none (assertion_not_executable_reason second, suc (suc runs)) _ k in
    record {
      run = run;
      is_run = refl;
      runs = runs;
      first = executable_kind first a;
      second = executable_kind second b;
      outcome = one_outcome first.passed second.passed (suc (suc runs)) l;
    }

module _ (gate : CheckProposalGate) where
  -- What the gate promises of a proposal that it accepts.
  pub data IsSound (proposal : CheckProposal) : Type 0 where
    file :
        (path : String)
        → proposal.check_type ≡ AcceptanceCheckType.file_exists
        → proposal.path ≡ given path
        → IsSafePath path
        → IsSound proposal
    shell :
        proposal.check_type ≡ AcceptanceCheckType.shell_exit_zero
        → validate_argv gate proposal.argv ≡ none
        → (gate.defer_fixture_precheck ≡ false
            → IsReproduced gate.dry_runner (command_of gate proposal))
        → IsSound proposal

  undeferred :
      (b : Bool) (verdict : Verdict) (runs : ℕ)
      → let rest : Verdict = if b then (none, runs) else verdict in
        rest.0 ≡ none → b ≡ false → verdict.0 ≡ none
  undeferred b verdict runs h e = ground (arith, h, e)

  examine_shell-IsSound :
      (proposal : CheckProposal) (runs : ℕ)
      → proposal.check_type ≡ AcceptanceCheckType.shell_exit_zero
      → (examine_shell_proposal gate proposal runs).0 ≡ none
      → IsSound proposal
  unfolding examine_shell_proposal
  examine_shell-IsSound proposal runs t h =
      let (valid, h₁) = and_then-none (validate_argv gate proposal.argv, runs) _ h in
      let h₂ = (and_then-none (python_inline_syntax_reason gate proposal.argv, runs) _ h₁).1 in
      let h₃ = (and_then-none (validate_fixture gate proposal, runs) _ h₂).1 in
      let checked = precheck_fixture gate proposal runs in
      let command = command_of gate proposal in
      IsSound.shell t valid (λ e.
        let h₄ =
          undeferred gate.defer_fixture_precheck
            (and_then checked (dry_run_twice gate.dry_runner command)) runs h₃ e in
        let h₅ = (and_then-none checked _ h₄).1 in
        dry_run_twice-none gate.dry_runner command checked.1 h₅)

  validate_file-none :
      (path : Param String)
      → validate_file_proposal gate path ≡ none
      → (p : String) × (path ≡ given p) × IsSafePath p
  unfolding validate_file_proposal
  validate_file-none missing h = absurd (ground (arith, h))
  validate_file-none mistyped h = absurd (ground (arith, h))
  validate_file-none (given p) h = (p, refl, is_unsafe_path-none p h)

  pub examine-IsSound :
      (proposal : CheckProposal) (runs : ℕ) (type : AcceptanceCheckType)
      → proposal.check_type ≡ type
      → (examine gate proposal runs).0 ≡ none
      → IsSound proposal
  unfolding examine
  examine-IsSound proposal runs AcceptanceCheckType.file_exists e h =
      let (p, given_path, safe) = validate_file-none proposal.path (ground (arith, e, h)) in
      IsSound.file p e given_path safe
  examine-IsSound proposal runs AcceptanceCheckType.shell_exit_zero e h =
      examine_shell-IsSound proposal runs e (ground (arith, e, h))
  examine-IsSound proposal runs AcceptanceCheckType.evidence_count_min e h =
      absurd (ground (arith, e, h))
  examine-IsSound proposal runs AcceptanceCheckType.artifact_type_exists e h =
      absurd (ground (arith, e, h))
  examine-IsSound proposal runs AcceptanceCheckType.human_approval e h =
      absurd (ground (arith, e, h))
  examine-IsSound proposal runs AcceptanceCheckType.llm_judge e h = absurd (ground (arith, e, h))
