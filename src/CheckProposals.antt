-- ===== src/CheckProposals.antt =====
-- services/check_proposal_gate.py: the tests of the gate for proposals of checks. A dry run is a
-- function of the number of the runs before it, so two runs of a command may differ.
pub mod Paths
pub mod Soundness
pub mod Loop
pub mod Filtering
use Prim.Native.String
use hungerloop.Prelude.{
  ℕ, suc, String, Bool, true, false, ◌&&◌, Option, none, some, List, [], ◌∷◌, ◌++◌, ◌==◌, not, any,
  string_eq, if◌then◌else◌, contains,
}
use hungerloop.Models.Enums.{AcceptanceCheckType}
use hungerloop.Models.Synthesis.{
  Param, missing, mistyped, given, Argument, text, other, CheckProposal, Python,
  normalize_executable, compute_dedup_key,
}
use hungerloop.CheckProposals.Paths.{is_unsafe_path}

pub data DryRunFailureKind : Type 0 where
  syntax_error setup_error timeout : DryRunFailureKind

pub record DryRunResult : Type 0 where
  pub passed : Bool
  pub failure_kind : Option DryRunFailureKind

pub record RejectedProposal : Type 0 where
  pub proposal : CheckProposal
  pub reason : String
  pub dedup_key : String

-- A gate, with the options of a call of `filter`.
pub record CheckProposalGate : Type 0 where
  pub python : Python
  pub dry_runner : Option (ℕ → List Argument → DryRunResult)
  pub allowlist : List String
  pub require_fixture : Bool
  pub defer_fixture_precheck : Bool

kind_value : DryRunFailureKind → String
kind_value syntax_error = "syntax_error"
kind_value setup_error = "setup_error"
kind_value timeout = "timeout"

unfoldable pub assertion_not_executable_reason : DryRunResult → Option String
unfolding kind_value
assertion_not_executable_reason result = elim result.failure_kind [
  | none ↦ none
  | some kind ↦ some (String.◌++◌ "assertion_not_executable:" (kind_value kind))
]

-- A verdict with a reason to reject, or none, and the number of dry runs so far.
abbrev pub Verdict : Type 0
Verdict = Option String × ℕ

-- The next test, unless there is a reason already.
unfoldable pub and_then : Verdict → (ℕ → Verdict) → Verdict
and_then (some reason, runs) next = (some reason, runs)
and_then (none, runs) next = next runs

abbrev pub same_outcome : Bool → Bool → Bool
same_outcome a b = if a then b else not b

unfoldable pub same_kind : Option DryRunFailureKind → Option DryRunFailureKind → Bool
same_kind none none = true
same_kind (some syntax_error) (some syntax_error) = true
same_kind (some setup_error) (some setup_error) = true
same_kind (some timeout) (some timeout) = true
same_kind _ _ = false

-- The verdict on a command from two runs.
unfoldable pub dry_run_twice :
    Option (ℕ → List Argument → DryRunResult) → List Argument → ℕ → Verdict
dry_run_twice none command runs = (some "no_dry_runner", runs)
dry_run_twice (some run) command runs =
    let first = run runs command in
    let second = run (suc runs) command in
    and_then (assertion_not_executable_reason first, suc runs)
      (λ runs.
        and_then (assertion_not_executable_reason second, suc runs)
          (λ runs.
            if same_outcome first.passed second.passed
            then (none, runs)
            else (some "nondeterministic", runs)))

module _ (gate : CheckProposalGate) where
  is_blank : Argument → Bool
  is_blank other = true
  is_blank (text s) = gate.python.strip s == ""

  unfoldable pub validate_argv : Param (List Argument) → Option String
  unfolding is_blank
  validate_argv missing = some "invalid_argv:missing"
  validate_argv mistyped = some "invalid_argv:missing"
  validate_argv (given []) = some "invalid_argv:missing"
  validate_argv (given (other ∷ arguments)) = some "invalid_argv:non_string_or_empty"
  validate_argv (given (text s ∷ arguments)) =
      if any is_blank (text s ∷ arguments)
      then some "invalid_argv:non_string_or_empty"
      else if not (contains gate.allowlist (normalize_executable gate.python s))
      then some "non_allowlisted_command"
      else none

  unfoldable pub python_inline_syntax_reason : Param (List Argument) → Option String
  python_inline_syntax_reason (given (text s ∷ text flag ∷ text program ∷ arguments)) =
      if not (normalize_executable gate.python s == "python")
      then none
      else if not (flag == "-c")
      then none
      else if gate.python.compiles program
      then none
      else some "assertion_not_executable:syntax_error"
  python_inline_syntax_reason _ = none

  unfoldable pub dry_run_fixture : List Argument → ℕ → Verdict
  dry_run_fixture command runs = elim gate.dry_runner [
    | none ↦ (some "no_dry_runner", runs)
    | some run ↦
        let first = run runs command in
        let second = run (suc runs) command in
        if not (same_outcome first.passed second.passed)
        then (some "fixture_nondeterministic", suc (suc runs))
        else if not (same_kind first.failure_kind second.failure_kind)
        then (some "fixture_nondeterministic", suc (suc runs))
        else if not first.passed
        then (some "fixture_setup_failed", suc (suc runs))
        else (none, suc (suc runs))
  ]

  abbrev script : String
  script =
      "import json, subprocess, sys\nfor command in json.loads(sys.argv[1]):\n    result = subprocess.run(command)\n    if result.returncode:\n        raise SystemExit(result.returncode)\n"

  -- `params.get("argv", [])`
  abbrev argv_of : Param (List Argument) → List Argument
  argv_of (given argv) = argv
  argv_of _ = []

  -- The command that is run twice: the argv, after the fixture if there is one.
  unfoldable pub command_of : CheckProposal → List Argument
  command_of proposal = elim proposal.fixture_argv [
    | none ↦ argv_of proposal.argv
    | some fixture ↦
        text "python"
        ∷ text "-c"
        ∷ text script
        ∷ text (gate.python.dumps (fixture ∷ argv_of proposal.argv ∷ []))
        ∷ []
  ]

  unfoldable pub validate_fixture : CheckProposal → Option String
  validate_fixture proposal = elim proposal.fixture_argv [
    | none ↦ if gate.require_fixture then some "missing_fixture" else none
    | some fixture ↦ elim (validate_argv (given fixture)) [
      | some reason ↦ some reason
      | none ↦ elim (python_inline_syntax_reason (given fixture)) [
        | some reason ↦ some "fixture_setup_failed"
        | none ↦ none
      ]
    ]
  ]

  unfoldable pub precheck_fixture : CheckProposal → ℕ → Verdict
  precheck_fixture proposal runs = elim proposal.fixture_argv [
    | none ↦ (none, runs)
    | some fixture ↦ dry_run_fixture fixture runs
  ]

  unfoldable pub examine_shell_proposal : CheckProposal → ℕ → Verdict
  examine_shell_proposal proposal runs =
      and_then (validate_argv proposal.argv, runs)
        (λ runs.
          and_then (python_inline_syntax_reason proposal.argv, runs)
            (λ runs.
              and_then (validate_fixture proposal, runs)
                (λ runs.
                  if gate.defer_fixture_precheck
                  then (none, runs)
                  else and_then (precheck_fixture proposal runs)
                      (dry_run_twice gate.dry_runner (command_of proposal)))))

  unfoldable pub validate_file_proposal : Param String → Option String
  validate_file_proposal (given path) = is_unsafe_path path
  validate_file_proposal _ = some "invalid_argv:non_string_or_empty"

  -- The tests after the one for a duplicate.
  unfoldable pub examine : CheckProposal → ℕ → Verdict
  examine proposal runs = elim proposal.check_type [
    | AcceptanceCheckType.file_exists ↦ (validate_file_proposal proposal.path, runs)
    | AcceptanceCheckType.shell_exit_zero ↦ examine_shell_proposal proposal runs
    | _ ↦ (some "unsupported_check_type", runs)
  ]
