-- ===== src/Samples/Proposals.antt =====
-- Examples of proposals of checks.
use hungerloop.Prelude.{
  ℕ, String, Bool, true, false, Option, none, some, List, [], ◌∷◌, map, nodup, contains, string_eq,
  ◌≡◌, refl, ltb,
}
use hungerloop.Models.Enums.{AcceptanceCheckType}
use hungerloop.Models.Synthesis.{
  Param, missing, mistyped, given, Argument, text, other, CheckProposal, Python,
}
use hungerloop.CheckProposals.{CheckProposalGate, DryRunResult}
use hungerloop.CheckProposals.Loop.{FilterState, filter_proposals}
use hungerloop.CheckProposals.Filtering.{Filtered, filter_proposals_lem, dedup_key_of}

abbrev python : Python
python = record {
  strip = λ s. s;
  lower = λ s. s;
  repr_params = λ p. "params";
  dumps = λ commands. "[]";
  compiles = λ program. true;
}

-- A runner whose first three runs fail.
abbrev run : ℕ → List Argument → DryRunResult
run runs command = record { passed = ltb 2 runs; failure_kind = none }

abbrev gate : CheckProposalGate
gate = record {
  python = python;
  dry_runner = some run;
  allowlist = "python" ∷ [];
  require_fixture = false;
  defer_fixture_precheck = false;
}

abbrev file_proposal : String → CheckProposal
file_proposal path = record {
  check_type = AcceptanceCheckType.file_exists;
  argv = missing;
  path = given path;
  fixture_argv = none;
}

abbrev shell_proposal : String → CheckProposal
shell_proposal argument = record {
  check_type = AcceptanceCheckType.shell_exit_zero;
  argv = given (text "python3" ∷ text argument ∷ []);
  path = missing;
  fixture_argv = none;
}

abbrev proposals : List CheckProposal
proposals =
    file_proposal "a/b"
    ∷ file_proposal "./a//b"
    ∷ file_proposal "a/../../b"
    ∷ shell_proposal "x"
    ∷ shell_proposal "y"
    ∷ []

abbrev filtered : FilterState
filtered = filter_proposals gate proposals []

-- The runs of the second command differ.
filtered-accepted : filtered.accepted ≡ file_proposal "a/b" ∷ shell_proposal "x" ∷ []
unfolding filter_proposals hungerloop.CheckProposals.Loop.filter_from
    hungerloop.CheckProposals.Loop.filter_proposal contains hungerloop.CheckProposals.Loop.settle
    hungerloop.CheckProposals.examine hungerloop.CheckProposals.validate_file_proposal
    hungerloop.CheckProposals.Paths.is_unsafe_path hungerloop.CheckProposals.Paths.has_nul
    hungerloop.CheckProposals.Paths.is_absolute_path hungerloop.CheckProposals.Paths.has_traversal
    hungerloop.CheckProposals.Paths.split_slashes hungerloop.Models.Synthesis.replace_backslashes
    hungerloop.CheckProposals.Loop.accept hungerloop.Models.Synthesis.compute_dedup_key
    hungerloop.Models.Synthesis.path_key hungerloop.Models.Synthesis.normalize_path
    hungerloop.CheckProposals.Loop.reject hungerloop.CheckProposals.and_then
    hungerloop.CheckProposals.assertion_not_executable_reason hungerloop.CheckProposals.command_of
    hungerloop.CheckProposals.dry_run_fixture hungerloop.CheckProposals.dry_run_twice
    hungerloop.CheckProposals.examine_shell_proposal hungerloop.CheckProposals.precheck_fixture
    hungerloop.CheckProposals.python_inline_syntax_reason hungerloop.CheckProposals.same_kind
    hungerloop.CheckProposals.validate_argv hungerloop.CheckProposals.validate_fixture
    hungerloop.Models.Synthesis.argv_key hungerloop.Models.Synthesis.normalize_arguments
    hungerloop.Models.Synthesis.normalize_executable hungerloop.Prelude.any
filtered-accepted = refl

filtered-reasons :
    map (λ r. r.reason) filtered.rejected
    ≡ "duplicate" ∷ "unsafe_path:traversal" ∷ "nondeterministic" ∷ []
unfolding filter_proposals hungerloop.CheckProposals.Loop.filter_from
    hungerloop.CheckProposals.Loop.filter_proposal contains hungerloop.CheckProposals.Loop.settle
    hungerloop.CheckProposals.examine hungerloop.CheckProposals.validate_file_proposal
    hungerloop.CheckProposals.Paths.is_unsafe_path hungerloop.CheckProposals.Paths.has_nul
    hungerloop.CheckProposals.Paths.is_absolute_path hungerloop.CheckProposals.Paths.has_traversal
    hungerloop.CheckProposals.Paths.split_slashes hungerloop.Models.Synthesis.replace_backslashes
    hungerloop.CheckProposals.Loop.accept hungerloop.Models.Synthesis.compute_dedup_key
    hungerloop.Models.Synthesis.path_key hungerloop.Models.Synthesis.normalize_path
    hungerloop.CheckProposals.Loop.reject hungerloop.CheckProposals.and_then
    hungerloop.CheckProposals.assertion_not_executable_reason hungerloop.CheckProposals.command_of
    hungerloop.CheckProposals.dry_run_fixture hungerloop.CheckProposals.dry_run_twice
    hungerloop.CheckProposals.examine_shell_proposal hungerloop.CheckProposals.precheck_fixture
    hungerloop.CheckProposals.python_inline_syntax_reason hungerloop.CheckProposals.same_kind
    hungerloop.CheckProposals.validate_argv hungerloop.CheckProposals.validate_fixture
    hungerloop.Models.Synthesis.argv_key hungerloop.Models.Synthesis.normalize_arguments
    hungerloop.Models.Synthesis.normalize_executable hungerloop.Prelude.any
filtered-reasons = refl

filter_proposals_example :
    Filtered gate [] proposals filtered.accepted filtered.rejected
    × (nodup (map (dedup_key_of gate) filtered.accepted) ≡ true)
    × ((key : String)
        → contains (map (dedup_key_of gate) filtered.accepted) key ≡ true
        → contains [] key ≡ false)
filter_proposals_example = filter_proposals_lem gate proposals []
