-- ===== src/CommitSelection.antt =====
-- services/commit_selection.py: which of several candidates is promoted, without reading a score.
pub mod Order
use hungerloop.Prelude.{
  ℕ, String, Bool, true, false, Option, none, some, List, [], ◌∷◌, map, filter, dedupe, length,
  is_empty, not, ◌&&◌, ltb, leb, ◌==◌, nat_eq, string_eq, str_leb, if◌then◌else◌, Floats,
  float_zero,
}
use hungerloop.Prelude.Sorting.{head?, sort_by}
use hungerloop.Models.Enums.{ValidationVerdict, is_passing}
use hungerloop.Models.Validation.{CheckResult, ValidationReport}

pub record CandidateEvaluation (R : Type 0) : Type 0 where
  pub candidate_id : String
  pub newly_passed_check_keys : List String
  pub failing_check_keys : List String
  pub regressed_check_keys : List String
  pub missing_evidence : List String
  pub verdict : ValidationVerdict
  pub score : R

module _ {R : Type 0} where
  unfoldable pub passes_gate : CandidateEvaluation R → Bool
  passes_gate evaluation =
      if not (is_passing evaluation.verdict)
      then false
      else if is_empty evaluation.newly_passed_check_keys
      then false
      else if not (is_empty evaluation.regressed_check_keys)
      then false
      else is_empty evaluation.missing_evidence

  -- `len(set(newly_passed))` and `len(set(failing))`
  unfoldable pub unique_newly_passed : CandidateEvaluation R → ℕ
  unique_newly_passed ev = length (dedupe ev.newly_passed_check_keys)

  unfoldable pub unique_failing : CandidateEvaluation R → ℕ
  unique_failing ev = length (dedupe ev.failing_check_keys)

  -- `sort_key(a) <= sort_key(b)` of the tuples `(-newly, failing, id)`
  unfoldable pub key_leb : CandidateEvaluation R → CandidateEvaluation R → Bool
  key_leb a b =
      if ltb (unique_newly_passed b) (unique_newly_passed a)
      then true
      else if ltb (unique_newly_passed a) (unique_newly_passed b)
      then false
      else if ltb (unique_failing a) (unique_failing b)
      then true
      else if ltb (unique_failing b) (unique_failing a)
      then false
      else str_leb a.candidate_id b.candidate_id

  unfoldable pub select_commit_candidate :
      List (CandidateEvaluation R) → Option (CandidateEvaluation R)
  select_commit_candidate evaluations = head? (sort_by key_leb (filter passes_gate evaluations))

  unfoldable pub select_fallback_base :
      List (CandidateEvaluation R) → Option (CandidateEvaluation R)
  select_fallback_base evaluations = head? (sort_by key_leb evaluations)

module _ {R : Type 0} ⦃fl : Floats R⦄ where
  unfoldable pub evaluation_from_validation_report :
      String → ValidationReport → CandidateEvaluation R
  evaluation_from_validation_report candidate_id report = record {
    candidate_id = candidate_id;
    newly_passed_check_keys = report.newly_passed_check_keys;
    failing_check_keys = map (λ r. r.check_key) (filter (λ r. not r.passed) report.check_results);
    regressed_check_keys = report.regressed_check_keys;
    missing_evidence = report.missing_evidence;
    verdict = report.verdict;
    score = float_zero;
  }
