-- ===== src/ValidationGate/Confirmation.antt =====
-- `_confirm_regressions` of services/validation_gate.py: the reruns of regressed checks.
use hungerloop.Prelude.{
  ℕ, zero, suc, String, Bool, true, false, Option, none, some, List, [], ◌∷◌, ◌++◌, Dict, lookup,
  any, all, is_empty, ◌&&◌, not, ◌==◌, string_eq, if◌then◌else◌, leb, and_then,
}
use hungerloop.CheckKey.{print_index}
use Prim.Native.String.{◌++◌ as ◌<>◌}
use hungerloop.Models.Hunger.{AcceptanceCheck}
use hungerloop.Models.Validation.{CheckResult}
use hungerloop.ValidationGate.{GateState, RunResult, Runner, passes}

-- The confirmation runs of one check: they end with the first that fails or raises.
unfoldable pub confirm_runs : Runner → AcceptanceCheck → ℕ → ℕ → List RunResult
confirm_runs runner check zero runs = []
confirm_runs runner check (suc left) runs =
    let run = runner check runs in
    let rest = confirm_runs runner check left (suc runs) in
    if passes run then run ∷ rest else run ∷ []

unfoldable pub evidence_of : List RunResult → List String
evidence_of [] = []
evidence_of (run ∷ runs) =
    let rest = evidence_of runs in
    elim run.evidence_id [ none ↦ rest | some ev_id ↦ if ev_id == "" then rest else ev_id ∷ rest ]

-- `ids[-1] if ids else default`
abbrev pub last_or : List String → Option String → Option String
last_or [] default = default
last_or (x ∷ xs) default = last_or xs (some x)

-- What a regressed result becomes when all its confirmation runs pass.
unfoldable pub disconfirm : ℕ → CheckResult → List RunResult → CheckResult
unfolding evidence_of print_index
disconfirm max_reruns result confirmations = record result {
  passed = true;
  regressed = false;
  detail =
      ((result.detail <> "; flaky: passed all ") <> print_index max_reruns)
      <> " confirmation reruns";
  evidence_id = last_or (evidence_of confirmations) result.evidence_id;
}

-- `confirmation_results and all(passed …)`
unfoldable pub is_disconfirmed : List RunResult → Bool
unfolding all
is_disconfirmed confirmations = not (is_empty confirmations) && all passes confirmations

pub record Confirmed : Type 0 where
  pub results : List CheckResult
  pub evidence_ids : List String
  -- The keys of the results that were cleared, one event for each.
  pub cleared : List String
  pub runs : ℕ

abbrev pub count_runs : List RunResult → ℕ → ℕ
count_runs [] runs = runs
count_runs (run ∷ rest) runs = count_runs rest (suc runs)

abbrev pub keep_result : CheckResult → Confirmed → Option Confirmed
keep_result result c = some (record c { results = result ∷ c.results })

-- The result after its confirmation runs, before what the rest of the loop leaves.
unfoldable pub settle_result : ℕ → CheckResult → List RunResult → Confirmed → Option Confirmed
unfolding is_disconfirmed disconfirm evidence_of
settle_result max_reruns result confirmations c =
    let cleared = is_disconfirmed confirmations in
    some (record {
      results =
          (if cleared then disconfirm max_reruns result confirmations else result) ∷ c.results;
      evidence_ids = evidence_of confirmations ++ c.evidence_ids;
      cleared = if cleared then result.check_key ∷ c.cleared else c.cleared;
      runs = c.runs;
    })

-- The loop of `_confirm_regressions`, for a positive number of reruns. `none` is the KeyError of
-- a result whose check is unknown, or what a run raised.
unfoldable pub confirm_each :
    Runner → ℕ → Dict String AcceptanceCheck → List CheckResult → ℕ → Option Confirmed
unfolding lookup confirm_runs settle_result
confirm_each runner max_reruns checks_by_key [] runs =
    some (record { results = []; evidence_ids = []; cleared = []; runs = runs })
confirm_each runner max_reruns checks_by_key (result ∷ rest) runs =
    let skipped =
      and_then (confirm_each runner max_reruns checks_by_key rest runs) (keep_result result) in
    let rerun : AcceptanceCheck → Option Confirmed = λ check.
      let confirmations = confirm_runs runner check max_reruns runs in
      let confirmed =
        and_then (confirm_each runner max_reruns checks_by_key rest (count_runs confirmations runs))
          (settle_result max_reruns result confirmations) in
      if any (λ run. run.raised) confirmations then none else confirmed in
    if result.regressed then and_then (lookup result.check_key checks_by_key) rerun else skipped

unfoldable pub confirm_regressions : Runner → ℕ → GateState → Option Confirmed
unfolding confirm_each any
confirm_regressions runner max_reruns state =
    let untouched : Confirmed = record {
      results = state.results;
      evidence_ids = [];
      cleared = [];
      runs = state.runs;
    } in
    if not (any (λ r. r.regressed) state.results)
    then some untouched
    else if leb max_reruns 0
    then some untouched
    else confirm_each runner max_reruns state.checks_by_key state.results state.runs
