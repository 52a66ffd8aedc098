-- ===== src/Conflicts.antt =====
-- services/synthesized_check_lifecycle.py, `resolve_conflicts`, and `record_synthesis_conflict` of
-- services/refinement_compiler.py: a synthesized check that passes while accepted checks regress is
-- counted, and its item is closed when the same conflict comes again.
pub mod Keeping
use Prim.Native.String
use hungerloop.Prelude.{
  ℕ, ◌+◌, String, Bool, true, false, Option, none, some, List, [], ◌∷◌, ◌==◌, string_eq, nat_eq,
  if◌then◌else◌, ◌&&◌, not, filter, all, any, map, contains, dedupe, is_empty, length, leb,
  lookup_or, insert, str_leb, Floats, float_zero, and_then,
}
use hungerloop.Prelude.Sorting.{sort_by}
use hungerloop.Models.Enums.{HungerItemStatus}
use hungerloop.Models.Hunger.{HungerItem}
use hungerloop.Models.Synthesis.{take_text}
use hungerloop.Models.Validation.{CheckResult, ValidationReport}
use hungerloop.Ledgers.{find_item}
use hungerloop.Repository.{Repo, EventBody, append_event, get_hunger_ledger, save_hunger_ledger}

pub record ConflictResolutionResult : Type 0 where
  pub item_id : String
  pub signature : String
  pub occurrence_count : ℕ
  pub quarantined : Bool

-- `sep.join(texts)`
unfoldable pub join_texts : String → List String → String
join_texts sep [] = ""
join_texts sep (x ∷ []) = x
join_texts sep (x ∷ y ∷ xs) = String.◌++◌ x (String.◌++◌ sep (join_texts sep (y ∷ xs)))

-- `passed_by_item.get(item_id, [])`
unfoldable pub results_of : String → List CheckResult → List CheckResult
results_of item_id results = filter (λ r. r.hunger_item_id == item_id) results

module _ {R : Type 0} where
  -- `next(entry for entry in items if entry.id == item_id)`
  unfoldable pub first_item : String → List (HungerItem R) → Option (HungerItem R)
  first_item item_id [] = none
  first_item item_id (item ∷ items) =
      let rest = first_item item_id items in if item.id == item_id then some item else rest

  -- The fields of that entry are assigned.
  unfoldable pub change_first :
      String → (HungerItem R → HungerItem R) → List (HungerItem R) → List (HungerItem R)
  change_first item_id change [] = []
  change_first item_id change (item ∷ items) =
      let rest = change_first item_id change items in
      if item.id == item_id then change item ∷ items else item ∷ rest

  unfoldable pub is_synthesized : HungerItem R → Bool
  is_synthesized item = elim item.generated_by [
    | none ↦ false
    | some maker ↦ maker == "synthesizer"
  ]

  unfoldable pub is_passing_synthesized : List (HungerItem R) → List CheckResult → String → Bool
  is_passing_synthesized items results item_id =
      let of_item = results_of item_id results in
      elim (find_item item_id items) [
        | none ↦ false
        | some item ↦ is_synthesized item && not (is_empty of_item) && all (λ r. r.passed) of_item
      ]

  unfoldable pub emit_ambiguous :
      String → ℕ → List String → List String → List String → Repo R → Repo R
  emit_ambiguous task_id loop_id attempted regressed [] repo = repo
  emit_ambiguous task_id loop_id attempted regressed (item_id ∷ item_ids) repo =
      emit_ambiguous task_id loop_id attempted regressed item_ids (
        append_event (EventBody.synth_check_conflict_ambiguous item_id attempted regressed) task_id
          (some loop_id) repo)

module _ {R : Type 0} ⦃fl : Floats R⦄ where
  -- What a conflict makes of its item.
  unfoldable pub conflicted : String → List String → ℕ → Bool → ℕ → HungerItem R → HungerItem R
  conflicted signature regressed count quarantined loop_id item =
      let counted = record item {
        synthesis_conflict_signatures = insert signature count item.synthesis_conflict_signatures;
        updated_at_loop = loop_id;
      } in
      if quarantined
      then record counted {
        status = HungerItemStatus.closed;
        gap_score = float_zero;
        synthesis_baseline_pending = false;
        synthesis_resolution_kind = some "invalid_synthesis";
        synthesis_resolution_reason =
            some
              (String.◌++◌ "repeated conflict with accepted checks: " (join_texts ", " regressed));
      }
      else counted

  unfoldable pub record_synthesis_conflict :
      String → String → String → List String → ℕ → ℕ → Repo R → (ℕ × Bool) × Repo R
  record_synthesis_conflict task_id item_id signature regressed threshold loop_id repo =
      let ledger = get_hunger_ledger repo task_id in
      elim (first_item item_id ledger.items) [
        | none ↦ ((0, false), repo)
        | some item ↦
            let count = lookup_or 0 signature item.synthesis_conflict_signatures + 1 in
            let quarantined = leb threshold count in
            let change = conflicted signature regressed count quarantined loop_id in
            (
              (count, quarantined),
              save_hunger_ledger task_id
                  (record ledger { items = change_first item_id change ledger.items }) repo,
            )
      ]

-- `sha256` is the hexadecimal digest of a text.
unfoldable pub conflict_signature : (String → String) → List String → String → String
conflict_signature sha256 regressed item_id =
    take_text 24 (sha256 (join_texts "\0" (item_id ∷ regressed)))

module _ {R : Type 0} ⦃fl : Floats R⦄ (sha256 : String → String) (task_id : String) (loop_id : ℕ)
    (regressed : List String) (threshold : ℕ) where
  -- The conflict of one item, with its events.
  unfoldable pub resolve_item : String → Repo R → ConflictResolutionResult × Repo R
  resolve_item item_id repo =
      let signature = conflict_signature sha256 regressed item_id in
      let (outcome, recorded) =
        record_synthesis_conflict task_id item_id signature regressed threshold loop_id repo in
      let detected =
        append_event
          (EventBody.synth_check_conflict_detected item_id signature outcome.0 regressed outcome.1)
          task_id (some loop_id) recorded in
      let told =
        append_event (EventBody.synth_check_quarantined item_id signature regressed) task_id
          (some loop_id) detected in
      (
        record {
          item_id = item_id;
          signature = signature;
          occurrence_count = outcome.0;
          quarantined = outcome.1;
        },
        if outcome.1 then told else detected,
      )

  unfoldable pub resolve_each : List String → Repo R → List ConflictResolutionResult × Repo R
  resolve_each [] repo = ([], repo)
  resolve_each (item_id ∷ item_ids) repo =
      let (result, resolved) = resolve_item item_id repo in
      let (results, last) = resolve_each item_ids resolved in (result ∷ results, last)

module _ {R : Type 0} ⦃fl : Floats R⦄ (sha256 : String → String) where
  unfoldable pub resolve_conflicts :
      String
      → ℕ
      → ValidationReport
      → List String
      → Bool
      → List String
      → ℕ
      → Repo R
      → List ConflictResolutionResult × Repo R
  resolve_conflicts task_id loop_id validation attempted_ids committed exempted threshold repo =
      let regressed =
        sort_by str_leb
          (dedupe (filter (λ key. not (contains exempted key)) validation.regressed_check_keys)) in
      let attempted = sort_by str_leb (dedupe attempted_ids) in
      let item_ids =
        filter
          (is_passing_synthesized (get_hunger_ledger repo task_id).items validation.check_results)
          attempted in
      if committed
      then ([], repo)
      else if is_empty regressed
      then ([], repo)
      else if not (length attempted == 1)
      then ([], emit_ambiguous task_id loop_id attempted regressed item_ids repo)
      else resolve_each sha256 task_id loop_id regressed threshold item_ids repo
