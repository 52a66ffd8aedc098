-- ===== src/Models/Hunger.antt =====
-- models/hunger.py. The fields of memory, refinement profiles and the making of checks, which no code
-- modelled here reads, are left out of the items and the policy. Floats are values of the type `R`. A datetime is a number of seconds in `R`,
-- and the values in `params` are JSON texts, which nothing modelled here reads.
use hungerloop.Prelude.{
  ℕ, String, Bool, Option, List, Dict, Floats, float_lt, float_zero, float_sum, filter, all,
  is_empty, ◌&&◌, ◌||◌, not, leb, ◌==◌, nat_eq, map, zero, suc,
}
use hungerloop.Models.Enums.{
  AcceptanceCheckType, HungerItemType, HungerItemStatus, AcceptanceMode, DecayType, CompletionMode,
  LoopPhase, StopReason, is_inactive, is_done_status, is_blocked,
}

pub record AcceptanceCheck : Type 0 where
  pub check_type : AcceptanceCheckType
  pub params : Dict String String
  pub description : String

pub record HungerItem (R : Type 0) : Type 0 where
  pub id : String
  pub title : String
  pub item_type : HungerItemType
  pub priority : R
  pub gap_score : R
  pub status : HungerItemStatus
  pub acceptance_checks : List AcceptanceCheck
  pub acceptance_mode : AcceptanceMode
  pub consecutive_failure_count : ℕ
  pub last_progress_loop_id : Option ℕ
  pub evidence_ids : List String
  pub updated_at_loop : ℕ
  pub refinement_tier : ℕ
  pub refinement_kind : String
  pub generated_by : Option String
  pub source_check_keys : List String
  pub synthesis_baseline_pending : Bool
  pub synthesis_conflict_signatures : Dict String ℕ
  pub synthesis_resolution_kind : Option String
  pub synthesis_resolution_reason : Option String

pub record HungerLedger (R : Type 0) : Type 0 where
  pub task_id : String
  pub items : List (HungerItem R)

pub record HungerPolicy (R : Type 0) : Type 0 where
  pub initial_hunger : R
  pub h_max : R
  pub decay_type : DecayType
  pub decay_duration_seconds : R
  pub started_at : Option R
  pub max_total_cost_usd : R
  pub max_total_tokens : ℕ
  pub completion_mode : CompletionMode
  pub max_refinement_tier : ℕ
  pub respect_stagnation : Bool
  pub regression_confirm_reruns : ℕ
  pub rejected_candidate_continuation_enabled : Bool
  pub refactor_transactions_enabled : Bool
  pub max_declared_regressions : ℕ
  pub refactor_deadline_loops : ℕ
  pub max_global_no_progress_loops : ℕ
  pub draft_sampling_k : ℕ
  pub synthesis_conflict_threshold : ℕ

pub record HungerClockState (R : Type 0) : Type 0 where
  pub loop_count : ℕ
  pub frozen : Bool
  pub consumed_by_cost_usd : R
  pub consumed_tokens : ℕ
  pub manually_cleared : Bool

pub record HungerSnapshot (R : Type 0) : Type 0 where
  pub drive_budget : R
  pub work_pressure : R
  pub active_hunger : R
  pub drive_ratio : R
  pub phase : LoopPhase
  pub should_stop : Bool
  pub stop_reason : Option StopReason

module _ {R : Type 0} ⦃fl : Floats R⦄ where
  -- `item.gap_score > 0`
  abbrev pub has_gap : HungerItem R → Bool
  has_gap item = float_lt float_zero item.gap_score

  abbrev pub is_active : HungerItem R → Bool
  is_active item = not (is_inactive item.status) && has_gap item

  abbrev pub is_unfinished : HungerItem R → Bool
  is_unfinished item = not (is_done_status item.status) && has_gap item

  unfoldable pub active_items : HungerLedger R → List (HungerItem R)
  unfolding filter
  active_items ledger = filter is_active ledger.items

  unfoldable pub blocked_items : HungerLedger R → List (HungerItem R)
  unfolding filter
  blocked_items ledger = filter (λ item. is_blocked item.status && has_gap item) ledger.items

  unfoldable pub unfinished_items : HungerLedger R → List (HungerItem R)
  unfolding filter
  unfinished_items ledger = filter is_unfinished ledger.items

  unfoldable pub unfinished_items_by_tier : HungerLedger R → ℕ → List (HungerItem R)
  unfolding unfinished_items
  unfinished_items_by_tier ledger max_tier =
      filter (λ item. leb item.refinement_tier max_tier) (unfinished_items ledger)

  unfoldable pub tier_is_done : HungerLedger R → ℕ → Bool
  unfolding filter all
  tier_is_done ledger tier =
      let tier_items = filter (λ item. item.refinement_tier == tier) ledger.items in
      not (is_empty tier_items)
      && all (λ item. is_done_status item.status || not (has_gap item)) tier_items

  -- `all(… for tier in range(max_tier + 1))`, by recursion on `max_tier`
  unfoldable pub all_tiers_done : HungerLedger R → ℕ → Bool
  unfolding tier_is_done
  all_tiers_done ledger zero = tier_is_done ledger 0
  all_tiers_done ledger (suc max_tier) =
      all_tiers_done ledger max_tier && tier_is_done ledger (suc max_tier)

  unfoldable pub work_pressure : HungerLedger R → R
  unfolding active_items float_sum
  work_pressure ledger =
      float_sum (map (λ item. fl.mul item.priority item.gap_score) (active_items ledger))

  unfoldable pub has_active_items : HungerLedger R → Bool
  unfolding active_items
  has_active_items ledger = not (is_empty (active_items ledger))

  unfoldable pub has_blocked_items : HungerLedger R → Bool
  unfolding blocked_items
  has_blocked_items ledger = not (is_empty (blocked_items ledger))

  unfoldable pub all_remaining_items_blocked : HungerLedger R → Bool
  unfolding unfinished_items all
  all_remaining_items_blocked ledger =
      let unfinished = unfinished_items ledger in
      not (is_empty unfinished) && all (λ item. is_blocked item.status) unfinished

  unfoldable pub is_done : HungerLedger R → Bool
  unfolding unfinished_items
  is_done ledger = is_empty (unfinished_items ledger)
