-- ===== src/CommitManager/Credits.antt =====
-- The discovery credits of services/commit_manager.py.
use hungerloop.Prelude.{
  ℕ, String, none, some, List, [], ◌∷◌, ◌++◌, filter, contains, dedupe, dedupe_from, not, Dict, ◌≡◌,
  arith, string_eq, Option-cases, inl, inr,
}
use mathlib.Core.List.{append-nil, append_assoc}
use hungerloop.Models.Hunger.{HungerItem}
use hungerloop.Repository.{Repo, Event, EventBody, append_event, get_hunger_ledger}
use hungerloop.CommitManager.{emit_credits, emit_discovery_credits, proposer_of, items_by_id}

module _ {R : Type 0} (task_id : String) (loop_id : ℕ) (items : Dict String (HungerItem R)) where
  -- One credit for each of the keys that a worker proposed.
  unfoldable pub credits_for : List String → List Event
  credits_for [] = []
  credits_for (key ∷ keys) = elim (proposer_of items key) [
    | none ↦ credits_for keys
    | some proposer ↦
        record {
          body = EventBody.discovery_credit proposer key loop_id;
          task_id = task_id;
          loop_id = some loop_id;
        }
        ∷ credits_for keys
  ]

  emit_credits_lem :
      (pre_accepted seen newly_passed : List String) (repo : Repo R)
      → emit_credits task_id loop_id items pre_accepted seen newly_passed repo ≡ record repo {
        events =
            repo.events
            ++ credits_for
                (filter (λ key. not (contains pre_accepted key)) (dedupe_from seen newly_passed));
      }
  unfolding emit_credits credits_for dedupe_from filter append_event
  emit_credits_lem pre_accepted seen [] repo = ground (arith, append-nil repo.events)
  emit_credits_lem pre_accepted seen (key ∷ keys) repo =
      elim (Option-cases (proposer_of items key)) [
        | inl n ↦ ground (
          arith,
          emit_credits_lem pre_accepted seen keys repo,
          emit_credits_lem pre_accepted (key ∷ seen) keys repo,
        )
        | inr (proposer, e) ↦
            let body = EventBody.discovery_credit proposer key loop_id in
            let credit : Event = record {
              body = body;
              task_id = task_id;
              loop_id = some loop_id;
            } in
            ground (
              arith,
              emit_credits_lem pre_accepted seen keys repo,
              emit_credits_lem pre_accepted (key ∷ seen) keys repo,
              emit_credits_lem pre_accepted (key ∷ seen) keys
                  (append_event body task_id (some loop_id) repo),
              append_assoc repo.events (credit ∷ []) (
                  credits_for
                    (filter (λ k. not (contains pre_accepted k)) (dedupe_from (key ∷ seen) keys))),
            )
      ]

module _ {R : Type 0} where
  -- The credits change nothing but the events, to which they add, in order, one credit for each
  -- distinct newly passed key that was not accepted before and that a worker proposed.
  pub emit_discovery_credits_lem :
      (task_id : String) (loop_id : ℕ) (newly_passed pre_accepted : List String) (repo : Repo R)
      → emit_discovery_credits task_id loop_id newly_passed pre_accepted repo ≡ record repo {
        events =
            repo.events
            ++ credits_for task_id loop_id
                (items_by_id (get_hunger_ledger repo task_id))
                (filter (λ key. not (contains pre_accepted key)) (dedupe newly_passed));
      }
  unfolding emit_discovery_credits dedupe
  emit_discovery_credits_lem task_id loop_id newly_passed pre_accepted repo =
      emit_credits_lem task_id loop_id (items_by_id (get_hunger_ledger repo task_id)) pre_accepted
        [] newly_passed repo
