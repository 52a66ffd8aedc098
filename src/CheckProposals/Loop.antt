-- ===== src/CheckProposals/Loop.antt =====
-- services/check_proposal_gate.py: `filter`, the loop over the proposals.
use hungerloop.Prelude.{
  ℕ, String, none, some, List, [], ◌∷◌, ◌++◌, string_eq, if◌then◌else◌, contains,
}
use hungerloop.Models.Synthesis.{CheckProposal, compute_dedup_key}
use hungerloop.CheckProposals.{CheckProposalGate, RejectedProposal, Verdict, examine}

-- The state of the loop over the proposals: the known keys, the result so far, and the runs.
pub record FilterState : Type 0 where
  pub known : List String
  pub accepted : List CheckProposal
  pub rejected : List RejectedProposal
  pub runs : ℕ

module _ (gate : CheckProposalGate) where
  unfoldable pub reject : CheckProposal → String → ℕ → FilterState → FilterState
  reject proposal reason runs state =
      let key = compute_dedup_key gate.python proposal in
      record {
        known = key ∷ state.known;
        accepted = state.accepted;
        rejected =
            state.rejected
            ++ (record { proposal = proposal; reason = reason; dedup_key = key } ∷ []);
        runs = runs;
      }

  unfoldable pub accept : CheckProposal → ℕ → FilterState → FilterState
  accept proposal runs state = record {
    known = compute_dedup_key gate.python proposal ∷ state.known;
    accepted = state.accepted ++ (proposal ∷ []);
    rejected = state.rejected;
    runs = runs;
  }

  -- The state after a verdict.
  unfoldable pub settle : CheckProposal → Verdict → FilterState → FilterState
  settle proposal (some reason, runs) state = reject proposal reason runs state
  settle proposal (none, runs) state = accept proposal runs state

  unfoldable pub filter_proposal : CheckProposal → FilterState → FilterState
  filter_proposal proposal state =
      if contains state.known (compute_dedup_key gate.python proposal)
      then reject proposal "duplicate" state.runs state
      else settle proposal (examine gate proposal state.runs) state

  unfoldable pub filter_from : List CheckProposal → FilterState → FilterState
  filter_from [] state = state
  filter_from (proposal ∷ proposals) state = filter_from proposals (filter_proposal proposal state)

  -- `filter`, with the keys known from before
  unfoldable pub filter_proposals : List CheckProposal → List String → FilterState
  filter_proposals proposals existing_keys =
      filter_from proposals
        (record { known = existing_keys; accepted = []; rejected = []; runs = 0 })
