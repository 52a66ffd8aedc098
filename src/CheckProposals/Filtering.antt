-- ===== src/CheckProposals/Filtering.antt =====
-- services/check_proposal_gate.py: what `filter` accepts, and that it accounts for every proposal.
use mathlib.Core.List.{append-nil, append_assoc}
use hungerloop.Prelude.{
  ℕ, if◌then◌else◌, String, Bool, true, false, none, some, List, [], ◌∷◌, ◌++◌, map, nodup,
  string_eq, contains, ◌≡◌, refl, sym, subst, ap, ◌∙◌, arith, eq_iff,
}
use hungerloop.Models.Synthesis.{CheckProposal, compute_dedup_key}
use hungerloop.CheckProposals.{CheckProposalGate, RejectedProposal, Verdict, examine}
use hungerloop.CheckProposals.Loop.{
  FilterState, filter_proposal, filter_from, filter_proposals, reject, accept, settle,
}
use hungerloop.CheckProposals.Soundness.{IsSound, examine-IsSound}

module _ (gate : CheckProposalGate) where
  abbrev pub dedup_key_of : CheckProposal → String
  dedup_key_of = compute_dedup_key gate.python

  -- Why a proposal is rejected: its key is known, or one of its tests gives the reason.
  pub data IsRefusal (known : List String) (proposal : CheckProposal) (reason : String)
      : Type 0 where
    duplicate :
        contains known (dedup_key_of proposal) ≡ true
        → reason ≡ "duplicate"
        → IsRefusal known proposal reason
    failing :
        contains known (dedup_key_of proposal) ≡ false
        → (runs : ℕ) → (examine gate proposal runs).0 ≡ some reason
        → IsRefusal known proposal reason

  -- What a call of `filter` does with proposals from a set of known keys on: it decides them one
  -- after the other, each in its order accepted or rejected, and every key decided is known then.
  pub data Filtered
      : List String → List CheckProposal → List CheckProposal → List RejectedProposal → Type 0 where
    done : {known : List String} → Filtered known [] [] []
    accepted :
        {known : List String} {proposals kept : List CheckProposal}
        {refused : List RejectedProposal}
        → (proposal : CheckProposal) → contains known (dedup_key_of proposal) ≡ false
        → IsSound gate proposal
        → Filtered (dedup_key_of proposal ∷ known) proposals kept refused
        → Filtered known (proposal ∷ proposals) (proposal ∷ kept) refused
    rejected :
        {known : List String} {proposals kept : List CheckProposal}
        {refused : List RejectedProposal}
        → (proposal : CheckProposal) → (reason : String) → IsRefusal known proposal reason
        → Filtered (dedup_key_of proposal ∷ known) proposals kept refused
        → Filtered known (proposal ∷ proposals) kept (
            record { proposal = proposal; reason = reason; dedup_key = dedup_key_of proposal }
            ∷ refused)

  -- The accepted keys are new and distinct.
  distinct-Filtered :
      (known : List String) (proposals kept : List CheckProposal) (refused : List RejectedProposal)
      → Filtered known proposals kept refused
      → (nodup (map dedup_key_of kept) ≡ true)
        × ((k : String) → contains (map dedup_key_of kept) k ≡ true → contains known k ≡ false)
  unfolding nodup contains
  distinct-Filtered known proposals kept refused Filtered.done = (refl, λ k m. absurd (cc))
  distinct-Filtered known proposals kept refused (Filtered.accepted {kept = rest} p fresh sound f) =
      let (d, n) = distinct-Filtered (dedup_key_of p ∷ known) _ rest refused f in
      (
        ground (arith, d, n (dedup_key_of p), eq_iff (dedup_key_of p) (dedup_key_of p)),
        λ k m. ground (arith, n k, m, fresh, eq_iff (dedup_key_of p) k),
      )
  distinct-Filtered known proposals kept refused
        (Filtered.rejected {refused = rest} p reason dup f) =
      let (d, n) = distinct-Filtered (dedup_key_of p ∷ known) _ kept rest f in
      (d, λ k m. ground (arith, n k m))

  -- What the loop adds to a state.
  pub record Adds (proposals : List CheckProposal) (before after : FilterState) : Type 0 where
    pub kept : List CheckProposal
    pub refused : List RejectedProposal
    pub all_accepted : after.accepted ≡ before.accepted ++ kept
    pub all_rejected : after.rejected ≡ before.rejected ++ refused
    pub filtered : Filtered before.known proposals kept refused

  reject-Adds :
      (proposal : CheckProposal) (proposals : List CheckProposal) (reason : String) (runs : ℕ)
      (state after : FilterState)
      → IsRefusal state.known proposal reason
      → Adds proposals (reject gate proposal reason runs state) after
      → Adds (proposal ∷ proposals) state after
  unfolding reject
  reject-Adds proposal proposals reason runs state after dup a =
      let refusal : RejectedProposal = record {
        proposal = proposal;
        reason = reason;
        dedup_key = dedup_key_of proposal;
      } in
      record {
        kept = a.kept;
        refused = refusal ∷ a.refused;
        all_accepted = a.all_accepted;
        all_rejected = a.all_rejected ∙ append_assoc state.rejected (refusal ∷ []) a.refused;
        filtered = Filtered.rejected proposal reason dup a.filtered;
      }

  accept-Adds :
      (proposal : CheckProposal) (proposals : List CheckProposal) (runs : ℕ)
      (state after : FilterState)
      → contains state.known (dedup_key_of proposal) ≡ false
      → IsSound gate proposal
      → Adds proposals (accept gate proposal runs state) after
      → Adds (proposal ∷ proposals) state after
  unfolding accept
  accept-Adds proposal proposals runs state after fresh sound a = record {
    kept = proposal ∷ a.kept;
    refused = a.refused;
    all_accepted = a.all_accepted ∙ append_assoc state.accepted (proposal ∷ []) a.kept;
    all_rejected = a.all_rejected;
    filtered = Filtered.accepted proposal fresh sound a.filtered;
  }

  settle-Adds :
      (proposal : CheckProposal) (proposals : List CheckProposal) (tried : ℕ) (verdict : Verdict)
      (state after : FilterState)
      → contains state.known (dedup_key_of proposal) ≡ false
      → examine gate proposal tried ≡ verdict
      → Adds proposals (settle gate proposal verdict state) after
      → Adds (proposal ∷ proposals) state after
  unfolding settle
  settle-Adds proposal proposals tried (some reason, runs) state after fresh e a =
      reject-Adds proposal proposals reason runs state after
        (IsRefusal.failing fresh tried (ap (λ (v : Verdict). v.0) e)) a
  settle-Adds proposal proposals tried (none, runs) state after fresh e a =
      accept-Adds proposal proposals runs state after fresh
        (examine-IsSound gate proposal tried proposal.check_type refl (ap (λ (v : Verdict). v.0) e))
        a

  branch-Adds :
      (proposal : CheckProposal) (proposals : List CheckProposal) (known : Bool)
      (state after : FilterState)
      → contains state.known (dedup_key_of proposal) ≡ known
      → Adds proposals
          (if known
            then reject gate proposal "duplicate" state.runs state
            else settle gate proposal (examine gate proposal state.runs) state)
          after
      → Adds (proposal ∷ proposals) state after
  branch-Adds proposal proposals true state after e a =
      reject-Adds proposal proposals "duplicate" state.runs state after (IsRefusal.duplicate e refl)
        a
  branch-Adds proposal proposals false state after e a =
      settle-Adds proposal proposals state.runs (examine gate proposal state.runs) state after e
        refl a

  filter_from-Adds :
      (proposals : List CheckProposal) (state : FilterState)
      → Adds proposals state (filter_from gate proposals state)
  unfolding filter_from filter_proposal
  filter_from-Adds [] state = record {
    kept = [];
    refused = [];
    all_accepted = sym (append-nil state.accepted);
    all_rejected = sym (append-nil state.rejected);
    filtered = Filtered.done;
  }
  filter_from-Adds (proposal ∷ proposals) state =
      let next = filter_proposal gate proposal state in
      branch-Adds proposal proposals (contains state.known (dedup_key_of proposal)) state
        (filter_from gate proposals next) refl (filter_from-Adds proposals next)

  -- `filter` decides every proposal, in its order. It rejects a proposal as a duplicate if its key
  -- was known before, from another proposal or from the call, and otherwise with the reason of a
  -- test that fails. What it accepts has a key that was not known: a file proposal has a safe path, and
  -- a shell proposal a valid argv and, unless the dry runs are deferred, a command that ran twice,
  -- could be executed both times, and had one outcome. The accepted keys are distinct.
  pub filter_proposals_lem :
      (proposals : List CheckProposal) (existing_keys : List String)
      → let result = filter_proposals gate proposals existing_keys in
        Filtered existing_keys proposals result.accepted result.rejected
        × (nodup (map dedup_key_of result.accepted) ≡ true)
        × ((key : String)
            → contains (map dedup_key_of result.accepted) key ≡ true
            → contains existing_keys key ≡ false)
  unfolding filter_proposals
  filter_proposals_lem proposals existing_keys =
      let start : FilterState = record {
        known = existing_keys;
        accepted = [];
        rejected = [];
        runs = 0;
      } in
      let a = filter_from-Adds proposals start in
      let result = filter_proposals gate proposals existing_keys in
      let filtered : Filtered existing_keys proposals result.accepted result.rejected =
        subst
          (λ (r : List CheckProposal × List RejectedProposal).
            Filtered existing_keys proposals r.0 r.1)
          {x = (a.kept, a.refused)} {y = (result.accepted, result.rejected)}
          (λ i. (sym a.all_accepted i, sym a.all_rejected i)) a.filtered in
      let (distinct, fresh) =
        distinct-Filtered existing_keys proposals result.accepted result.rejected filtered in
      (filtered, distinct, fresh)
