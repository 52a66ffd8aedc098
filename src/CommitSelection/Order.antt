-- ===== src/CommitSelection/Order.antt =====
-- The choice of services/commit_selection.py: it is the least passing candidate, in whatever order
-- the candidates come, and what it chooses can be committed.
use hungerloop.Prelude.{
  String, true, false, none, some, List, filter, ◌≡◌, ◌↔◌, arith, str_leb_total, str_leb_trans,
  str_leb_antisymm, Floats, Option-cases, inl, inr, sym, ◌∙◌, subst, ap,
}
use hungerloop.Prelude.Sorting.{head-sort_by, least-mem, least-le, least-none}
use hungerloop.Prelude.Membership.{all-Memᴰ, Memᴰ-filter, filter-Memᴰ}
use mathlib.Core.List.{Memᴰ}
use hungerloop.Models.Validation.{ValidationReport, CandidateState}
use hungerloop.Repository.{Repo}
use hungerloop.CommitManager.Decision.{can_commit, has_blocking_regression}
use hungerloop.CommitSelection.{
  CandidateEvaluation, passes_gate, key_leb, select_commit_candidate,
  evaluation_from_validation_report,
}

module _ {R : Type 0} where
  key_leb_total : (a b : CandidateEvaluation R) → key_leb a b ≡ false → key_leb b a ≡ true
  unfolding key_leb
  key_leb_total a b h = ground (arith, str_leb_total a.candidate_id b.candidate_id)

  key_leb_trans :
      (a b c : CandidateEvaluation R) → key_leb a b ≡ true → key_leb b c ≡ true → key_leb a c ≡ true
  unfolding key_leb
  key_leb_trans a b c h k =
      ground (arith, str_leb_trans a.candidate_id b.candidate_id c.candidate_id)

  -- Two candidates that are each at most the other have one id.
  key_leb_antisymm :
      (a b : CandidateEvaluation R)
      → key_leb a b ≡ true
      → key_leb b a ≡ true
      → a.candidate_id ≡ b.candidate_id
  unfolding key_leb
  key_leb_antisymm a b h k = ground (arith, str_leb_antisymm a.candidate_id b.candidate_id)

  none-choice :
      (xs : List (CandidateEvaluation R)) (ev : CandidateEvaluation R)
      → select_commit_candidate xs ≡ none
      → Memᴰ ev xs
      → passes_gate ev ≡ true
      → ⊥
  unfolding select_commit_candidate
  none-choice xs ev n m p =
      let e =
        least-none key_leb (filter passes_gate xs)
          (sym (head-sort_by key_leb (filter passes_gate xs)) ∙ n) in
      elim (subst (Memᴰ ev) e (filter-Memᴰ passes_gate xs ev m p)) [ ]

  -- A passing candidate that no passing candidate precedes.
  pub record IsChoice (evaluations : List (CandidateEvaluation R)) (ev : CandidateEvaluation R)
      : Type 0 where
    pub listed : Memᴰ ev evaluations
    pub passes : passes_gate ev ≡ true
    pub first :
        (other : CandidateEvaluation R)
        → Memᴰ other evaluations
        → passes_gate other ≡ true
        → key_leb ev other ≡ true

  select-IsChoice :
      (evaluations : List (CandidateEvaluation R)) (ev : CandidateEvaluation R)
      → select_commit_candidate evaluations ≡ some ev
      → IsChoice evaluations ev
  unfolding select_commit_candidate
  select-IsChoice evaluations ev h =
      let passing = filter passes_gate evaluations in
      let l = sym (head-sort_by key_leb passing) ∙ h in
      let (m, p) = Memᴰ-filter passes_gate evaluations ev (least-mem key_leb passing ev l) in
      record {
        listed = m;
        passes = p;
        first = λ other n q.
            all-Memᴰ (key_leb ev) passing other
              (least-le key_leb key_leb_trans key_leb_total passing ev l)
              (filter-Memᴰ passes_gate evaluations other n q);
      }

  -- The selection does not depend on the order in which the candidates come, as long as two of them
  -- with one id are the same.
  pub select_any_order :
      (xs ys : List (CandidateEvaluation R))
      → ((ev : CandidateEvaluation R) → Memᴰ ev xs ↔ Memᴰ ev ys)
      → ((a b : CandidateEvaluation R)
          → Memᴰ a xs
          → Memᴰ b xs
          → a.candidate_id ≡ b.candidate_id
          → a ≡ b)
      → select_commit_candidate xs ≡ select_commit_candidate ys
  select_any_order xs ys same distinct = elim (Option-cases (select_commit_candidate xs)) [
    | inl n ↦ elim (Option-cases (select_commit_candidate ys)) [
      | inl m ↦ n ∙ sym m
      | inr (b, f) ↦
          let c = select-IsChoice ys b f in
          absurd (none-choice xs b n ((same b).1 c.listed) c.passes)
    ]
    | inr (a, e) ↦
        let c = select-IsChoice xs a e in
        elim (Option-cases (select_commit_candidate ys)) [
          | inl m ↦ absurd (none-choice ys a m ((same a).0 c.listed) c.passes)
          | inr (b, f) ↦
              let d = select-IsChoice ys b f in
              let l = (same b).1 d.listed in
              let eq = distinct a b c.listed l (
                key_leb_antisymm a b (c.first b l d.passes)
                  (d.first a ((same a).0 c.listed) c.passes)) in
              e ∙ ap some eq ∙ sym f
        ]
  ]

module _ {R : Type 0} ⦃fl : Floats R⦄ where
  -- A candidate passes the selection's gate exactly when the commit manager, without a refactor
  -- transaction, can commit its report.
  pub passes_gate-can_commit :
      (repo : Repo R) (report : ValidationReport) (candidate : CandidateState)
      (candidate_id : String)
      → passes_gate {R = R} (evaluation_from_validation_report candidate_id report)
        ≡ can_commit repo report candidate none
  unfolding passes_gate evaluation_from_validation_report can_commit has_blocking_regression
  passes_gate-can_commit repo report candidate candidate_id = ground arith
