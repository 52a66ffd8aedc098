-- ===== src/Samples/Choices.antt =====
-- Examples of the selection among candidates.
use mathlib.Core.List.{Memᴰ}
use hungerloop.Prelude.{
  ℕ, String, none, List, [], ◌∷◌, ◌≡◌, sym, ap, ◌∙◌, ◌≢◌, milli, arith, eq_iff,
}
use hungerloop.Models.Enums.{ValidationVerdict}
use hungerloop.CommitManager.Decision.{can_commit}
use hungerloop.CommitSelection.{
  CandidateEvaluation, passes_gate, select_commit_candidate, evaluation_from_validation_report,
}
use hungerloop.CommitSelection.Order.{select_any_order, passes_gate-can_commit}
use hungerloop.Samples.{repo, good_report, candidate}

abbrev evaluation : String → List String → CandidateEvaluation ℕ
evaluation candidate_id failing = record {
  candidate_id = candidate_id;
  newly_passed_check_keys = "A:1" ∷ [];
  failing_check_keys = failing;
  regressed_check_keys = [];
  missing_evidence = [];
  verdict = ValidationVerdict.partial;
  score = 0;
}

abbrev first : CandidateEvaluation ℕ
first = evaluation "c1" ("A:2" ∷ [])

abbrev second : CandidateEvaluation ℕ
second = evaluation "c2" []

swap_two : (a b ev : CandidateEvaluation ℕ) → Memᴰ ev (a ∷ b ∷ []) → Memᴰ ev (b ∷ a ∷ [])
swap_two a b ev (Memᴰ.head e) = Memᴰ.tail (Memᴰ.head e)
swap_two a b ev (Memᴰ.tail (Memᴰ.head e)) = Memᴰ.head e
swap_two a b ev (Memᴰ.tail (Memᴰ.tail m)) = elim m [ ]

distinct : first.candidate_id ≢ second.candidate_id
distinct h = ground (arith, eq_iff "c1" "c2")

one_id :
    (a b : CandidateEvaluation ℕ)
    → Memᴰ a (first ∷ second ∷ [])
    → Memᴰ b (first ∷ second ∷ [])
    → a.candidate_id ≡ b.candidate_id
    → a ≡ b
one_id a b (Memᴰ.head p) (Memᴰ.head q) e = p ∙ sym q
one_id a b (Memᴰ.head p) (Memᴰ.tail (Memᴰ.head q)) e =
    absurd (distinct (sym (ap (λ ev. ev.candidate_id) p) ∙ e ∙ ap (λ ev. ev.candidate_id) q))
one_id a b (Memᴰ.tail (Memᴰ.head p)) (Memᴰ.head q) e =
    absurd (distinct (sym (ap (λ ev. ev.candidate_id) q) ∙ sym e ∙ ap (λ ev. ev.candidate_id) p))
one_id a b (Memᴰ.tail (Memᴰ.head p)) (Memᴰ.tail (Memᴰ.head q)) e = p ∙ sym q
one_id a b (Memᴰ.tail (Memᴰ.tail m)) n e = elim m [ ]
one_id a b (Memᴰ.head p) (Memᴰ.tail (Memᴰ.tail n)) e = elim n [ ]
one_id a b (Memᴰ.tail (Memᴰ.head p)) (Memᴰ.tail (Memᴰ.tail n)) e = elim n [ ]

select_any_order_example :
    select_commit_candidate (first ∷ second ∷ []) ≡ select_commit_candidate (second ∷ first ∷ [])
select_any_order_example =
    select_any_order (first ∷ second ∷ []) (second ∷ first ∷ [])
      (λ ev. (swap_two first second ev, swap_two second first ev)) one_id

passes_gate_example :
    passes_gate {R = ℕ} (evaluation_from_validation_report "c1" good_report)
    ≡ can_commit repo good_report candidate none
passes_gate_example = passes_gate-can_commit repo good_report candidate "c1"
