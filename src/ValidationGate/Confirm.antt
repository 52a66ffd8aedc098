-- ===== src/ValidationGate/Confirm.antt =====
-- The confirmation runs of a regressed check (services/validation_gate.py).
use hungerloop.Prelude.{
  ℕ, zero, suc, ◌<◌, ◌≤◌, true, all, ltb, ◌≡◌, ◌↔◌, refl, arith, ◌&&◌, Bool-cases, inl, inr, length,
}
use hungerloop.Models.Hunger.{AcceptanceCheck}
use hungerloop.ValidationGate.{Runner, passes}
use hungerloop.ValidationGate.Confirmation.{confirm_runs, is_disconfirmed}

module _ (runner : Runner) (check : AcceptanceCheck) where
  abbrev pub AllPass : ℕ → ℕ → Type 0
  AllPass runs zero = Unit
  AllPass runs (suc n) = (passes (runner check runs) ≡ true) × AllPass (suc runs) n

  pub all-confirm_runs :
      (n runs : ℕ) → (all passes (confirm_runs runner check n runs) ≡ true) ↔ AllPass runs n
  unfolding all confirm_runs
  all-confirm_runs zero runs = (λ _. tt, λ _. refl)
  all-confirm_runs (suc n) runs =
      let (to, from) = all-confirm_runs n (suc runs) in
      (
        λ h. elim (Bool-cases (passes (runner check runs))) [
          | inl e ↦ (e, to (ground arith))
          | inr e ↦ absurd (ground arith)
        ],
        λ (e, p). ground (arith, e, from p),
      )

  length-confirm_runs-le : (n runs : ℕ) → length (confirm_runs runner check n runs) ≤ n
  unfolding confirm_runs
  length-confirm_runs-le zero runs = omega arith
  length-confirm_runs-le (suc n) runs = ground (arith, length-confirm_runs-le n (suc runs))

  is_disconfirmed-confirm_runs :
      (n runs : ℕ)
      → is_disconfirmed (confirm_runs runner check n runs)
        ≡ (ltb 0 n && all passes (confirm_runs runner check n runs))
  unfolding is_disconfirmed confirm_runs
  is_disconfirmed-confirm_runs zero runs = refl
  is_disconfirmed-confirm_runs (suc n) runs = ground arith

  -- A regression is cleared exactly when there is a confirmation run and every one of the allowed
  -- runs passes without raising, and a check is confirmed in at most as many runs as are allowed.
  pub confirm_runs_lem :
      (max_reruns runs : ℕ)
      → ((is_disconfirmed (confirm_runs runner check max_reruns runs) ≡ true)
          ↔ ((0 < max_reruns) × AllPass runs max_reruns))
        × (length (confirm_runs runner check max_reruns runs) ≤ max_reruns)
  confirm_runs_lem n runs =
      let (to, from) = all-confirm_runs n runs in
      let cleared = is_disconfirmed-confirm_runs n runs in
      (
        (
          λ h. (ground (arith, cleared), to (ground (arith, cleared))),
          λ (lt, p). ground (arith, cleared, from p),
        ),
        length-confirm_runs-le n runs,
      )
