-- ===== src/HungerUpdate/Gaps.antt =====
-- services/hunger_update.py: the gaps never grow, and an item whose gap is gone is satisfied.
use hungerloop.Prelude.{
  ℕ, zero, suc, max, String, true, false, none, some, ◌&&◌, not, ◌==◌, string_eq, nat_eq,
  if◌then◌else◌, contains, length, Floats, IsOrdered, float_zero, milli, ◌≡◌, refl, arith, inl, inr,
  Bool-cases, ◌↔◌,
}
use hungerloop.Models.Enums.{is_passing, is_done_status}
use hungerloop.Models.Hunger.{HungerItem, is_unfinished}
use hungerloop.Models.Validation.{ValidationReport}
use hungerloop.Ledgers.{find_item}
use hungerloop.Repository.{Repo, get_hunger_ledger}
use hungerloop.HungerUpdate.{decrement_of, gap_after, progress_item, apply_validation}
use hungerloop.HungerUpdate.Progress.{progress_of, apply_validation-items, counted}

-- The laws of the subtraction and the division that the gaps rest on.
pub record Decreases {R : Type 0} (fl : Floats R) : Type 0 where
  pub sub_le : (a b : R) → fl.le (fl.literal 0 1) b ≡ true → fl.le (fl.sub a b) a ≡ true
  pub quotient_nonneg :
      (n m : ℕ) → fl.le (fl.literal 0 1) (fl.div (fl.literal n 1) (fl.literal m 1)) ≡ true

pub milli-Decreases : Decreases milli
milli-Decreases = record { sub_le = λ a b h. ground arith; quotient_nonneg = λ n m. ground arith }

counted-nonzero : (n : ℕ) → (n == 0) ≡ false → counted none n ≡ some n
counted-nonzero zero h = absurd (ground arith)
counted-nonzero (suc n) h = refl

counted-zero : (n : ℕ) → (n == 0) ≡ true → counted none n ≡ none
counted-zero zero h = refl
counted-zero (suc n) h = absurd (ground arith)

module _ {R : Type 0} ⦃fl : Floats R⦄ (ordered : IsOrdered fl) (laws : Decreases fl)
    (report : ValidationReport) where
  zero_le_zero : fl.le float_zero float_zero ≡ true
  zero_le_zero = ground (arith, ordered.le_total float_zero float_zero)

  gap_after-bounds :
      (n : ℕ) (item : HungerItem R)
      → fl.le float_zero item.gap_score ≡ true
      → (fl.le float_zero (gap_after report n item) ≡ true)
        × (fl.le (gap_after report n item) item.gap_score ≡ true)
  unfolding gap_after decrement_of
  gap_after-bounds n item h =
      let d = decrement_of n item in
      ground (
        arith,
        zero_le_zero,
        ordered.le_total (fl.sub item.gap_score d) float_zero,
        laws.sub_le item.gap_score d,
        laws.quotient_nonneg n (max 1 (length item.acceptance_checks)),
      )

  -- The item after progress: its gap is between zero and the old one, it counts as done exactly
  -- when its gap is gone, and a satisfied item is no longer unfinished.
  abbrev pub Shrinks : HungerItem R → HungerItem R → Type 0
  Shrinks before after =
      (fl.le float_zero after.gap_score ≡ true)
      × (fl.le after.gap_score before.gap_score ≡ true)
      × ((is_done_status after.status ≡ true) ↔ (fl.le after.gap_score float_zero ≡ true))
      × (contains report.satisfied_hunger_item_ids before.id ≡ true → is_unfinished after ≡ false)

  progress_item-Shrinks :
      (n : ℕ) (item : HungerItem R)
      → fl.le float_zero item.gap_score ≡ true
      → Shrinks item (progress_item report n item)
  unfolding progress_item
  progress_item-Shrinks n item h =
      let (nonneg, le) = gap_after-bounds n item h in
      (nonneg, le, ground (arith, nonneg), λ s. unfold gap_after in ground (arith, s, zero_le_zero))

  -- Of an item with a gap that is not negative: a passing report with a well-formed newly passed
  -- key of the item never raises its gap nor makes it negative, makes it done exactly when its gap
  -- is gone, and leaves no satisfied item unfinished; any other report leaves the item as it was.
  pub apply_validation-Shrinks :
      (task_id : String) (repo : Repo R) (j : String) (item : HungerItem R)
      → find_item j (get_hunger_ledger repo task_id).items ≡ some item
      → fl.le float_zero item.gap_score ≡ true
      → (after : HungerItem R) × (find_item j
            (get_hunger_ledger (apply_validation task_id report repo) task_id).items
          ≡ some after)
        × (if is_passing report.verdict && not (progress_of j report.newly_passed_check_keys == 0)
            then Shrinks item after
            else (after ≡ item))
  apply_validation-Shrinks task_id repo j item h k =
      let keys = report.newly_passed_check_keys in
      let n = progress_of j keys in
      let moved = apply_validation-items report task_id repo j in
      elim (Bool-cases (is_passing report.verdict && not (n == 0))) [
        | inl p ↦ rw (p) (
          progress_item report n item,
          ground (arith, moved, h, counted-nonzero n),
          progress_item-Shrinks n item k,
        )
        | inr q ↦ rw (q) (item, ground (arith, moved, h, counted-zero n), refl)
      ]
