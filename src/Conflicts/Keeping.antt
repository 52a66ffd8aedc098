-- ===== src/Conflicts/Keeping.antt =====
-- services/synthesized_check_lifecycle.py: what the resolution of conflicts leaves as it was.
use mathlib.Core.Option.{map as option_map}
use hungerloop.Prelude.{
  ℕ, ◌+◌, String, Bool, true, false, Option, List, [], ◌∷◌, ◌==◌, string_eq, nat_eq, ◌||◌, not,
  filter, any, contains, dedupe, is_empty, length, leb, lookup_or, str_leb, Floats, ◌≡◌, refl, ap,
  ◌∙◌, arith, eq_iff, inl, inr, Option-cases, if_intro,
}
use hungerloop.Prelude.Sorting.{sort_by}
use hungerloop.Models.Hunger.{HungerItem, HungerLedger}
use hungerloop.Models.Validation.{ValidationReport}
use hungerloop.Ledgers.{find_item, get-save_hunger_ledger}
use hungerloop.Repository.{Repo, append_event, get_hunger_ledger, save_hunger_ledger}
use hungerloop.Conflicts.{
  ConflictResolutionResult, conflict_signature, first_item, change_first, conflicted,
  record_synthesis_conflict, emit_ambiguous, resolve_item, resolve_each, resolve_conflicts,
  is_passing_synthesized,
}

-- The gap of an item, if the items have it.
abbrev pub gap_of : {R : Type 0} → String → List (HungerItem R) → Option R
gap_of j items = option_map (λ item. item.gap_score) (find_item j items)

-- `any(result.quarantined for result in results)`
abbrev pub has_quarantined : List ConflictResolutionResult → Bool
has_quarantined results = any (λ r. r.quarantined) results

module _ {R : Type 0} where
  gap_of-change_first :
      (iid : String) (change : HungerItem R → HungerItem R)
      → ((item : HungerItem R) → (change item).id ≡ item.id)
      → ((item : HungerItem R) → (change item).gap_score ≡ item.gap_score)
      → (j : String) (items : List (HungerItem R))
      → gap_of j (change_first iid change items) ≡ gap_of j items
  unfolding find_item change_first
  gap_of-change_first iid change i g j [] = refl
  gap_of-change_first iid change i g j (item ∷ items) = ground (
    arith,
    i item,
    g item,
    gap_of-change_first iid change i g j items,
    eq_iff item.id j,
    eq_iff (change item).id j,
  )

  -- Two repositories have the same gaps of a task, and the same streaks.
  pub record SameCounts (task_id : String) (before after : Repo R) : Type 0 where
    pub gaps :
        (j : String)
        → gap_of j (get_hunger_ledger after task_id).items
          ≡ gap_of j (get_hunger_ledger before task_id).items
    pub streaks : after.no_progress_streaks ≡ before.no_progress_streaks

  pub SameCounts-refl : (task_id : String) (repo : Repo R) → SameCounts task_id repo repo
  SameCounts-refl task_id repo = record { gaps = λ j. refl; streaks = refl }

  pub SameCounts-trans :
      (task_id : String) (before repo after : Repo R)
      → SameCounts task_id before repo
      → SameCounts task_id repo after
      → SameCounts task_id before after
  SameCounts-trans task_id before repo after a b = record {
    gaps = λ j. b.gaps j ∙ a.gaps j;
    streaks = b.streaks ∙ a.streaks;
  }

  pub SameCounts-ledgers :
      (task_id : String) (before after : Repo R)
      → after.ledgers ≡ before.ledgers
      → after.no_progress_streaks ≡ before.no_progress_streaks
      → SameCounts task_id before after
  unfolding get_hunger_ledger
  SameCounts-ledgers task_id before after l s = record {
    gaps = λ j. ground (arith, l);
    streaks = s;
  }

  emit_ambiguous-SameCounts :
      (task_id : String) (loop_id : ℕ) (attempted regressed item_ids : List String) (repo : Repo R)
      → SameCounts task_id repo (emit_ambiguous task_id loop_id attempted regressed item_ids repo)
  unfolding emit_ambiguous append_event
  emit_ambiguous-SameCounts task_id loop_id attempted regressed [] repo =
      SameCounts-refl task_id repo
  emit_ambiguous-SameCounts task_id loop_id attempted regressed (iid ∷ item_ids) repo =
      SameCounts-trans task_id repo _ _ (SameCounts-ledgers task_id repo _ refl refl)
        (emit_ambiguous-SameCounts task_id loop_id attempted regressed item_ids _)

  -- A resolution leaves the streaks, and, if it quarantines no item, the gaps.
  pub record IsResolved (task_id : String) (quarantined : Bool) (before after : Repo R)
      : Type 0 where
    pub gaps : quarantined ≡ false → SameCounts task_id before after
    pub streaks : after.no_progress_streaks ≡ before.no_progress_streaks

module _ {R : Type 0} ⦃fl : Floats R⦄ where
  conflicted-gap :
      (signature : String) (regressed : List String) (count : ℕ) (loop_id : ℕ) (item : HungerItem R)
      → ((conflicted signature regressed count false loop_id item).id ≡ item.id)
        × ((conflicted signature regressed count false loop_id item).gap_score ≡ item.gap_score)
  unfolding conflicted
  conflicted-gap signature regressed count loop_id item = (refl, refl)

  module _ (task_id : String) (loop_id : ℕ) (regressed : List String) (threshold : ℕ) where
    save-IsResolved :
        (item_id signature : String) (count : ℕ) (quarantined : Bool) (repo : Repo R)
        → let ledger = get_hunger_ledger repo task_id in
          IsResolved task_id quarantined repo (
            save_hunger_ledger task_id
              (record ledger {
                items =
                    change_first item_id
                      (conflicted signature regressed count quarantined loop_id)
                      ledger.items;
              })
              repo)
    save-IsResolved item_id signature count true repo = record {
      gaps = λ e. absurd (ground (arith, e));
      streaks = unfold save_hunger_ledger in refl;
    }
    save-IsResolved item_id signature count false repo =
        let ledger = get_hunger_ledger repo task_id in
        let change = conflicted signature regressed count false loop_id in
        let changed : HungerLedger R = record ledger {
          items = change_first item_id change ledger.items;
        } in
        record {
          gaps = λ e. record {
            gaps = λ j.
                ap (λ (l : HungerLedger R). gap_of j l.items)
                  (get-save_hunger_ledger task_id changed repo)
                ∙ gap_of-change_first item_id change
                    (λ item. (conflicted-gap signature regressed count loop_id item).0)
                    (λ item. (conflicted-gap signature regressed count loop_id item).1) j
                    ledger.items;
            streaks = unfold save_hunger_ledger in refl;
          };
          streaks = unfold save_hunger_ledger in refl;
        }

    record-IsResolved :
        (item_id signature : String) (repo : Repo R)
        → let r =
            record_synthesis_conflict task_id item_id signature regressed threshold loop_id repo in
          IsResolved task_id r.0.1 repo r.1
    unfolding record_synthesis_conflict
    record-IsResolved item_id signature repo =
        elim (Option-cases (first_item item_id (get_hunger_ledger repo task_id).items)) [
          | inl n ↦
              rw (record_synthesis_conflict, n)
                (record { gaps = λ e. SameCounts-refl task_id repo; streaks = refl })
          | inr (item, e) ↦
              rw (record_synthesis_conflict, e)
                (save-IsResolved item_id signature
                  (lookup_or 0 signature item.synthesis_conflict_signatures + 1)
                  (leb threshold (lookup_or 0 signature item.synthesis_conflict_signatures + 1))
                  repo)
        ]

    IsResolved-trans :
        (p q : Bool) (before repo after : Repo R)
        → IsResolved task_id p before repo
        → IsResolved task_id q repo after
        → IsResolved task_id (p || q) before after
    IsResolved-trans p q before repo after a b = record {
      gaps = λ e.
          SameCounts-trans task_id before repo after (a.gaps (ground (arith, e)))
            (b.gaps (ground (arith, e)));
      streaks = b.streaks ∙ a.streaks;
    }

    module _ (sha256 : String → String) where
      resolve_item-IsResolved :
          (item_id : String) (repo : Repo R)
          → let r = resolve_item sha256 task_id loop_id regressed threshold item_id repo in
            IsResolved task_id r.0.quarantined repo r.1
      unfolding resolve_item append_event
      resolve_item-IsResolved item_id repo =
          let signature = conflict_signature sha256 regressed item_id in
          let r =
            record_synthesis_conflict task_id item_id signature regressed threshold loop_id repo in
          let a = record-IsResolved item_id signature repo in
          if_intro (λ (after : Repo R). IsResolved task_id r.0.1 repo after) r.0.1
            (λ e. record { gaps = λ f. absurd (ground (arith, e, f)); streaks = a.streaks })
            (λ e. record {
              gaps = λ f.
                  SameCounts-trans task_id repo r.1 _ (a.gaps f)
                    (SameCounts-ledgers task_id r.1 _ refl refl);
              streaks = a.streaks;
            })

      resolve_each-IsResolved :
          (item_ids : List String) (repo : Repo R)
          → let r = resolve_each sha256 task_id loop_id regressed threshold item_ids repo in
            IsResolved task_id (has_quarantined r.0) repo r.1
      unfolding resolve_each any
      resolve_each-IsResolved [] repo = record {
        gaps = λ e. SameCounts-refl task_id repo;
        streaks = refl;
      }
      resolve_each-IsResolved (item_id ∷ item_ids) repo =
          let r = resolve_item sha256 task_id loop_id regressed threshold item_id repo in
          let rest = resolve_each sha256 task_id loop_id regressed threshold item_ids r.1 in
          IsResolved-trans r.0.quarantined (has_quarantined rest.0) repo r.1 rest.1
            (resolve_item-IsResolved item_id repo) (resolve_each-IsResolved item_ids r.1)

  unresolved :
      (task_id : String) (before after : Repo R)
      → SameCounts task_id before after
      → IsResolved task_id (has_quarantined []) before after
  unfolding any
  unresolved task_id before after s = record { gaps = λ e. s; streaks = s.streaks }

  record Resolves (task_id : String) (before : Repo R) (r : List ConflictResolutionResult × Repo R)
      : Type 0 where
    pub resolved : IsResolved task_id (has_quarantined r.0) before r.1

  of_resolved :
      (task_id : String) (before : Repo R) (r : List ConflictResolutionResult × Repo R)
      → IsResolved task_id (has_quarantined r.0) before r.1
      → Resolves task_id before r
  of_resolved task_id before r h = record { resolved = h }

  -- The resolution of conflicts leaves every streak, and, if it quarantines no item, every gap.
  pub resolve_conflicts-IsResolved :
      (sha256 : String → String) (task_id : String) (loop_id : ℕ) (validation : ValidationReport)
      (attempted : List String) (committed : Bool) (exempted : List String) (threshold : ℕ)
      (repo : Repo R)
      → let r =
          resolve_conflicts sha256 task_id loop_id validation attempted committed exempted threshold
            repo in
        IsResolved task_id (has_quarantined r.0) repo r.1
  unfolding resolve_conflicts
  resolve_conflicts-IsResolved sha256 task_id loop_id validation attempted committed exempted
        threshold repo =
      let regressed =
        sort_by str_leb
          (dedupe (filter (λ key. not (contains exempted key)) validation.regressed_check_keys)) in
      let item_ids =
        filter
          (is_passing_synthesized (get_hunger_ledger repo task_id).items validation.check_results)
          (sort_by str_leb (dedupe attempted)) in
      let same =
        of_resolved task_id repo ([], repo)
          (unresolved task_id repo repo (SameCounts-refl task_id repo)) in
      let P = Resolves task_id repo in
      let all =
        if_intro P committed (λ e. same)
          (λ e.
            if_intro P (is_empty regressed) (λ e. same)
              (λ e.
                if_intro P (not (length (sort_by str_leb (dedupe attempted)) == 1))
                  (λ e. of_resolved task_id repo _ (
                    unresolved task_id repo _ (
                      emit_ambiguous-SameCounts task_id loop_id (sort_by str_leb (dedupe attempted))
                        regressed item_ids repo)))
                  (λ e. of_resolved task_id repo _ (
                    resolve_each-IsResolved task_id loop_id regressed threshold sha256 item_ids
                      repo)))) in
      all.resolved
