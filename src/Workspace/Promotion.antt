-- ===== src/Workspace/Promotion.antt =====
-- The atomicity of `promote_candidate_to_best` of services/workspace_manager.py.
use hungerloop.Prelude.{
  ℕ, String, false, none, some, Dict, lookup, insert, remove, lookup-insert, lookup-remove, ◌≡◌,
  arith, ◌==◌, string_eq, nat_eq, pair_eq, eq_iff, Option-cases, inl, inr,
}
use hungerloop.Repository.{return, raise, RepoError}
use hungerloop.Workspace.{
  Files, Manifest, Workspace, Faults, promote_candidate_to_best, swap_in, after_swap,
  write_best_manifest, candidate_source,
}

-- The tree after a promotion that returned: the task's best directory and its manifest are the
-- candidate's files, nothing is left beside it, and the other tasks are untouched.
pub record Promoted (task_id : String) (loop_id : ℕ) (w w' : Workspace) : Type 0 where
  pub files : lookup task_id w'.best ≡ lookup (task_id, loop_id) w.candidates
  pub manifest :
      (files : Files)
      → lookup task_id w'.best ≡ some files
      → lookup task_id w'.best_manifest
        ≡ some (record { source_workspace_ref = candidate_source loop_id; files = files })
  pub clean :
      (lookup task_id w'.staging ≡ none)
      × (lookup task_id w.old ≡ none → lookup task_id w'.old ≡ none)
  pub others :
      (task : String) → (task == task_id) ≡ false → lookup task w'.best ≡ lookup task w.best
  pub candidates : w'.candidates ≡ w.candidates

-- A promotion that raises leaves the best directories, their manifests and the candidates as they
-- were, as long as the displaced directory can be moved back and the manifest can be written.
pub promote_keeps_best :
    (faults : Faults) (task_id : String) (loop_id : ℕ) (w w' : Workspace) (e : RepoError)
    → promote_candidate_to_best faults task_id loop_id w ≡ (raise e, w')
    → faults.rename_back ≡ false
    → faults.manifest ≡ false
    → (w'.best ≡ w.best)
      × (w'.best_manifest ≡ w.best_manifest)
      × (w'.candidates ≡ w.candidates)
      × (w'.old ≡ w.old)
unfolding promote_candidate_to_best swap_in after_swap
promote_keeps_best faults task_id loop_id w w' e h b m = ground arith

-- A promotion that returned replaced the task's best directory and its manifest by the candidate's
-- files, left no staging directory and no displaced one, and touched no other task's best.
pub promote_replaces_best :
    (faults : Faults) (task_id : String) (loop_id : ℕ) (w w' : Workspace)
    → promote_candidate_to_best faults task_id loop_id w ≡ (return tt, w')
    → Promoted task_id loop_id w w'
unfolding promote_candidate_to_best swap_in after_swap write_best_manifest
promote_replaces_best faults task_id loop_id w w' h =
    elim (Option-cases (lookup (task_id, loop_id) w.candidates)) [
      | inl n ↦ absurd (ground arith)
      | inr (files, c) ↦
          let source = candidate_source loop_id in
          let manifest : Manifest = record { source_workspace_ref = source; files = files } in
          let put =
            λ (task : String) (best : Dict String Files). lookup-insert task_id task files best in
          let same = eq_iff task_id task_id in
          record {
            files = ground (arith, put task_id w.best, put task_id (remove task_id w.best), same);
            manifest = λ fs k. ground (
              arith,
              put task_id w.best,
              put task_id (remove task_id w.best),
              lookup-insert task_id task_id manifest w.best_manifest,
              same,
            );
            clean = (
              ground (
                arith,
                lookup-remove task_id task_id w.staging,
                lookup-remove task_id task_id (insert task_id files w.staging),
                same,
              ),
              λ n. elim (Option-cases (lookup task_id w.best)) [
                | inl e ↦ ground (arith, lookup-remove task_id task_id w.old, same)
                | inr (displaced, e) ↦
                    ground
                      (arith, lookup-remove task_id task_id (insert task_id displaced w.old), same)
              ],
            );
            others = λ task n. ground (
              arith,
              put task w.best,
              put task (remove task_id w.best),
              lookup-remove task_id task w.best,
              eq_iff task_id task,
              eq_iff task task_id,
              same,
            );
            candidates = ground arith;
          }
    ]

pub promote-needs_candidate :
    (faults : Faults) (task_id : String) (loop_id : ℕ) (w w' : Workspace)
    → promote_candidate_to_best faults task_id loop_id w ≡ (return tt, w')
    → (files : Files) × (lookup (task_id, loop_id) w.candidates ≡ some files)
unfolding promote_candidate_to_best
promote-needs_candidate faults task_id loop_id w w' h =
    elim (Option-cases (lookup (task_id, loop_id) w.candidates)) [
      | inl n ↦ absurd (ground arith)
      | inr found ↦ found
    ]
