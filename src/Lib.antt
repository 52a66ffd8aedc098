-- ===== src/Lib.antt =====
-- hungerloop: the loop that drives a task by its hunger. This library models the services that decide
-- what the loop accepts, and proves what they promise.
--
-- The parts, with the files of the repository that they model and their place here:
--
-- * The data (src/hungerloop/models/enums.py, hunger.py, validation.py, blackboard.py, mission.py,
--   refactor.py, planning.py,
--   usage.py, worker.py): Models. A hunger ledger holds the items of a task; an item has acceptance checks,
--   which are named by check keys (CheckKey: `make_check_key` and the split at the first colon).
-- * The repository (src/hungerloop/repository/in_memory_repo.py, and `transaction` of
--   sqlite_repo.py): Repository, with the missions in Repository/Missions and the refactor
--   transactions in Repository/Transactions. It is one record that the operations take and return;
--   `rolls_back` says whether `transaction` restores it when its body raises.
-- * The hunger engine (src/hungerloop/services/hunger_engine.py): HungerEngine (`tick`, and
--   `tick_mission` for a task with a repository) and PhaseMachine (`_advance_mission_phases`). The
--   engine decides the stop reason and the phases of a mission.
-- * The validation gate (src/hungerloop/services/validation_gate.py): ValidationGate, with the
--   reruns in ValidationGate/Confirmation and `validate` in ValidationGate/Validation. It runs the
--   checks of the target items on a candidate, then those of the accepted keys, confirms the
--   regressions by reruns, and makes a report.
-- * The commit manager (src/hungerloop/services/commit_manager.py): CommitManager, with the gate in
--   CommitManager/Decision and `apply` in CommitManager/Applying. It promotes a
--   candidate whose report is committable, or rejects it. It uses the workspace manager
--   (src/hungerloop/services/workspace_manager.py: Workspace) and the repository, held together by
--   a `World`.
-- * The selection among candidates (src/hungerloop/services/commit_selection.py): CommitSelection.
-- * The refactor transactions (src/hungerloop/services/refactor_transaction_manager.py):
--   RefactorTransactions for opening, RefactorTransactions/Settlement for closing, settling and
--   rolling back. While one is open, the commit manager tolerates the regressions it declares.
-- * The hunger update (src/hungerloop/services/hunger_update.py): HungerUpdate. It lowers the gaps of
--   the items whose checks newly passed. Ledgers has the change of an item in place, found by id.
-- * The stagnation detector (src/hungerloop/services/stagnation_detector.py): Stagnation. It counts
--   the failures of items and the loops without progress.
-- * The budgets (src/hungerloop/services/budget_guard.py, cost_guard.py, budget_allocator.py):
--   Budgets. One guard is for a worker in a loop, the other for a task. Budgets/Guard has what a worker
--   asks and records (src/hungerloop/services/execution_worker.py, tool_harness.py, worker_runtime.py).
-- * The planner (src/hungerloop/services/rule_based_planner.py): Planner. It picks the item of a loop.
-- * The worker scheduler (src/hungerloop/services/worker_scheduler.py): Scheduler for the search for a
--   cycle and the order, Scheduler/Execution for the retries and the loop over the assignments.
-- * The gate for proposed checks (src/hungerloop/services/check_proposal_gate.py, with the keys of
--   models/synthesis.py): CheckProposals for the tests, CheckProposals/Paths for the safety of paths,
--   and CheckProposals/Loop for `filter`.
-- * The locks of the tasks (src/hungerloop/repository/in_memory_repo.py): TaskLocks.
-- * The conflicts between synthesized and accepted checks
--   (src/hungerloop/services/synthesized_check_lifecycle.py, and `record_synthesis_conflict` of
--   src/hungerloop/services/refinement_compiler.py): Conflicts.
-- * The loop orchestrator (src/hungerloop/services/loop_orchestrator.py), from the validated
--   candidate to the verdict on stagnation, and the loop with an empty plan: Orchestrator. There the
--   commit manager, the hunger update and the stagnation detector meet. Orchestrator/Features has the
--   items that a loop attempted, and the features that it completed, with their events.
-- * Prelude has the shared notation: tests, lists, dicts, texts, the stable sort and floats. Samples
--   has the data and the examples that the theorems are applied to.
--
-- Conventions. A dict is an association list in the order of insertion, a set the list of its
-- elements without duplicates. Floats are any type with the operations used and, where a theorem
-- needs it, a total order (`IsOrdered`); `milli` is an instance that runs. Numbers are natural
-- numbers. What raises is a `Result`, or an `Option` where only one error is possible. The
-- recursions that are not structural are on fuel: `print_index` on `n + 1`, which the round trip of
-- the check keys shows to be enough; the visits of the search for a cycle on one more than the
-- number of ids, the rounds of the order on the number of assignments, and the retries on one more
-- than the retries left, for each of which it is a theorem of Scheduler that the fuel does not run out.
--
-- Parameters. The acceptance runner is a function of the check and of the number of the run, so two
-- runs of a check may differ; a run may raise. The file system refuses the calls that `Faults` and `CopyFaults` name.
-- The regeneration of mission artifacts, which the commit manager is given behind a protocol, is a
-- field of `Environment`. The worker runtime, with the context that it is given, is a function of the
-- assignment and the repository; the digest of a conflict is a function of its text. A dry run of a proposed check is a function of the command and of the number of the run,
-- and what the gate for proposals calls of Python's texts, json and compiler are the fields of `Python`.
--
-- Not modelled: the rest of the loop orchestrator, workers, tools and sandboxes, the audit files of
-- the scheduler, the model
-- clients, the compilers of requirements and checks, memory and skills, the command line, and the
-- SQL of the repository. They are I/O and prompts, or services around the ones above.
pub mod Prelude
pub mod CheckKey
pub mod Models
pub mod Repository
pub mod Ledgers
pub mod Workspace
pub mod PhaseMachine
pub mod ValidationGate
pub mod HungerEngine
pub mod CheckProposals
pub mod CommitManager
pub mod CommitSelection
pub mod RefactorTransactions
pub mod Stagnation
pub mod HungerUpdate
pub mod Budgets
pub mod Planner
pub mod TaskLocks
pub mod Scheduler
pub mod Conflicts
pub mod Orchestrator
pub mod Samples
