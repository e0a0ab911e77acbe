-- ===== src/Tests/HistoryTests.antt =====
-- Commits, undo and redo, run.
use wiredraft.Prelude.{take, true, [], ◌∷◌, Option, some, none, ◌≡◌, refl, arith, string_eq, inl}
use wiredraft.Topology.{Topology}
use wiredraft.EditorLock.{new_lock, Lock}
use wiredraft.AppState.{AppState, new_state, emit, ensure_selection}
use wiredraft.AppState.Changes.{commit, commit_to, undo, undo_to, redo, at_revision, ask_change}
use wiredraft.AppState.History.{Bounded, loads, commits, undoes, apply_all, apply_all-Bounded}
use wiredraft.AppState.Undo.{Refuses, redo-undo-commit, closed_lock-Refuses}
use wiredraft.Tests.Samples.{sample}

abbrev renamed : Topology → Topology
renamed t = record t { name = "RENAMED" }

abbrev at_work : Option Lock → AppState
at_work lock = record (new_state lock) { topology = some sample }

apply_all-Bounded_example : Bounded (
    apply_all
      ((1, loads (some sample) true) ∷ (2, commits renamed) ∷ (3, undoes) ∷ [])
      (at_work none))
apply_all-Bounded_example =
    apply_all-Bounded ((1, loads (some sample) true) ∷ (2, commits renamed) ∷ (3, undoes) ∷ [])
      (at_work none) (omega arith)

redo-undo-commit_example :
    let done = (commit 1 renamed (at_work none)).0 in
    let undone = (undo 2 done).0 in
    let redone = (redo 3 undone).0 in
    ((undo 2 done).1 ≡ true)
    × (undone.topology ≡ some (at_revision (renamed sample) sample))
    × ((redo 3 undone).1 ≡ true)
    × (redone.topology ≡ some (renamed sample))
    × (redone.history ≡ at_revision (renamed sample) sample ∷ take 49 (at_work none).history)
    × (redone.future ≡ [])
unfolding commit commit_to undo undo_to emit ensure_selection ask_change
redo-undo-commit_example = redo-undo-commit 1 2 3 renamed (at_work none) sample refl refl refl refl

closed_lock-Refuses_example :
    Refuses (at_work (some new_lock)) (commit 1 renamed (at_work (some new_lock)))
    × Refuses (at_work (some new_lock)) (undo 1 (at_work (some new_lock)))
    × Refuses (at_work (some new_lock)) (redo 1 (at_work (some new_lock)))
closed_lock-Refuses_example =
    closed_lock-Refuses 1 renamed (at_work (some new_lock)) new_lock refl (inl refl)

-- The automatic expansion of an open rack, and its collapse by hand.
abbrev opened_rack : AppState
opened_rack = record (at_work none) { dual_face_rack_ids = "r1" ∷ "r2" ∷ [] }
