-- ===== src/AppState/Changes.antt =====
-- Changes of the document, and their undoing: `commit`, `undo` and `redo` of class `AppState` of
-- web/static/js/state.js.
use wiredraft.Prelude.{
  ℕ, Bool, true, false, ◌||◌, not, List, [], ◌∷◌, Option, none, some, string_eq, nat_eq,
  if◌then◌else◌,
}
use wiredraft.Topology.{Topology}
use wiredraft.Document.{same_document}
use wiredraft.EditorLock.{Lock, allows_change, record_change}
use wiredraft.AppState.{AppState, emit, ensure_selection, remember_in}

-- The lock's answer to a change, where there is a lock.
unfoldable pub ask_change : ℕ → Topology → Topology → Option Lock → Option Lock × Bool
ask_change now before after none = (none, true)
ask_change now before after (some lock) =
    let (asked, allowed) = allows_change now before after lock in (some asked, allowed)

-- `sameDocument` is asked only where there is a lock.
unfoldable pub unchanged : Option Lock → Topology → Topology → Bool
unchanged none before after = false
unchanged (some lock) before after = same_document before after

unfoldable pub record_in : ℕ → Topology → Topology → Option Lock → Option Lock
record_in now before after none = none
record_in now before after (some lock) = some (record_change now before after lock)

unfoldable pub commit_to : ℕ → Topology → Topology → AppState → AppState × Bool
unfolding ask_change unchanged record_in
commit_to now current next s =
    let (lock, allowed) = ask_change now current next s.edit_lock in
    if not allowed || unchanged s.edit_lock current next
    then (record s { edit_lock = lock }, false)
    else (
      emit "topology" (record s {
        edit_lock = record_in now current next lock;
        history = remember_in s.history current;
        future = [];
        topology = some next;
      }),
      true,
    )

unfoldable pub commit : ℕ → (Topology → Topology) → AppState → AppState × Bool
unfolding commit_to
commit now mutator s = elim s.topology [
  | none ↦ (s, false)
  | some current ↦ commit_to now current (mutator current) s
]

-- The document of a step back or forth keeps the revision that the map has now.
abbrev pub at_revision : Topology → Topology → Topology
at_revision current t = record t { revision = current.revision }

unfoldable pub undo_to : ℕ → Topology → Topology → List Topology → AppState → AppState × Bool
unfolding ask_change record_in
undo_to now current previous rest s =
    let (lock, allowed) = ask_change now current previous s.edit_lock in
    if not allowed then (record s { edit_lock = lock }, false) else (
      emit "topology" (
          ensure_selection (record s {
            edit_lock = record_in now current previous lock;
            future = current ∷ s.future;
            history = rest;
            topology = some (at_revision current previous);
          })),
      true,
    )

unfoldable pub undo_from : ℕ → Option Topology → List Topology → AppState → AppState × Bool
undo_from now none history s = (s, false)
undo_from now (some current) [] s = (s, false)
undo_from now (some current) (previous ∷ rest) s = undo_to now current previous rest s

unfoldable pub undo : ℕ → AppState → AppState × Bool
unfolding undo_from
undo now s = undo_from now s.topology s.history s

unfoldable pub redo_to : ℕ → Topology → Topology → List Topology → AppState → AppState × Bool
unfolding ask_change record_in
redo_to now current next rest s =
    let (lock, allowed) = ask_change now current next s.edit_lock in
    if not allowed then (record s { edit_lock = lock }, false) else (
      emit "topology" (
          ensure_selection (record s {
            edit_lock = record_in now current next lock;
            history = current ∷ s.history;
            future = rest;
            topology = some (at_revision current next);
          })),
      true,
    )

unfoldable pub redo_from : ℕ → Option Topology → List Topology → AppState → AppState × Bool
redo_from now none future s = (s, false)
redo_from now (some current) [] s = (s, false)
redo_from now (some current) (next ∷ rest) s = redo_to now current next rest s

unfoldable pub redo : ℕ → AppState → AppState × Bool
unfolding redo_from
redo now s = redo_from now s.topology s.future s
