-- ===== src/Tests/UpdateTests.antt =====
-- Live updates and saves, run.
use wiredraft.Prelude.{
  ℕ, String, true, false, List, [], ◌∷◌, some, none, ◌≡◌, refl, ◌||◌, string_eq,
}
use wiredraft.Collaboration.{
  Update, Collaboration, Event, opens, fails, fires, hears, happen_all, new_collaboration, connect,
  close,
}
use wiredraft.Collaboration.Revisions.{Timeline, begun, happen_all-Timeline}
use wiredraft.Collaboration.Connection.{IsConnected, connect-IsConnected_after}
use wiredraft.Autosave.{
  AutosaveController, SettingsInput, missing, new_controller, start_flush, finish_flush, saved,
  refused, threw, mark_dirty, emit, schedule, load_autosave_settings,
}
use wiredraft.Autosave.Saves.{Meanwhile, edits, flushes, act_all, finish_flush-is_dirty}

abbrev update : ℕ → Update
update n = record { id = "map"; revision = some n; content = "" }

-- Revisions 5 (a gap), 5 again, and 6, over a lost connection.
abbrev traffic : List Event
traffic =
    opens 0
    ∷ hears 0 (some (update 5)) "topology_updated"
    ∷ fails 0
    ∷ fires
    ∷ hears 1 (some (update 5)) "topology_updated"
    ∷ hears 1 (some (update 6)) "rack_created"
    ∷ []

abbrev joined : Collaboration
joined = record new_collaboration {
  source = some 0;
  made = 1;
  topology_id = "map";
  revision = 2;
  stopped = false;
}

happen_all-Timeline_example :
    Timeline 2 (happen_all traffic joined).revision (happen_all traffic joined).calls
happen_all-Timeline_example = happen_all-Timeline 2 traffic joined begun

connect-IsConnected_after_example :
    IsConnected (happen_all traffic (connect (some (update 2)) new_collaboration))
    × ((close (happen_all traffic (connect (some (update 2)) new_collaboration))).source ≡ none)
    × ((close (happen_all traffic (connect (some (update 2)) new_collaboration))).timer ≡ none)
    × ((close (happen_all traffic (connect (some (update 2)) new_collaboration))).topology_id ≡ "")
connect-IsConnected_after_example =
    connect-IsConnected_after (update 2) new_collaboration traffic refl

-- A fresh controller with one unsaved edit.
abbrev edited : AutosaveController
edited = mark_dirty true (new_controller missing missing)

abbrev during_save : List Meanwhile
during_save = flushes "auto" ∷ edits true ∷ []

started_flush : (start_flush "auto" edited).1 ≡ some 1
unfolding start_flush mark_dirty new_controller schedule emit load_autosave_settings
started_flush = refl

finish_flush-is_dirty_example :
    let during = act_all during_save (start_flush "auto" edited).0 in
    ((finish_flush 1 saved 7 during).is_dirty ≡ true)
    × ((finish_flush 1 refused 7 during).is_dirty ≡ (edited.is_dirty || true))
    × ((finish_flush 1 (threw "offline") 7 during).is_dirty ≡ (edited.is_dirty || true))
    × ((other : String) → (start_flush other during).1 ≡ none)
finish_flush-is_dirty_example =
    finish_flush-is_dirty "auto" edited 1 during_save 7 "offline" started_flush

-- An interval that is not offered.
abbrev odd : SettingsInput
odd = record { enabled = none; interval_seconds = some 45 }
