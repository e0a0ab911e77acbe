-- ===== src/Autosave.antt =====
-- Saving by itself: web/static/js/autosave.js. The two settings of the storage are what
-- `JSON.parse` gives for them. A flush is two calls, before and after the awaited `save`; the clock
-- is an argument. `timer` is the delay of the pending `setTimeout` call. `events` lists the status
-- events, the latest first.
pub mod Settings
pub mod Saves
use wiredraft.Prelude.{
  ℕ, String, Bool, true, false, ◌&&◌, ◌||◌, not, List, [], ◌∷◌, Option, none, some, ◌+◌, ◌*◌, ◌==◌,
  ◌!=◌, Eq, string_eq, nat_eq, if◌then◌else◌, contains,
}

-- What the source reads of a settings object: a number, and a field that may be exactly `false`.
pub record SettingsInput : Type 0 where
  pub enabled : Option Bool
  pub interval_seconds : Option ℕ

pub record AutosaveSettings : Type 0 where
  pub enabled : Bool
  pub interval_seconds : ℕ

-- An item of the storage.
pub data Stored : Type 0 where
  missing : Stored
  unreadable : Stored
  null_value : Stored
  settings : SettingsInput → Stored

abbrev pub autosave_intervals : List ℕ
autosave_intervals = 30 ∷ 60 ∷ 300 ∷ []

abbrev pub default_settings : AutosaveSettings
default_settings = record { enabled = true; interval_seconds = 30 }

abbrev pub interval_or_default : Option ℕ → ℕ
interval_or_default none = 30
interval_or_default (some n) = if contains autosave_intervals n then n else 30

abbrev pub not_false : Option Bool → Bool
not_false none = true
not_false (some b) = b

unfoldable pub normalize_autosave_settings : SettingsInput → AutosaveSettings
normalize_autosave_settings input = record {
  enabled = not_false input.enabled;
  interval_seconds = interval_or_default input.interval_seconds;
}

abbrev pub parsed : Stored → AutosaveSettings
parsed missing = default_settings
parsed unreadable = default_settings
parsed null_value = default_settings
parsed (settings input) = normalize_autosave_settings input

-- The settings of the current key and of the legacy key, which is copied to the current one.
unfoldable pub load_autosave_settings : Stored → Stored → AutosaveSettings × Stored
unfolding normalize_autosave_settings
load_autosave_settings missing legacy = (parsed legacy, legacy)
load_autosave_settings current legacy = (parsed current, current)

pub record Status : Type 0 where
  pub is_dirty : Bool
  pub is_saving : Bool
  pub error : Option String
  pub last_saved_at : Option ℕ
  pub capture : Bool

pub record AutosaveController : Type 0 where
  pub storage : Stored
  pub settings : AutosaveSettings
  pub is_dirty : Bool
  pub is_saving : Bool
  pub version : ℕ
  pub error : Option String
  pub last_saved_at : Option ℕ
  pub timer : Option ℕ
  pub events : List Status

unfoldable pub schedule : AutosaveController → AutosaveController
schedule s = record s {
  timer = if s.settings.enabled then some (s.settings.interval_seconds * 1000) else none;
}

unfoldable pub new_controller : Stored → Stored → AutosaveController
unfolding schedule load_autosave_settings
new_controller current legacy = schedule (record {
  storage = (load_autosave_settings current legacy).1;
  settings = (load_autosave_settings current legacy).0;
  is_dirty = false;
  is_saving = false;
  version = 0;
  error = none;
  last_saved_at = none;
  timer = none;
  events = [];
})

abbrev pub or_else : Option String → Option String → Option String
or_else none old = old
or_else (some new) old = some new

unfoldable pub emit : Option String → Bool → AutosaveController → AutosaveController
emit error capture s =
    let next = or_else error s.error in
    record s {
      error = next;
      events =
          (record {
            is_dirty = s.is_dirty;
            is_saving = s.is_saving;
            error = next;
            last_saved_at = s.last_saved_at;
            capture = capture;
          })
          ∷ s.events;
    }

-- What is stored of the settings.
abbrev pub as_input : AutosaveSettings → SettingsInput
as_input s = record { enabled = some s.enabled; interval_seconds = some s.interval_seconds }

-- `stores` tells whether the storage takes the settings.
unfoldable pub configure : Bool → SettingsInput → AutosaveController → AutosaveController
unfolding schedule emit normalize_autosave_settings
configure stores input s =
    let next = normalize_autosave_settings input in
    emit none false (
      schedule (record s {
        settings = next;
        storage = if stores then settings (as_input next) else s.storage;
      }))

unfoldable pub mark_dirty : Bool → AutosaveController → AutosaveController
unfolding emit
mark_dirty capture s = emit none capture (record s { version = s.version + 1; is_dirty = true })

unfoldable pub mark_saved : Bool → ℕ → AutosaveController → AutosaveController
unfolding emit
mark_saved persisted now s = emit none false (record s {
  is_dirty = false;
  is_saving = false;
  error = none;
  last_saved_at = if persisted then some now else none;
})

-- `flush` up to the awaited save: the version that is saved, or `none` where it returns `false`.
unfoldable pub start_flush : String → AutosaveController → AutosaveController × Option ℕ
unfolding emit
start_flush reason s =
    if (reason != "manual" && (not s.settings.enabled || not s.is_dirty)) || s.is_saving
    then (s, none)
    else (emit none false (record s { is_saving = true }), some s.version)

-- How the awaited save ends.
pub data Outcome : Type 0 where
  saved : Outcome
  refused : Outcome
  threw : String → Outcome

-- `flush` after the awaited save of the given version.
unfoldable pub finish_flush : ℕ → Outcome → ℕ → AutosaveController → AutosaveController
unfolding emit mark_saved
finish_flush version refused now s = emit none false (record s { is_saving = false })
finish_flush version (threw error) now s = emit (some error) false (record s { is_saving = false })
finish_flush version saved now s =
    if version == s.version
    then mark_saved true now s
    else emit none false (record s { is_saving = false; error = none; last_saved_at = some now })

unfoldable pub destroy : AutosaveController → AutosaveController
destroy s = record s { timer = none }
