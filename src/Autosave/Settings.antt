-- ===== src/Autosave/Settings.antt =====
-- Settings that are stored and loaded again.
use wiredraft.Prelude.{
  ℕ, true, Option, none, some, ◌≡◌, refl, ap, ◌⊎◌, inl, inr, nat_eq, Bool-cases, arith,
  if◌then◌else◌, contains, ◌*◌,
}
use wiredraft.Autosave.{
  SettingsInput, AutosaveSettings, Stored, autosave_intervals, interval_or_default,
  normalize_autosave_settings, load_autosave_settings, AutosaveController, configure, schedule,
  emit, as_input, new_controller,
}

abbrev pub IsInterval : ℕ → Type 0
IsInterval n = (n ≡ 30) ⊎ ((n ≡ 60) ⊎ (n ≡ 300))

interval_or_default-IsInterval : (o : Option ℕ) → IsInterval (interval_or_default o)
interval_or_default-IsInterval none = inl refl
interval_or_default-IsInterval (some n) = elim (Bool-cases (contains autosave_intervals n)) [
  | inl e ↦ ground arith
  | inr e ↦ ground arith
]

interval_again : (n : ℕ) → IsInterval n → interval_or_default (some n) ≡ n
interval_again n (inl e) = rw e refl
interval_again n (inr (inl e)) = rw e refl
interval_again n (inr (inr e)) = rw e refl

normalize_again :
    (input : SettingsInput)
    → normalize_autosave_settings (as_input (normalize_autosave_settings input))
      ≡ normalize_autosave_settings input
unfolding normalize_autosave_settings
normalize_again input =
    rw
      (interval_again (interval_or_default input.interval_seconds)
        (interval_or_default-IsInterval input.interval_seconds))
      refl

normalize-IsInterval :
    (input : SettingsInput) → IsInterval (normalize_autosave_settings input).interval_seconds
unfolding normalize_autosave_settings
normalize-IsInterval input = interval_or_default-IsInterval input.interval_seconds

-- Settings that `configure` stores are those that the next controller starts with, whatever the
-- legacy key holds; their interval is one of the three offered, and a timer of that interval is
-- pending exactly if they are enabled.
pub load_autosave_settings-configure :
    (input : SettingsInput) (s : AutosaveController) (legacy : Stored)
    → let configured = configure true input s in
      let reloaded = new_controller configured.storage legacy in
      (reloaded.settings ≡ configured.settings)
      × IsInterval configured.settings.interval_seconds
      × (configured.timer ≡ (
          if configured.settings.enabled
          then some (configured.settings.interval_seconds * 1000)
          else none))
      × (reloaded.timer ≡ configured.timer)
unfolding configure schedule emit new_controller load_autosave_settings
load_autosave_settings-configure input s legacy = (
  normalize_again input,
  normalize-IsInterval input,
  refl,
  ap (λ (c : AutosaveSettings). if c.enabled then some (c.interval_seconds * 1000) else none)
      (normalize_again input),
)
