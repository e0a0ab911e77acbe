-- ===== src/Autosave/Saves.antt =====
-- Edits that are made while a save is under way.
use wiredraft.Prelude.{
  ℕ, String, Bool, true, false, ◌&&◌, ◌||◌, not, List, [], ◌∷◌, none, some, ◌≡◌, refl, ap, ◌∙◌, ◌+◌,
  ◌≤◌, ◌!=◌, nat_eq, string_eq, Bool-cases, inl, inr, arith, any,
}
use wiredraft.Autosave.{
  SettingsInput, AutosaveController, configure, schedule, emit, mark_dirty, mark_saved, start_flush,
  finish_flush, saved, refused, threw, destroy,
}

-- What can happen to the controller while the save is awaited, other than `markSaved`.
pub data Meanwhile : Type 0 where
  edits : Bool → Meanwhile
  configures : Bool → SettingsInput → Meanwhile
  flushes : String → Meanwhile
  schedules : Meanwhile
  destroys : Meanwhile

abbrev pub is_edit : Meanwhile → Bool
is_edit (edits capture) = true
is_edit _ = false

unfoldable pub act : Meanwhile → AutosaveController → AutosaveController
act (edits capture) s = mark_dirty capture s
act (configures stores input) s = configure stores input s
act (flushes reason) s = (start_flush reason s).0
act schedules s = schedule s
act destroys s = destroy s

unfoldable pub act_all : List Meanwhile → AutosaveController → AutosaveController
unfolding act
act_all [] s = s
act_all (m ∷ ms) s = act_all ms (act m s)

-- What one action does to a controller that is saving.
record Kept (s after : AutosaveController) (edit : Bool) : Type 0 where
  saving : after.is_saving ≡ true
  dirty : after.is_dirty ≡ (s.is_dirty || edit)
  least : s.version ≤ after.version
  same : edit ≡ false → after.version ≡ s.version
  newer : edit ≡ true → s.version + 1 ≤ after.version

act-Kept :
    (m : Meanwhile) (s : AutosaveController) → s.is_saving ≡ true → Kept s (act m s) (is_edit m)
unfolding act mark_dirty configure start_flush schedule destroy emit
act-Kept (edits capture) s h = record {
  saving = h;
  dirty = ground arith;
  least = omega arith;
  same = λ e. ground arith;
  newer = λ e. omega arith;
}
act-Kept (configures stores input) s h = record {
  saving = h;
  dirty = ground arith;
  least = omega arith;
  same = λ e. refl;
  newer = λ e. ground arith;
}
act-Kept (flushes reason) s h = ground arith
act-Kept schedules s h = record {
  saving = h;
  dirty = ground arith;
  least = omega arith;
  same = λ e. refl;
  newer = λ e. ground arith;
}
act-Kept destroys s h = record {
  saving = h;
  dirty = ground arith;
  least = omega arith;
  same = λ e. refl;
  newer = λ e. ground arith;
}

act_all-Kept :
    (ms : List Meanwhile) (s : AutosaveController)
    → s.is_saving ≡ true
    → Kept s (act_all ms s) (any is_edit ms)
unfolding act_all
act_all-Kept [] s h = record {
  saving = h;
  dirty = ground arith;
  least = omega arith;
  same = λ e. refl;
  newer = λ e. ground arith;
}
act_all-Kept (m ∷ ms) s h =
    let k = act-Kept m s h in
    let l = act_all-Kept ms (act m s) k.saving in
    record {
      saving = l.saving;
      dirty = ground (arith, k.dirty, l.dirty);
      least = omega (arith, k.least, l.least);
      same = λ e. ground (arith, k.same, l.same);
      newer = λ e. ground (arith, k.newer, k.least, l.least, l.newer);
    }

started :
    (reason : String) (s : AutosaveController) (version : ℕ)
    → (start_flush reason s).1 ≡ some version
    → ((start_flush reason s).0.is_saving ≡ true)
      × ((start_flush reason s).0.version ≡ version)
      × ((start_flush reason s).0.is_dirty ≡ s.is_dirty)
unfolding start_flush emit
started reason s version h =
    elim (Bool-cases
      ((reason != "manual" && (not s.settings.enabled || not s.is_dirty)) || s.is_saving)) [
        | inl e ↦ absurd (ground (arith, e, h))
        | inr e ↦ rw e (refl, ground (arith, e, h), refl)
      ]

busy :
    (reason : String) (s : AutosaveController)
    → s.is_saving ≡ true
    → (start_flush reason s).1 ≡ none
unfolding start_flush
busy reason s h = ground arith

saved-is_dirty :
    (version now : ℕ) (s t : AutosaveController) (edit : Bool)
    → s.version ≡ version
    → Kept s t edit
    → (finish_flush version saved now t).is_dirty ≡ edit
unfolding finish_flush mark_saved emit
saved-is_dirty version now s t true e k = ground (arith, k.newer, k.dirty)
saved-is_dirty version now s t false e k = ground (arith, k.same)

-- A save that a flush began, with anything but a `markSaved` while it is awaited: no edit made in
-- between is lost. If the save succeeds, the map is dirty afterwards exactly if it was edited in
-- between; if it is refused or throws, a dirty map stays dirty too. No second save begins before.
pub finish_flush-is_dirty :
    (reason : String) (s : AutosaveController) (version : ℕ) (ms : List Meanwhile) (now : ℕ)
    (error : String)
    → (start_flush reason s).1 ≡ some version
    → let during = act_all ms (start_flush reason s).0 in
      ((finish_flush version saved now during).is_dirty ≡ any is_edit ms)
      × ((finish_flush version refused now during).is_dirty ≡ (s.is_dirty || any is_edit ms))
      × ((finish_flush version (threw error) now during).is_dirty ≡ (s.is_dirty || any is_edit ms))
      × ((other : String) → (start_flush other during).1 ≡ none)
unfolding finish_flush emit
finish_flush-is_dirty reason s version ms now error h =
    let (saving, at, dirty) = started reason s version h in
    let k = act_all-Kept ms (start_flush reason s).0 saving in
    (
      saved-is_dirty version now _ _ (any is_edit ms) at k,
      k.dirty ∙ ap (λ b. b || any is_edit ms) dirty,
      k.dirty ∙ ap (λ b. b || any is_edit ms) dirty,
      λ other. busy other _ k.saving,
    )
