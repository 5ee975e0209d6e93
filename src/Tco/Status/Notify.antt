-- ===== src/Tco/Status/Notify.antt =====
-- What the TCO's notifications of changes say.
use snd_hdspe.Common.{
  ℕ, ◌≡◌, refl, ap, ◌∙◌, Bool, false, not, ◌&&◌, ◌||◌, ◌==◌, Bool-cases, inl, inr, arith, List, [],
  ◌∷◌, ◌++◌,
}
use snd_hdspe.Tco.{read_status1}
use snd_hdspe.Tco.Status.{
  Property, ltc_valid, ltc_in_fps, ltc_in_drop, video, video_in_fps, wck_valid, wck_speed, tco_lock,
  LastStatus, check, is_quiet, notify_status_change,
}

-- The value of a control in a status.
pub value_of : Property → LastStatus → ℕ
value_of ltc_valid s = s.status1.ltc_valid
value_of ltc_in_fps s = s.status1.ltc_in_fps
value_of ltc_in_drop s = s.status1.ltc_in_drop
value_of video s = s.status1.video
value_of video_in_fps s = s.video_in_fps
value_of wck_valid s = s.status1.wck_valid
value_of wck_speed s = s.status1.wck_speed
value_of tco_lock s = s.status1.tco_lock

number_of : Property → ℕ
number_of ltc_valid = 0
number_of ltc_in_fps = 1
number_of ltc_in_drop = 2
number_of video = 3
number_of video_in_fps = 4
number_of wck_valid = 5
number_of wck_speed = 6
number_of tco_lock = 7

pub has : Property → List Property → Bool
has x [] = false
has x (y ∷ ys) = (number_of x == number_of y) || has x ys

has-append : (x : Property) (ys zs : List Property) → has x (ys ++ zs) ≡ (has x ys || has x zs)
unfolding has
has-append x [] zs = refl
has-append x (y ∷ ys) zs =
    ap (λ b. (number_of x == number_of y) || b) (has-append x ys zs)
    ∙ or_assoc (number_of x == number_of y) (has x ys) (has x zs)
  where
    or_assoc : (a b c : Bool) → (a || (b || c)) ≡ ((a || b) || c)
    or_assoc a b c = ground arith

has-check :
    (x prop : Property) (n o : ℕ)
    → has x (check n o prop) ≡ ((number_of x == number_of prop) && not (n == o))
unfolding has check
has-check x prop n o = elim (Bool-cases (n == o)) [
  | inl same ↦ rw same (ground arith)
  | inr differs ↦ rw differs (ground arith)
]

-- A control is notified exactly if its value in the new status is not that in the last one. The new
-- status is that of register 1, but its video_in_fps is whatever the local variable has happened to
-- hold: its notification does not depend on the card.
pub notify_status_change_lem :
    (x : Property) (uninitialised tco1 : ℕ) (last : LastStatus)
    → let (new, notified, changed) = notify_status_change uninitialised tco1 last in
      (new.status1 ≡ read_status1 tco1)
      × (new.video_in_fps ≡ uninitialised)
      × (has x notified ≡ not (value_of x new == value_of x last))
      × (changed ≡ not (is_quiet notified))
unfolding notify_status_change value_of number_of
notify_status_change_lem ltc_valid v tco1 last =
    (refl, refl, simp (has-append, has-check) (ground arith), refl)
notify_status_change_lem ltc_in_fps v tco1 last =
    (refl, refl, simp (has-append, has-check) (ground arith), refl)
notify_status_change_lem ltc_in_drop v tco1 last =
    (refl, refl, simp (has-append, has-check) (ground arith), refl)
notify_status_change_lem video v tco1 last =
    (refl, refl, simp (has-append, has-check) (ground arith), refl)
notify_status_change_lem video_in_fps v tco1 last =
    (refl, refl, simp (has-append, has-check) (ground arith), refl)
notify_status_change_lem wck_valid v tco1 last =
    (refl, refl, simp (has-append, has-check) (ground arith), refl)
notify_status_change_lem wck_speed v tco1 last =
    (refl, refl, simp (has-append, has-check) (ground arith), refl)
notify_status_change_lem tco_lock v tco1 last =
    (refl, refl, simp (has-append, has-check) (ground arith), refl)
