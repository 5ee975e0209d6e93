-- ===== src/Controls/Isolation.antt =====
-- No control of a card changes another field of the card's registers.
use mathlib.Core.List.{Memᴰ}
use snd_hdspe.Common.{
  ℕ, zero, suc, ◌≡◌, ◌≤◌, ◌+◌, ◌%◌, ◌/◌, ◌⊎◌, inl, inr, refl, ap, ◌∙◌, Bool, true, false, not, ◌&&◌,
  ◌||◌, ◌==◌, leb, leb→le, Bool-cases, arith, List, [], ◌∷◌, ◌++◌, map,
}
use snd_hdspe.Common.Finite.{&&-split}
use snd_hdspe.Common.Int.{ℤ, pos, negsuc}
use snd_hdspe.Common.Bits.Fields.{get_field, put_field, get_field-put_field_other}
use snd_hdspe.Device.{IoType, madi, madiface, aio, aes, raydat, aio_pro}
use snd_hdspe.Driver.{Hardware, write_control, write_settings, hdspe_write}
use snd_hdspe.Controls.Card.{
  CardControl, of_field, aio_pro_output_level, assigned, card_controls, pro_controls, card_put,
}
use snd_hdspe.Controls.{
  RegName, control, settings, Place, in_control, in_settings, ControlName, place, controls_of,
  madi_controls, madiface_controls, aes_controls, raydat_controls, aio_controls, aio_pro_controls,
  raw_of, write_reg, get_reg, assign, put_reg, put, control_put, put_if, or_changed,
  get_aio_pro_output_level, set_aio_pro_output_level, put_aio_pro_output_level,
}

unfoldable pub same_reg : RegName → RegName → Bool
same_reg control control = true
same_reg settings settings = true
same_reg _ _ = false

unfoldable pub same_place : Place → Place → Bool
same_place p q = same_reg (p.reg) (q.reg) && (p.first == q.first)

apart : Place → Place → Bool
apart p q =
    not (same_reg (p.reg) (q.reg))
    || (leb (p.first + p.width) q.first || leb (q.first + q.width) p.first)

-- START, LAT, IE_AUDIO, freq, ds, the enable bits of MIDI ports 2, 0 and 1, and qs.
unfoldable pub common_fields : List Place
common_fields =
    in_control 0 1
    ∷ (in_control 1 3
        ∷ (in_control 5 1
            ∷ (in_control 6 2
                ∷ (in_control 8 1
                    ∷ (in_control 21 1
                        ∷ (in_control 22 1 ∷ (in_control 23 1 ∷ (in_control 31 1 ∷ []))))))))

raio_fields : List Place
raio_fields =
    in_settings 0 1
    ∷ (in_control 25 1 ∷ (in_control 24 1 ∷ (in_settings 1 4 ∷ (in_settings 19 1 ∷ []))))

-- The card's own fields besides those of the controls: the clock mode, the float format, the preferred
-- reference, the enable bit of the MADI's MIDI port 3, LineOut of the control and of the settings, and
-- the two fields of the AIO Pro's output level.
pub own_fields : IoType → List Place
own_fields madi = in_control 4 1 ∷ (in_control 25 1 ∷ (in_control 16 2 ∷ (in_control 26 1 ∷ [])))
own_fields madiface =
    in_control 4 1 ∷ (in_control 25 1 ∷ (in_control 16 2 ∷ (in_control 26 1 ∷ [])))
own_fields aes =
    in_control 4 1
    ∷ (in_control 30 1
        ∷ (in_control 13 1 ∷ (in_control 16 1 ∷ (in_control 17 1 ∷ (in_control 25 1 ∷ [])))))
own_fields aio_pro = in_settings 22 2 ∷ (in_settings 26 1 ∷ raio_fields)
own_fields _ = raio_fields

unfoldable pub fields_of : IoType → List Place
fields_of io = common_fields ++ (own_fields io ++ map place (controls_of io))

all : {A : Type 0} → (A → Bool) → List A → Bool
all p [] = true
all p (x ∷ xs) = p x && all p xs

all_sound :
    {A : Type 0} (p : A → Bool) (x : A) (xs : List A) → all p xs ≡ true → Memᴰ x xs → p x ≡ true
unfolding all
all_sound p x [] h m = elim m [ ]
all_sound p x (y ∷ ys) h (Memᴰ.head e) = ap p e ∙ (&&-split (p y) (all p ys) h).0
all_sound p x (y ∷ ys) h (Memᴰ.tail m) = all_sound p x ys (&&-split (p y) (all p ys) h).1 m

unfoldable pub any : {A : Type 0} → (A → Bool) → List A → Bool
any p [] = false
any p (x ∷ xs) = p x || any p xs

-- The put of the control assigns the field.
unfoldable pub assigns : CardControl → Place → Bool
assigns c p = any (λ t. same_place t p) (assigned c)

is_isolated : CardControl → Place → Bool
is_isolated c p = assigns c p || all (λ t. apart t p) (assigned c)

isolated : IoType → Bool
isolated io = all (λ c. all (is_isolated c) (fields_of io)) (card_controls io)

isolated_all : (io : IoType) → isolated io ≡ true
unfolding isolated is_isolated all any assigns assigned same_place apart same_reg fields_of
    common_fields own_fields raio_fields card_controls pro_controls controls_of madi_controls
    madiface_controls aes_controls raydat_controls aio_controls aio_pro_controls place in_control
    in_settings
isolated_all madi = refl
isolated_all madiface = refl
isolated_all aes = refl
isolated_all aio = refl
isolated_all raydat = refl
isolated_all aio_pro = refl

kept :
    (r q : RegName) (s w t u raw : ℕ) (h : Hardware)
    → (same_reg r q ≡ true → (s + w ≤ t) ⊎ (t + u ≤ s))
    → get_field t u (raw_of q (write_reg r (put_field s w raw (raw_of r h.reg)) h).reg)
      ≡ get_field t u (raw_of q h.reg)
unfolding same_reg raw_of write_reg write_control write_settings hdspe_write
kept control control s w t u raw h d = get_field-put_field_other s w t u raw h.reg.control (d refl)
kept settings settings s w t u raw h d =
    get_field-put_field_other s w t u raw h.reg.settings (d refl)
kept control settings s w t u raw h d = refl
kept settings control s w t u raw h d = refl

disjoint : (same a b : Bool) → (not same || (a || b)) ≡ true → same ≡ true → (a ≡ true) ⊎ (b ≡ true)
disjoint true true b h e = inl refl
disjoint true false b h e = inr h
disjoint false a b h e = ground arith

get_reg-assign_other :
    (p q : Place) (val : ℕ) (h : Hardware)
    → apart p q ≡ true
    → get_reg q (assign p val h) ≡ get_reg q h
unfolding get_reg assign apart
get_reg-assign_other p q val h d =
    kept (p.reg) (q.reg) (p.first) (p.width) (q.first) (q.width) val h (λ same.
      elim (disjoint (same_reg (p.reg) (q.reg)) (leb (p.first + p.width) q.first)
        (leb (q.first + q.width) p.first) d same) [
          | inl e ↦ inl (leb→le (p.first + p.width) (q.first) e)
          | inr e ↦ inr (leb→le (q.first + q.width) (p.first) e)
        ])

or_changed-state : {A : Type 0} (changed : Bool) (o : A × ℤ) → (or_changed changed o).0 ≡ o.0
unfolding or_changed
or_changed-state changed (a, pos zero) = refl
or_changed-state changed (a, pos (suc n)) = refl
or_changed-state changed (a, negsuc n) = refl

get_reg-put :
    (c : ControlName) (q : Place) (val : ℕ) (h : Hardware)
    → apart (place c) q ≡ true
    → get_reg q (put c val h).0 ≡ get_reg q h
unfolding put control_put put_if put_reg
get_reg-put c q val h d =
    ap (get_reg q) (or_changed-state false _) ∙ elim (Bool-cases (val == get_reg (place c) h)) [
      | inl same ↦ rw same refl
      | inr differs ↦ rw differs (get_reg-assign_other (place c) q val h d)
    ]

-- The fields of the AIO Pro's output level are assigned one after the other and written at once.
get_reg-set_level :
    (q : Place) (val : ℕ) (h : Hardware)
    → apart (in_settings 22 2) q ≡ true
    → apart (in_settings 26 1) q ≡ true
    → get_reg q (set_aio_pro_output_level val h).0 ≡ get_reg q h
unfolding set_aio_pro_output_level get_reg assign raw_of write_reg write_settings hdspe_write
    in_settings
get_reg-set_level q val h gain bonus =
    let with_gain = assign (in_settings 22 2) (val % 4) h in
    get_reg-assign_other (in_settings 26 1) q (val / 4) with_gain bonus
    ∙ get_reg-assign_other (in_settings 22 2) q (val % 4) h gain

get_reg-put_level :
    (q : Place) (val : ℕ) (h : Hardware)
    → apart (in_settings 22 2) q ≡ true
    → apart (in_settings 26 1) q ≡ true
    → get_reg q (put_aio_pro_output_level val h).0 ≡ get_reg q h
unfolding put_aio_pro_output_level control_put put_if
get_reg-put_level q val h gain bonus = elim (Bool-cases (val == get_aio_pro_output_level h)) [
  | inl same ↦ rw same refl
  | inr differs ↦
      rw differs (ap (get_reg q) (or_changed-state true _) ∙ get_reg-set_level q val h gain bonus)
]

get_reg-card_put :
    (c : CardControl) (q : Place) (val : ℕ) (h : Hardware)
    → all (λ t. apart t q) (assigned c) ≡ true
    → get_reg q (card_put c val h).0 ≡ get_reg q h
unfolding all assigned card_put
get_reg-card_put (of_field c) q val h d = get_reg-put c q val h (&&-split _ _ d).0
get_reg-card_put aio_pro_output_level q val h d =
    let (gain, rest) = &&-split (apart (in_settings 22 2) q) _ d in
    get_reg-put_level q val h gain (&&-split _ _ rest).0

-- Whatever is put into a read-write control of a card's table, the output level of the AIO Pro
-- included, each other field of the card's registers that the driver uses is as before: the other
-- controls, the clock mode, the preferred reference, the sample format, the rate and the latency, and
-- the bits that start the audio and enable the interrupts.
pub get_reg-put_other :
    (io : IoType) (c : CardControl) (q : Place) (val : ℕ) (h : Hardware)
    → Memᴰ c (card_controls io)
    → Memᴰ q (fields_of io)
    → assigns c q ≡ false
    → get_reg q (card_put c val h).0 ≡ get_reg q h
unfolding isolated is_isolated
get_reg-put_other io c q val h in_table in_fields differs =
    let row =
      all_sound (λ c. all (is_isolated c) (fields_of io)) c (card_controls io) (isolated_all io)
        in_table in
    let cell = all_sound (is_isolated c) q (fields_of io) row in_fields in
    get_reg-card_put c q val h (rw differs at cell)
