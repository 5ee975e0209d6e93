-- ===== src/Controls/Property.antt =====
-- What the getter and the putter of a control promise, and what `hdspe_control_put` makes of it.
use snd_hdspe.Common.{
  ℕ, ◌≡◌, ◌<◌, ◌⊎◌, inl, inr, refl, sym, ap, Bool, true, false, ◌&&◌, ◌==◌, Bool-cases,
  if◌then◌else◌, none, some, arith, ==_iff,
}
use snd_hdspe.Common.Int.{ℤ, pos}
use snd_hdspe.Controls.{control_put, put_if, or_changed}

-- The result of a put: 1 where the value has changed.
unfoldable pub changed_of : Bool → ℤ
changed_of same = if same then pos 0 else pos 1

-- A getter and a putter for values below a range: what is put is got, and the putter reports no
-- error.
pub record IsProperty {A : Type 0} (range : ℕ) (get : A → ℕ) (put : ℕ → A → A × ℤ) : Type 0 where
  pub get-put : (val : ℕ) (a : A) → val < range → get (put val a).0 ≡ val
  pub no_error : (val : ℕ) (a : A) → val < range → ((put val a).1 ≡ pos 0) ⊎ ((put val a).1 ≡ pos 1)

-- A putter that detects changes: it does nothing for the value that there is, and reports it.
pub record DetectsChanges {A : Type 0} (range : ℕ) (get : A → ℕ) (put : ℕ → A → A × ℤ)
    : Type 0 where
  pub is_property : IsProperty range get put
  pub same : (val : ℕ) (a : A) → (val == get a) ≡ true → put val a ≡ (a, pos 0)
  pub result : (val : ℕ) (a : A) → val < range → (put val a).1 ≡ changed_of (val == get a)

or_changed-true :
    {A : Type 0} (a : A) (rc : ℤ)
    → (rc ≡ pos 0) ⊎ (rc ≡ pos 1)
    → or_changed true (a, rc) ≡ (a, pos 1)
unfolding or_changed
or_changed-true a rc (inl zero) = ap (λ r. or_changed true (a, r)) zero
or_changed-true a rc (inr one) = ap (λ r. or_changed true (a, r)) one

or_changed-false :
    {A : Type 0} (o : A × ℤ) (same : Bool)
    → o.1 ≡ changed_of same
    → or_changed false o ≡ (o.0, changed_of same)
unfolding or_changed changed_of
or_changed-false (a, rc) true e = ap (λ r. or_changed false (a, r)) e
or_changed-false (a, rc) false e = ap (λ r. or_changed false (a, r)) e

==-sym : (a b : ℕ) → a ≡ b → (b == a) ≡ true
==-sym a b e = ground arith

-- What a put does to the state a, with the result: the value is got, the result says whether it has
-- changed, and the same put again does nothing.
pub record PutLaw {A : Type 0} (get : A → ℕ) (put : ℕ → A → A × ℤ) (val : ℕ) (a : A) : Type 0 where
  pub state : A
  pub puts : put val a ≡ (state, changed_of (val == get a))
  pub gets : get state ≡ val
  pub again : put val state ≡ (state, pos 0)

module _ {A : Type 0} (range : ℕ) (get : A → ℕ) (put : ℕ → A → A × ℤ) where
  -- With the getter, which detects the change.
  pub control_put-PutLaw :
      (excl_req : Bool) (val : ℕ) (a : A)
      → IsProperty range get put
      → val < range
      → PutLaw get (control_put excl_req true (some get) put) val a
  unfolding control_put put_if changed_of
  control_put-PutLaw excl_req val a q l =
      let free : (excl_req && false) ≡ false = ground arith in
      elim (Bool-cases (val == get a)) [
        | inl same ↦ record {
          state = a;
          puts = rw (free, same) refl;
          gets = sym ((==_iff val (get a)).0 same);
          again = rw (free, same) refl;
        }
        | inr differs ↦
            let gets = q.get-put val a l in
            record {
              state = (put val a).0;
              puts = rw (free, differs) (or_changed-true _ _ (q.no_error val a l));
              gets = gets;
              again = rw (free, ==-sym (get (put val a).0) val gets) refl;
            }
      ]

  -- Without the getter, for a putter that detects the change.
  pub detecting-PutLaw :
      (excl_req : Bool) (val : ℕ) (a : A)
      → DetectsChanges range get put
      → val < range
      → PutLaw get (control_put excl_req true none put) val a
  unfolding control_put put_if changed_of
  detecting-PutLaw excl_req val a q l =
      let free : (excl_req && false) ≡ false = ground arith in
      let gets = q.is_property.get-put val a l in
      record {
        state = (put val a).0;
        puts = rw free (or_changed-false (put val a) _ (q.result val a l));
        gets = gets;
        again = rw free (
            rw (q.same val (put val a).0 (==-sym (get (put val a).0) val gets))
              (or_changed-false _ true refl));
      }
