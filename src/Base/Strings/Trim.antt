-- ===== src/Base/Strings/Trim.antt =====
-- Trimming a text that was trimmed, or that has nothing to trim.
use rehydrator.Base.{ℕ, ◌≡◌, refl, ap, inl, inr, Bool, false, [], ◌∷◌, arith, Bool-cases, All, Text}
use rehydrator.Base.Strings.{
  is_space, lower_rune, to_lower, trim, trim_left, trim_right, trim_cons, trim_space,
}

module _ (p : ℕ → Bool) where
  pub trim_cons_kept : (c : ℕ) (t : Text) → p c ≡ false → trim_cons p c t ≡ c ∷ t
  trim_cons_kept c [] h = rw h
  trim_cons_kept c (d ∷ t) h = refl

  pub trim_right_kept : (s : Text) → All (λ c. p c ≡ false) s → trim_right p s ≡ s
  unfolding trim_right
  trim_right_kept [] h = refl
  trim_right_kept (c ∷ s) h = rw (trim_right_kept s h.1) (trim_cons_kept c s h.0)

  trim_kept : (s : Text) → All (λ c. p c ≡ false) s → trim p s ≡ s
  unfolding trim trim_left
  trim_kept [] h = trim_right_kept [] tt
  trim_kept (c ∷ s) h = rw h.0 (trim_right_kept (c ∷ s) h)

  -- nothing is cut from the front
  abbrev Starts : Text → Type 0
  Starts [] = Unit
  Starts (c ∷ s) = p c ≡ false

  Starts-trim_left : (s : Text) → Starts (trim_left p s)
  unfolding trim_left
  Starts-trim_left [] = tt
  Starts-trim_left (c ∷ s) = elim (Bool-cases (p c)) [
    | inl e ↦ rw e (Starts-trim_left s)
    | inr e ↦ rw e e
  ]

  trim_left_kept : (s : Text) → Starts s → trim_left p s ≡ s
  unfolding trim_left
  trim_left_kept [] h = refl
  trim_left_kept (c ∷ s) h = rw h refl

  Starts-trim_right : (s : Text) → Starts s → Starts (trim_right p s)
  unfolding trim_right
  Starts-trim_right [] h = tt
  Starts-trim_right (c ∷ s) h = rw (trim_cons_kept c (trim_right p s) h) h

  trim_right_cons :
      (c : ℕ) (u : Text) → trim_right p u ≡ u → trim_right p (trim_cons p c u) ≡ trim_cons p c u
  unfolding trim_right
  trim_right_cons c [] h = elim (Bool-cases (p c)) [ inl e ↦ rw e refl | inr e ↦ rw e (rw e refl) ]
  trim_right_cons c (d ∷ u) h = rw h refl

  trim_right_again : (s : Text) → trim_right p (trim_right p s) ≡ trim_right p s
  unfolding trim_right
  trim_right_again [] = refl
  trim_right_again (c ∷ s) = trim_right_cons c (trim_right p s) (trim_right_again s)

  pub trim_again : (s : Text) → trim p (trim p s) ≡ trim p s
  unfolding trim
  trim_again s =
      rw (trim_left_kept _ (Starts-trim_right _ (Starts-trim_left s)))
        (trim_right_again (trim_left p s))

pub trim_space_again : (s : Text) → trim_space (trim_space s) ≡ trim_space s
unfolding trim_space
trim_space_again s = trim_again is_space s

pub trim_space_kept : (s : Text) → All (λ c. is_space c ≡ false) s → trim_space s ≡ s
unfolding trim_space
trim_space_kept s h = trim_kept is_space s h

lower_rune_again : (c : ℕ) → lower_rune (lower_rune c) ≡ lower_rune c
unfolding lower_rune
lower_rune_again c = ground arith

pub to_lower_again : (s : Text) → to_lower (to_lower s) ≡ to_lower s
unfolding to_lower
to_lower_again [] = refl
to_lower_again (c ∷ s) = rw (lower_rune_again c) (ap (λ t. lower_rune c ∷ t) (to_lower_again s))
