-- ===== src/Db/Rows.antt =====
-- A table as a list of rows, and the statements UPDATE … WHERE and SELECT … ORDER BY … LIMIT 1.
pub mod Select
use rehydrator.Base.{
  is_positive, All-map, max, ℕ, is_some, zero, suc, ◌+◌, ◌-◌, ◌*◌, ◌%◌, ◌≤◌, ◌<◌, min, ◌≡◌, refl,
  sym, ap, ◌∙◌, subst, ◌≢◌, ◌↔◌, ◌⊎◌, inl, inr, Bool, true, false, not, ◌&&◌, ◌||◌, Option, none,
  some, List, [], ◌∷◌, ◌++◌, map, append-nil, append_assoc, arith, ltb, leb, ◌==◌, if◌then◌else◌,
  ==_iff, ==_refl, leb→le, le→leb, lt→ltb, Bool-cases, Option-cases, &&-eq-true, ||-eq-false,
  length, take, drop, all, any, length-append, length-drop, take-append, String, drop-append, All,
  All-append, ℤ, pos, negsuc, is_negative, int_eq, eq_of_int_eq, Text, codes, text_eq,
  eq_of_text_eq, text_eq_refl, text_eq_iff, text_eq_swap,
}

module _ {ℓ} {R : Type ℓ} where
  -- UPDATE rows SET (change) WHERE (test)
  unfoldable pub update : (R → Bool) → (R → R) → List R → List R
  update test change [] = []
  update test change (r ∷ rs) = (if test r then change r else r) ∷ update test change rs

  -- the number of rows that such an UPDATE affects
  unfoldable pub rows_affected : (R → Bool) → List R → ℕ
  rows_affected test [] = 0
  rows_affected test (r ∷ rs) =
      let rest = rows_affected test rs in if test r then suc rest else rest

  unfoldable pub find : (R → Bool) → List R → Option R
  find test [] = none
  find test (r ∷ rs) = if test r then some r else find test rs

  better : (R → R → Bool) → R → Option R → R
  better before r none = r
  better before r (some s) = if before s r then s else r

  -- SELECT … WHERE (test) ORDER BY (before) LIMIT 1; of equal rows the earlier one is taken
  unfoldable pub first_by : (R → R → Bool) → (R → Bool) → List R → Option R
  unfolding better
  first_by before test [] = none
  first_by before test (r ∷ rs) =
      let rest = first_by before test rs in if test r then some (better before r rest) else rest

  abbrev pub filter : (R → Bool) → List R → List R
  filter test [] = []
  filter test (r ∷ rs) = let rest = filter test rs in if test r then r ∷ rest else rest

  abbrev pub insert_by : (R → R → Bool) → R → List R → List R
  insert_by before r [] = r ∷ []
  insert_by before r (s ∷ ss) =
      let rest = insert_by before r ss in if before s r then s ∷ rest else r ∷ s ∷ ss

  abbrev pub sort_by : (R → R → Bool) → List R → List R
  sort_by before [] = []
  sort_by before (r ∷ rs) = insert_by before r (sort_by before rs)

  -- SELECT … WHERE (test) ORDER BY (before) LIMIT n
  unfoldable pub select_by : (R → R → Bool) → (R → Bool) → ℕ → List R → List R
  select_by before test n rs = take n (sort_by before (filter test rs))

  -- an UPDATE keeps what its change keeps of the rows that it meets
  pub All-update {κ μ} :
      (P : R → Type κ) (Q : R → Type μ) (test : R → Bool) (change : R → R)
      → ((r : R) → P r → test r ≡ true → Q (change r))
      → ((r : R) → P r → test r ≡ false → Q r)
      → (rs : List R) → All P rs
      → All Q (update test change rs)
  unfolding update
  All-update P Q test change hit miss [] h = tt
  All-update P Q test change hit miss (r ∷ rs) h = elim (Bool-cases (test r)) [
    | inl e ↦ rw e (hit r h.0 e, All-update P Q test change hit miss rs h.1)
    | inr e ↦ rw e (miss r h.0 e, All-update P Q test change hit miss rs h.1)
  ]

  abbrev pub OnSome {κ} : (R → Type κ) → Option R → Type κ
  OnSome Q none = Unit
  OnSome Q (some r) = Q r

  better_keeps {κ} :
      (Q : R → Type κ) (before : R → R → Bool) (r : R) (o : Option R)
      → Q r
      → OnSome Q o
      → Q (better before r o)
  unfolding better
  better_keeps Q before r none q h = q
  better_keeps Q before r (some s) q h = elim (Bool-cases (before s r)) [
    | inl e ↦ rw e h
    | inr e ↦ rw e q
  ]

  first_by-OnSome {κ} :
      (P : R → Type κ) (before : R → R → Bool) (test : R → Bool) (rs : List R)
      → All P rs
      → OnSome (λ s. P s × (test s ≡ true)) (first_by before test rs)
  unfolding first_by
  first_by-OnSome P before test [] h = tt
  first_by-OnSome P before test (r ∷ rs) h =
      let later : OnSome (λ s. P s × (test s ≡ true)) (first_by before test rs) =
        first_by-OnSome P before test rs h.1 in
      elim (Bool-cases (test r)) [
        | inl t ↦ rw t (
            better_keeps (λ s. P s × (test s ≡ true)) before r (first_by before test rs) (h.0, t)
              later)
        | inr t ↦ rw t later
      ]

  -- what holds of all rows holds of the selected one, and so does the test
  pub first_by_lem {κ} :
      (P : R → Type κ) (before : R → R → Bool) (test : R → Bool) (rs : List R) {s : R}
      → All P rs
      → first_by before test rs ≡ some s
      → P s × (test s ≡ true)
  first_by_lem P before test rs h e =
      subst (OnSome (λ r. P r × (test r ≡ true))) e (first_by-OnSome P before test rs h)
