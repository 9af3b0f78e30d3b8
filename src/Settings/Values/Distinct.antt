-- ===== src/Settings/Values/Distinct.antt =====
-- The list that normalizeStringList makes.
use rehydrator.Base.{
  All-map, ◌≡◌, refl, inl, inr, Bool, true, false, not, ◌&&◌, ◌||◌, List, [], ◌∷◌, Bool-cases,
  ||-eq-false, any, All, Text, text_eq, text_eq_swap,
}
use rehydrator.Settings.Values.{list_key, normalize_from, normalize_string_list}

abbrev pub distinct : List Text → Bool
distinct [] = true
distinct (k ∷ ks) = not (any (text_eq k) ks) && distinct ks

-- a key that the loop gives out is not empty, and was not seen
abbrev IsNew : List Text → Text → Type 0
IsNew seen k = (text_eq k [] ≡ false) × (any (text_eq k) seen ≡ false)

older : (k : Text) (seen ks : List Text) → All (IsNew (k ∷ seen)) ks → All (IsNew seen) ks
older k seen ks =
    All-map (IsNew (k ∷ seen)) (IsNew seen) ks
      (λ x h. (h.0, (||-eq-false (text_eq x k) (any (text_eq x) seen) (h.1)).1))

not_among :
    (k : Text) (seen ks : List Text) → All (IsNew (k ∷ seen)) ks → any (text_eq k) ks ≡ false
not_among k seen [] h = refl
not_among k seen (x ∷ ks) h =
    let apart = (||-eq-false (text_eq x k) (any (text_eq x) seen) (h.0.1)).0 in
    rw (text_eq_swap x k apart, not_among k seen ks h.1) refl

-- the loop keeps the first value of every key
normalize_from_lem :
    (seen vs : List Text)
    → All (IsNew seen) (normalize_from seen vs) × (distinct (normalize_from seen vs) ≡ true)
unfolding normalize_from
normalize_from_lem seen [] = (tt, refl)
normalize_from_lem seen (v ∷ vs) =
    elim (Bool-cases (text_eq (list_key v) [] || any (text_eq (list_key v)) seen)) [
      | inl e ↦ rw e (normalize_from_lem seen vs)
      | inr e ↦
          let rest = normalize_from_lem (list_key v ∷ seen) vs in
          let ks : List Text = normalize_from (list_key v ∷ seen) vs in
          rw e (
            (
              ||-eq-false (text_eq (list_key v) []) (any (text_eq (list_key v)) seen) e,
              older (list_key v) seen ks rest.0,
            ),
            rw (not_among (list_key v) seen ks rest.0) (rest.1),
          )
    ]

-- Normalising a list of texts gives keys that are not empty and no two of which are equal.
pub normalize-distinct :
    (vs : List Text)
    → All (λ k. text_eq k [] ≡ false) (normalize_string_list vs)
      × (distinct (normalize_string_list vs) ≡ true)
unfolding normalize_string_list
normalize-distinct vs =
    let both = normalize_from_lem [] vs in
    (
      All-map (IsNew []) (λ k. text_eq k [] ≡ false) (normalize_from [] vs) (λ k h. h.0) (both.0),
      both.1,
    )
