-- ===== src/Model/Bencode/Fuel.antt =====
-- The reader stops: with fuel for a text's length it never runs out, and what it reads is gone.
use rehydrator.Base.{
  ℕ, zero, suc, ◌+◌, ◌*◌, ◌≤◌, ◌<◌, inl, inr, Bool, true, false, not, ◌||◌, [], ◌∷◌, arith, ltb,
  ◌==◌, if◌then◌else◌, Bool-cases, length, length-drop, Text, text_eq,
}
use rehydrator.Model.Bencode.{
  Scan, ok, bad, out_of_fuel, ◌>>=◌, digits, after_digits, value, max_int, read_body, read_string,
  skip_sign, expect_end, skip_int, max_depth, skip, skip_items, fuel_for,
}

-- The scan of a text of length `n` leaves less than it, or fails; it does not run out of fuel.
abbrev pub Shrinks : ℕ → Scan Text → Type 0
Shrinks n (ok r) = length r < n
Shrinks n bad = Unit
Shrinks n out_of_fuel = ⊥

abbrev ShrinksPair : ℕ → Scan (Text × Text) → Type 0
ShrinksPair n (ok (v, r)) = length r < n
ShrinksPair n bad = Unit
ShrinksPair n out_of_fuel = ⊥

length-after_digits : (s : Text) → length (after_digits s) ≤ length s
unfolding after_digits
length-after_digits [] = omega arith
length-after_digits (c ∷ s) = ground (arith, length-after_digits s)

read_body-Shrinks : (n : ℕ) (s : Text) → ShrinksPair (length s) (read_body n s)
unfolding read_body
read_body-Shrinks n [] = tt
read_body-Shrinks n (c ∷ s) = elim (Bool-cases (not (c == b':'))) [
  | inl e ↦ rw e tt
  | inr e ↦ elim (Bool-cases (ltb max_int n || ltb (length s) n)) [
    | inl t ↦ rw (e, t) tt
    | inr t ↦ rw (e, t) (omega (arith, length-drop n s))
  ]
]

ShrinksPair-le : (n m : ℕ) (r : Scan (Text × Text)) → n ≤ m → ShrinksPair n r → ShrinksPair m r
ShrinksPair-le n m (ok (v, r)) l h = omega arith
ShrinksPair-le n m bad l h = tt
ShrinksPair-le n m out_of_fuel l h = h

pub read_string-Shrinks : (s : Text) → ShrinksPair (length s) (read_string s)
unfolding read_string
read_string-Shrinks s = elim (Bool-cases (text_eq (digits s) [])) [
  | inl e ↦ rw e tt
  | inr e ↦ rw e (
      ShrinksPair-le _ _ (read_body (value (digits s)) (after_digits s)) (length-after_digits s)
        (read_body-Shrinks (value (digits s)) (after_digits s)))
]

length-skip_sign : (s : Text) → length (skip_sign s) ≤ length s
length-skip_sign [] = omega arith
length-skip_sign (c ∷ s) = ground arith

expect_end-Shrinks : (s : Text) → Shrinks (length s) (expect_end s)
expect_end-Shrinks [] = tt
expect_end-Shrinks (c ∷ s) = elim (Bool-cases (c == b'e')) [
  | inl e ↦ rw e (omega arith)
  | inr e ↦ rw e tt
]

pub Shrinks-le : (n m : ℕ) (r : Scan Text) → n ≤ m → Shrinks n r → Shrinks m r
Shrinks-le n m (ok r) l h = omega arith
Shrinks-le n m bad l h = tt
Shrinks-le n m out_of_fuel l h = h

skip_int-Shrinks : (s : Text) → Shrinks (suc (length s)) (skip_int s)
unfolding skip_int
skip_int-Shrinks s = elim (Bool-cases (text_eq (digits (skip_sign s)) [])) [
  | inl e ↦ rw e tt
  | inr e ↦ rw e (
      Shrinks-le _ _ (expect_end (after_digits (skip_sign s)))
        (omega (arith, length-after_digits (skip_sign s), length-skip_sign s))
        (expect_end-Shrinks (after_digits (skip_sign s))))
]

-- a scan, and one after it
Shrinks-bind :
    (n : ℕ) (r : Scan Text) (f : Text → Scan Text)
    → Shrinks n r
    → ((t : Text) → length t < n → Shrinks n (f t))
    → Shrinks n (r >>= f)
Shrinks-bind n (ok t) f h k = k t h
Shrinks-bind n bad f h k = tt
Shrinks-bind n out_of_fuel f h k = h

Shrinks-bind_pair :
    (n : ℕ) (r : Scan (Text × Text)) (f : Text × Text → Scan Text)
    → ShrinksPair n r
    → ((v t : Text) → length t < n → Shrinks n (f (v, t)))
    → Shrinks n (r >>= f)
Shrinks-bind_pair n (ok (v, t)) f h k = k v t h
Shrinks-bind_pair n bad f h k = tt
Shrinks-bind_pair n out_of_fuel f h k = h

Shrinks-if :
    (n : ℕ) (b : Bool) (r s : Scan Text)
    → Shrinks n r
    → Shrinks n s
    → Shrinks n (if b then r else s)
Shrinks-if n true r s h k = h
Shrinks-if n false r s h k = k

mutual
  unfolding skip skip_items

  skip-Shrinks_in :
      (f depth : ℕ) (s : Text) → 2 * length s + 1 ≤ f → Shrinks (length s) (skip f depth s)
  skip-Shrinks_in zero depth s h = absurd (omega arith)
  skip-Shrinks_in (suc f) depth [] h = tt
  skip-Shrinks_in (suc f) depth (c ∷ s) h =
      let n : ℕ = suc (length s) in
      let dictionary = skip_items-Shrinks_in f true depth s (omega arith) in
      let list = skip_items-Shrinks_in f false depth s (omega arith) in
      Shrinks-if n (ltb max_depth depth) _ _ tt (
        Shrinks-if n (c == b'd') _ _
          (Shrinks-le _ _ (skip_items f true depth s) (omega arith) dictionary)
          (Shrinks-if n (c == b'l') _ _
            (Shrinks-le _ _ (skip_items f false depth s) (omega arith) list)
            (Shrinks-if n (c == b'i') _ _ (skip_int-Shrinks s) (
              Shrinks-bind_pair n (read_string (c ∷ s)) (λ (v, rest). ok rest)
                (read_string-Shrinks (c ∷ s)) (λ v t l. l)))))

  skip_items-Shrinks_in :
      (f : ℕ) (dictionary : Bool) (depth : ℕ) (s : Text)
      → 2 * length s + 2 ≤ f
      → Shrinks (length s) (skip_items f dictionary depth s)
  skip_items-Shrinks_in zero dictionary depth s h = absurd (omega arith)
  skip_items-Shrinks_in (suc f) dictionary depth [] h = tt
  skip_items-Shrinks_in (suc f) dictionary depth (c ∷ s) h =
      let n : ℕ = suc (length s) in
      Shrinks-if n (c == b'e') _ _ (omega arith) (
        Shrinks-if n dictionary _ _
          (Shrinks-bind_pair n (read_string (c ∷ s)) _ (read_string-Shrinks (c ∷ s)) (λ v t l.
            Shrinks-bind n (skip f (depth + 1) t) _
              (Shrinks-le _ _ (skip f (depth + 1) t) (omega arith)
                (skip-Shrinks_in f (depth + 1) t (omega arith)))
              (λ u k.
                Shrinks-le _ _ (skip_items f dictionary depth u) (omega arith)
                  (skip_items-Shrinks_in f dictionary depth u (omega arith)))))
          (Shrinks-bind n (skip f (depth + 1) (c ∷ s)) _
            (skip-Shrinks_in f (depth + 1) (c ∷ s) (omega arith))
            (λ u k.
              Shrinks-le _ _ (skip_items f dictionary depth u) (omega arith)
                (skip_items-Shrinks_in f dictionary depth u (omega arith)))))

-- With `fuel_for s` fuel the scan of a value ends: it fails, or leaves a shorter rest.
pub skip-Shrinks : (f depth : ℕ) (s : Text) → fuel_for s ≤ f → Shrinks (length s) (skip f depth s)
skip-Shrinks f depth s h = skip-Shrinks_in f depth s (omega arith)
