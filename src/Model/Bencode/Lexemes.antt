-- ===== src/Model/Bencode/Lexemes.antt =====
-- What the reader takes for a string or a number is one of the grammar.
use rehydrator.Base.{
  ℕ, zero, suc, ◌≤◌, ◌≡◌, refl, sym, ap, ◌∙◌, inl, inr, Bool, true, false, ◌||◌, [], ◌∷◌, ◌++◌,
  append_assoc, arith, ltb, ◌==◌, Bool-cases, length, take, drop, Text, text_eq,
}
use rehydrator.Model.Bencode.{
  Scan, ok, bad, out_of_fuel, ◌>>=◌, is_digit, digits, after_digits, value, max_int, read_body,
  read_string, skip_sign, expect_end, skip_int,
}
use rehydrator.Model.Bencode.Grammar.{IsDigits, IsString, sign_text}

pub bind-ok {ℓ κ} :
    {A : Type ℓ} {B : Type κ} (x : Scan A) (f : A → Scan B) (b : B)
    → (x >>= f) ≡ ok b
    → (a : A) × (x ≡ ok a) × (f a ≡ ok b)
bind-ok (ok a) f b h = (a, refl, h)
bind-ok bad f b h = absurd (cc h)
bind-ok out_of_fuel f b h = absurd (cc h)

abbrev ok_or {ℓ} : {A : Type ℓ} → A → Scan A → A
ok_or a (ok b) = b
ok_or a bad = a
ok_or a out_of_fuel = a

pub ok_inj {ℓ} : {A : Type ℓ} (a b : A) → Scan.ok a ≡ ok b → a ≡ b
ok_inj a b h = ap (ok_or a) h

digits-IsDigits : (s : Text) → IsDigits (digits s)
unfolding digits
digits-IsDigits [] = tt
digits-IsDigits (c ∷ s) = elim (Bool-cases (is_digit c)) [
  | inl e ↦ rw e (e, digits-IsDigits s)
  | inr e ↦ rw e tt
]

digits_split : (s : Text) → digits s ++ after_digits s ≡ s
unfolding digits after_digits
digits_split [] = refl
digits_split (c ∷ s) = elim (Bool-cases (is_digit c)) [
  | inl e ↦ rw e (ap (λ t. c ∷ t) (digits_split s))
  | inr e ↦ rw e refl
]

take-drop : (n : ℕ) (s : Text) → take n s ++ drop n s ≡ s
take-drop zero s = refl
take-drop (suc n) [] = refl
take-drop (suc n) (c ∷ s) = ap (λ t. c ∷ t) (take-drop n s)

length-take_all : (n : ℕ) (s : Text) → n ≤ length s → length (take n s) ≡ n
length-take_all zero s h = refl
length-take_all (suc n) [] h = absurd (omega arith)
length-take_all (suc n) (c ∷ s) h = let ih = length-take_all n s (omega arith) in omega arith

-- what is behind the digits of a string
read_body-ok :
    (size : ℕ) (s v rest : Text)
    → read_body size s ≡ ok (v, rest)
    → (s ≡ b':' ∷ (v ++ rest)) × (size ≡ length v) × (length v ≤ max_int)
unfolding read_body
read_body-ok size [] v rest = λ h. absurd (cc h)
read_body-ok size (c ∷ s) v rest = elim (Bool-cases (c == b':')) [
  | inr e ↦ rw e (λ h. absurd (cc h))
  | inl e ↦ rw e (elim (Bool-cases (ltb max_int size || ltb (length s) size)) [
    | inl k ↦ rw k (λ h. absurd (cc h))
    | inr k ↦ rw k (λ h.
        let pair : (take size s, drop size s) ≡ (v, rest) =
          ok_inj (take size s, drop size s) (v, rest) h in
        let first : take size s ≡ v = ap (λ p. p.0) pair in
        let second : drop size s ≡ rest = ap (λ p. p.1) pair in
        let colon : c ≡ b':' = ground arith in
        let few : size ≤ length s = ground arith in
        let small : size ≤ max_int = ground arith in
        let long : length v ≡ size = sym (ap length first) ∙ length-take_all size s few in
        (cc (colon, first, second, take-drop size s), sym long, omega arith))
  ])
]

pub read_string-ok :
    (s v rest : Text) → read_string s ≡ ok (v, rest) → (k : Text) × (s ≡ k ++ rest) × IsString v k
unfolding read_string
read_string-ok s v rest = elim (Bool-cases (text_eq (digits s) [])) [
  | inl e ↦ rw e (λ h. absurd (cc h))
  | inr e ↦ rw e (λ h.
      let (tail, size, small) = read_body-ok (value (digits s)) (after_digits s) v rest h in
      (
        digits s ++ b':' ∷ v,
        sym (digits_split s)
            ∙ ap (λ t. digits s ++ t) tail
            ∙ sym (append_assoc (digits s) (b':' ∷ v) rest),
        record {
          size = digits s;
          size_digits = digits-IsDigits s;
          size_some = e;
          size_value = size;
          in_range = small;
          shape = refl;
        },
      ))
]

expect_end-ok : (s rest : Text) → expect_end s ≡ ok rest → s ≡ b'e' ∷ rest
expect_end-ok [] rest = λ h. absurd (cc h)
expect_end-ok (c ∷ s) rest = elim (Bool-cases (c == b'e')) [
  | inr e ↦ rw e (λ h. absurd (cc h))
  | inl e ↦ rw e (λ h. let here : c ≡ b'e' = ground arith in cc (here, ok_inj s rest h))
]

sign_split : (s : Text) → (negative : Bool) × (s ≡ sign_text negative ++ skip_sign s)
sign_split [] = (false, refl)
sign_split (c ∷ s) = elim (Bool-cases (c == b'-')) [
  | inl e ↦ rw e (true, let here : c ≡ b'-' = ground arith in ap (λ x. x ∷ s) here)
  | inr e ↦ rw e (false, refl)
]

pub skip_int-ok :
    (s rest : Text)
    → skip_int s ≡ ok rest
    → (negative : Bool) × (ds : Text) × IsDigits ds
      × (text_eq ds [] ≡ false)
      × (s ≡ sign_text negative ++ ds ++ b'e' ∷ [] ++ rest)
unfolding skip_int
skip_int-ok s rest = elim (Bool-cases (text_eq (digits (skip_sign s)) [])) [
  | inl e ↦ rw e (λ h. absurd (cc h))
  | inr e ↦ rw e (λ h.
      let (negative, split) = sign_split s in
      let t = skip_sign s in
      let tail = expect_end-ok (after_digits t) rest h in
      (
        negative,
        digits t,
        digits-IsDigits t,
        e,
        split
            ∙ ap (λ u. sign_text negative ++ u)
                (sym (digits_split t) ∙ ap (λ u. digits t ++ u) tail)
            ∙ sym (append_assoc (sign_text negative) (digits t) (b'e' ∷ rest))
            ∙ sym (append_assoc (sign_text negative ++ digits t) (b'e' ∷ []) rest),
      ))
]
