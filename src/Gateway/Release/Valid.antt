-- ===== src/Gateway/Release/Valid.antt =====
-- Every release folder that the gateway derives is one that it accepts.
use rehydrator.Base.Strings.Trim.{trim_right_kept}
use rehydrator.Base.Strings.{rune_len, byte_len}
use rehydrator.Base.{
  ℕ, Text, codes, text_eq, text_eq_refl, ◌+◌, ◌≤◌, Bool, true, false, ◌||◌, [], ◌∷◌, ltb, ◌==◌, any,
  All, ◌≡◌, refl, arith, Bool-cases, inl, inr, ||-eq-false,
}
use rehydrator.Base.Strings.{trim, trim_left, trim_right, trim_cons, contains_rune, split}
use rehydrator.Base.Paths.{slash, dot, dotdot}
use rehydrator.Base.Paths.Clean.{split_self}
use rehydrator.Db.Jobs.{Job}
use rehydrator.Gateway.Release.{
  is_control, reserved, replace_rune, write_runes, release_name, release_folder, base,
  is_valid_release_folder, cut_suffix, base_name, is_edge,
}

-- A rune that may stand in a folder's name.
abbrev pub IsPlain : ℕ → Type 0
IsPlain c = (is_control c ≡ false) × (contains_rune reserved c ≡ false)

replace_rune-IsPlain : (r : ℕ) → IsPlain (replace_rune r)
unfolding replace_rune contains_rune
replace_rune-IsPlain r = elim (Bool-cases (is_control r || contains_rune reserved r)) [
  | inl e ↦ rw e (refl, refl)
  | inr e ↦ rw e (||-eq-false _ _ e)
]

write_runes-IsPlain : (n : ℕ) (s : Text) → All IsPlain (write_runes n s)
unfolding write_runes
write_runes-IsPlain n [] = tt
write_runes-IsPlain n (r ∷ s) = elim (Bool-cases (ltb 180 (n + rune_len (replace_rune r)))) [
  | inl e ↦ rw e tt
  | inr e ↦ rw e (replace_rune-IsPlain r, write_runes-IsPlain (n + rune_len (replace_rune r)) s)
]

module _ (P : ℕ → Type 0) (p : ℕ → Bool) where
  All-trim_left : (s : Text) → All P s → All P (trim_left p s)
  unfolding trim_left
  All-trim_left [] h = tt
  All-trim_left (c ∷ s) h = elim (Bool-cases (p c)) [
    | inl e ↦ rw e (All-trim_left s h.1)
    | inr e ↦ rw e h
  ]

  All-trim_cons : (c : ℕ) (t : Text) → P c → All P t → All P (trim_cons p c t)
  All-trim_cons c [] q h = elim (Bool-cases (p c)) [ inl e ↦ rw e tt | inr e ↦ rw e (q, tt) ]
  All-trim_cons c (d ∷ t) q h = (q, h)

  All-trim_right : (s : Text) → All P s → All P (trim_right p s)
  unfolding trim_right
  All-trim_right [] h = tt
  All-trim_right (c ∷ s) h = All-trim_cons c (trim_right p s) h.0 (All-trim_right s h.1)

  All-trim : (s : Text) → All P s → All P (trim p s)
  unfolding trim
  All-trim s h = All-trim_right (trim_left p s) (All-trim_left s h)

module _ (p : ℕ → Bool) where
  byte_len-trim_left : (s : Text) → byte_len (trim_left p s) ≤ byte_len s
  unfolding trim_left
  byte_len-trim_left [] = omega arith
  byte_len-trim_left (c ∷ s) = elim (Bool-cases (p c)) [
    | inl e ↦ rw e (omega (arith, byte_len-trim_left s))
    | inr e ↦ rw e (omega arith)
  ]

  byte_len-trim_cons : (c : ℕ) (t : Text) → byte_len (trim_cons p c t) ≤ rune_len c + byte_len t
  byte_len-trim_cons c [] = elim (Bool-cases (p c)) [
    | inl e ↦ rw e (omega arith)
    | inr e ↦ rw e (omega arith)
  ]
  byte_len-trim_cons c (d ∷ t) = omega arith

  byte_len-trim_right : (s : Text) → byte_len (trim_right p s) ≤ byte_len s
  unfolding trim_right
  byte_len-trim_right [] = omega arith
  byte_len-trim_right (c ∷ s) =
      omega (arith, byte_len-trim_cons c (trim_right p s), byte_len-trim_right s)

  byte_len-trim : (s : Text) → byte_len (trim p s) ≤ byte_len s
  unfolding trim
  byte_len-trim s = omega (arith, byte_len-trim_right (trim_left p s), byte_len-trim_left s)

byte_len-write_runes : (n : ℕ) (s : Text) → n ≤ 180 → n + byte_len (write_runes n s) ≤ 180
unfolding write_runes
byte_len-write_runes n [] h = omega arith
byte_len-write_runes n (r ∷ s) h =
    let w : ℕ = n + rune_len (replace_rune r) in
    elim (Bool-cases (ltb 180 w)) [
      | inl e ↦ rw e (omega arith)
      | inr e ↦
          let small : w ≤ 180 = ground (arith, e) in
          rw e (omega (arith, byte_len-write_runes w s small))
    ]

-- With plain runes only, the base of a name is the name itself.
no_slash_of_plain : (s : Text) → All IsPlain s → All (λ c. (c == slash) ≡ false) s
unfolding contains_rune
no_slash_of_plain [] h = tt
no_slash_of_plain (c ∷ s) h = (ground (arith, h.0.1), no_slash_of_plain s h.1)

base_self : (s : Text) → text_eq s [] ≡ false → All (λ c. (c == slash) ≡ false) s → base s ≡ s
unfolding base
base_self s e h = rw (e, trim_right_kept (λ c. c == slash) s h, e, split_self s h)

forbidden_of_plain :
    (s : Text) → All IsPlain s → any (λ c. c == slash || c == 0x5c || c == 0) s ≡ false
unfolding contains_rune
forbidden_of_plain [] h = refl
forbidden_of_plain (c ∷ s) h = ground (arith, h.0.0, h.0.1, forbidden_of_plain s h.1)

valid_of_plain :
    (s : Text)
    → All IsPlain s
    → text_eq s [] ≡ false
    → text_eq s dot ≡ false
    → text_eq s dotdot ≡ false
    → is_valid_release_folder s ≡ true
unfolding is_valid_release_folder
valid_of_plain s h e d u =
    rw (e, d, u, base_self s e (no_slash_of_plain s h), text_eq_refl s, forbidden_of_plain s h)

release_IsPlain : All IsPlain (codes "release")
unfolding contains_rune
release_IsPlain = ground arith

release_name_valid :
    (s : Text)
    → All IsPlain s
    → byte_len s ≤ 180
    → (is_valid_release_folder (release_name s) ≡ true)
      × (byte_len (release_name s) ≤ 180)
      × All IsPlain (release_name s)
release_name_valid s h n = elim (Bool-cases (text_eq s [] || text_eq s dot || text_eq s dotdot)) [
  | inl e ↦ rw e (
      unfold is_valid_release_folder base trim_right split contains_rune in
      (refl, omega arith, release_IsPlain))
  | inr e ↦
      let (early, not_up) = ||-eq-false (text_eq s [] || text_eq s dot) (text_eq s dotdot) e in
      let (nonempty, not_dot) = ||-eq-false (text_eq s []) (text_eq s dot) early in
      rw e (valid_of_plain s h nonempty not_dot not_up, n, h)
]

-- Whatever names a job has, its release folder passes the check on release folders, takes at most
-- 180 bytes of UTF-8, and has no control character and none of the characters / \ : * ? " < > |.
pub release_folder_valid :
    (j : Job)
    → (is_valid_release_folder (release_folder j) ≡ true)
      × (byte_len (release_folder j) ≤ 180)
      × All IsPlain (release_folder j)
unfolding release_folder
release_folder_valid j =
    let written : Text = write_runes 0 (cut_suffix (base_name j.name j.filename)) in
    release_name_valid (trim is_edge written)
      (All-trim IsPlain is_edge written (write_runes-IsPlain 0 _))
      (omega (
        arith,
        byte_len-trim is_edge written,
        byte_len-write_runes 0 (cut_suffix (base_name j.name j.filename)),
      ))
