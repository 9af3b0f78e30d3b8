-- ===== src/Torbox/Catalog/Safe.antt =====
-- What a validated file list guarantees to the code that turns its names into paths.
use rehydrator.Base.{
  Text, codes, text_eq, true, false, ◌||◌, List, [], ◌∷◌, All, any, is_negative, ◌≡◌, refl, ◌⊎◌,
  inl, inr, arith, ||-eq-false, eq_of_text_eq, Bool-cases,
}
use rehydrator.Base.Strings.{has_prefix, split}
use rehydrator.Base.Paths.{clean, dot, dotdot, slash, starts_with_slash}
use rehydrator.Base.Paths.Clean.{IsProper, clean_fixed}
use rehydrator.Torbox.Types.{UsenetFile}
use rehydrator.Torbox.Catalog.{has_forbidden, is_bad_file, validate_from, validate_files}

-- The name is `.`, or every element between its slashes is a proper one; no backslash, no NUL.
pub record IsSafeFile (f : UsenetFile) : Type 0 where
  pub id_natural : is_negative f.id ≡ false
  pub size_natural : is_negative f.size ≡ false
  pub not_forbidden : has_forbidden f.name ≡ false
  pub inside : (f.name ≡ dot) ⊎ All IsProper (split slash f.name)

unfoldable pub Distinct : List UsenetFile → Type 0
Distinct [] = Unit
Distinct (f ∷ fs) = All (λ g. text_eq g.name f.name ≡ false) fs × Distinct fs

starts_with_slash_lem : (t : Text) → has_prefix t (codes "/") ≡ false → starts_with_slash t ≡ false
unfolding has_prefix
starts_with_slash_lem [] h = refl
starts_with_slash_lem (c ∷ t) h = ground arith

good_facts :
    (f : UsenetFile)
    → is_bad_file f ≡ false
    → (is_negative f.id ≡ false)
      × (is_negative f.size ≡ false)
      × (has_prefix f.name (codes "/") ≡ false)
      × (has_forbidden f.name ≡ false)
      × (text_eq (clean f.name) f.name ≡ true)
      × (text_eq f.name dotdot ≡ false)
      × (has_prefix f.name (codes "../") ≡ false)
unfolding is_bad_file
good_facts f h = ground arith

safe_of_good : (f : UsenetFile) → is_bad_file f ≡ false → IsSafeFile f
safe_of_good f h =
    let (i, n, rooted, plain, fixed, up, above) = good_facts f h in
    record {
      id_natural = i;
      size_natural = n;
      not_forbidden = plain;
      inside =
          clean_fixed f.name (starts_with_slash_lem f.name rooted)
            (eq_of_text_eq (clean f.name) f.name fixed) up above;
    }

-- no file has one of these names
abbrev Fresh : List Text → List UsenetFile → Type 0
Fresh seen = All (λ g. any (text_eq g.name) seen ≡ false)

Fresh-tail :
    (n : Text) (seen : List Text) (fs : List UsenetFile)
    → Fresh (n ∷ seen) fs
    → Fresh seen fs × All (λ g. text_eq g.name n ≡ false) fs
Fresh-tail n seen [] h = (tt, tt)
Fresh-tail n seen (f ∷ fs) h =
    let (a, b) = Fresh-tail n seen fs h.1 in let (e, m) = ||-eq-false _ _ h.0 in ((m, a), (e, b))

validate_from_lem :
    (seen : List Text) (fs : List UsenetFile)
    → validate_from seen fs ≡ true
    → All IsSafeFile fs × Fresh seen fs × Distinct fs
unfolding validate_from Distinct
validate_from_lem seen [] h = (tt, tt, tt)
validate_from_lem seen (f ∷ fs) h = elim (Bool-cases (is_bad_file f || any (text_eq f.name) seen)) [
  | inl e ↦ absurd (cc (rw e at h))
  | inr e ↦
      let (good, new) = ||-eq-false (is_bad_file f) (any (text_eq f.name) seen) e in
      let (safe, fresh, distinct) = validate_from_lem (f.name ∷ seen) fs (rw e at h) in
      let (rest, apart) = Fresh-tail f.name seen fs fresh in
      ((safe_of_good f good, safe), (new, rest), (apart, distinct))
]

-- If the provider's file list is accepted, every ID and size is at least 0, no name has a backslash
-- or a NUL, every name is `.` or a relative path none of whose elements is empty, `.` or `..`, and
-- no two files have one name.
pub validate_files_safe :
    (files : List UsenetFile) → validate_files files ≡ true → All IsSafeFile files × Distinct files
unfolding validate_files
validate_files_safe files h =
    let (safe, fresh, distinct) = validate_from_lem [] files h in (safe, distinct)
