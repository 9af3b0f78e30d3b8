-- ===== src/Model/Source/Parts.antt =====
-- What the parts of a validated source keep: the NZB, the file's hash and the magnet's link.
use rehydrator.Base.{
  ℕ, ◌≡◌, refl, subst, inl, inr, Bool, true, false, not, ◌||◌, Option, none, some, List, [], ◌∷◌,
  arith, ◌==◌, if◌then◌else◌, Bool-cases, &&-eq-true, ||-eq-false, length, all, All, Text, codes,
  text_eq, text_eq_refl,
}
use rehydrator.Model.Source.{
  stored_nzb, misfits_nzb, lists_segments, speaks, stored_file, Checked, valid, rejected, Url,
  Token, filename_or, validate_nzb, btih, resolve_url, with_file_hash,
}
use rehydrator.Base.Strings.{drop_bytes, has_prefix, is_space, to_lower, trim_space, equal_fold}
use rehydrator.Base.Strings.Trim.{trim_space_kept, to_lower_again}
use rehydrator.Model.Types.{TorrentMetadata}
use rehydrator.Model.InfoHash.{is_hex, is_hash}
use rehydrator.Model.Bencode.{Scan, ◌>>=◌, ok, bad, out_of_fuel}

-- a guard that did not refuse
pub passed {ℓ} :
    {A : Type ℓ} (b : Bool) (rest : Checked A) (a : A)
    → (if b then rejected else rest) ≡ valid a
    → (b ≡ false) × (rest ≡ valid a)
passed true rest a e = absurd (cc e)
passed false rest a e = (refl, e)

pub filename_or_again :
    (name default : Text)
    → filename_or (filename_or name default) default ≡ filename_or name default
filename_or_again name default = elim (Bool-cases (text_eq name [])) [
  | inl e ↦ rw e (elim (Bool-cases (text_eq default [])) [ inl d ↦ rw d refl | inr d ↦ rw d refl ])
  | inr e ↦ rw (e, e) refl
]

hex_apart : (c : ℕ) → is_hex c ≡ true → is_space c ≡ false
hex_apart c h = ground arith

hex_plain : (s : Text) → all is_hex s ≡ true → All (λ c. is_space c ≡ false) s
hex_plain [] h = tt
hex_plain (c ∷ s) h =
    let both = &&-eq-true (is_hex c) (all is_hex s) h in (hex_apart c both.0, hex_plain s both.1)

pub trim_space-hash : (s : Text) → is_hash s ≡ true → trim_space s ≡ s
trim_space-hash s h =
    trim_space_kept s (hex_plain s (&&-eq-true (length s == 40) (all is_hex s) h).1)

to_lower_empty : to_lower [] ≡ []
unfolding to_lower
to_lower_empty = refl

btih_lower : (xs : List Text) → to_lower (btih xs) ≡ btih xs
unfolding btih
btih_lower [] = to_lower_empty
btih_lower (x ∷ xs) = elim (Bool-cases (has_prefix (to_lower x) (codes "urn:btih:"))) [
  | inl e ↦ rw e (to_lower_again (drop_bytes 9 x))
  | inr e ↦ rw e (btih_lower xs)
]

pub validate_nzb_again :
    (read_xml : Text → List Token × Bool) (t t' : TorrentMetadata)
    → validate_nzb read_xml t ≡ valid t'
    → (validate_nzb read_xml t' ≡ valid t') × (t'.kind ≡ t.kind)
unfolding validate_nzb
validate_nzb_again read_xml t t' e =
    let conflict : Bool = not (speaks t.protocol (codes "usenet")) in
    let unread : Bool = not (lists_segments (read_xml t.nzb)) in
    let g = passed (conflict || misfits_nzb t || unread) (valid (stored_nzb t)) t' e in
    let two = ||-eq-false (conflict || misfits_nzb t) unread g.0 in
    let same : stored_nzb t ≡ t' = cc (g.1) in
    subst (λ u. (validate_nzb read_xml u ≡ valid u) × (u.kind ≡ t.kind)) same
      (
        rw ((||-eq-false conflict (misfits_nzb t) two.0).1, two.1)
            (rw (filename_or_again t.nzb_filename (codes "download.nzb")) refl),
        refl,
      )

pub or_true : (x : Bool) → (x || true) ≡ true
or_true true = refl
or_true false = refl

not-false : (x : Bool) → not x ≡ false → x ≡ true
not-false x h = ground arith

pub hash_of_file :
    (sha1_hex : Text → Text)
    → ((s : Text) → is_hash (sha1_hex s) ≡ true)
    → (r : Scan Text) (h : Text) → (r >>= λ i. ok (sha1_hex i)) ≡ ok h
    → is_hash h ≡ true
hash_of_file sha1_hex hex (ok i) h e =
    let same : sha1_hex i ≡ h = cc e in subst (λ u. is_hash u ≡ true) same (hex i)
hash_of_file sha1_hex hex bad h e = absurd (cc e)
hash_of_file sha1_hex hex out_of_fuel h e = absurd (cc e)

pub resolve_url_again :
    (m h : Text) (o : Option Url) (x y : Text)
    → resolve_url m h o ≡ valid (x, y)
    → (resolve_url m y o ≡ valid (x, y)) × (x ≡ m) × (is_hash y ≡ true) × (to_lower y ≡ y)
resolve_url_again m h none x y e = absurd (cc e)
resolve_url_again m h (some u) x y e =
    let b = btih u.xt in
    let foreign : Bool = not (equal_fold u.scheme (codes "magnet")) in
    let disagrees : Bool = not (text_eq h [] || text_eq h b) in
    let g = passed (foreign || not (is_hash b) || disagrees) (valid (m, b)) (x, y) e in
    let two =
      ||-eq-false foreign (not (is_hash b))
        (||-eq-false (foreign || not (is_hash b)) disagrees g.0).0 in
    let same : (m, b) ≡ (x, y) = cc (g.1) in
    subst
      (λ p.
        (resolve_url m p.1 (some u) ≡ valid p)
        × (p.0 ≡ m)
        × (is_hash p.1 ≡ true)
        × (to_lower p.1 ≡ p.1))
      same
      (
        rw (two.0, two.1) (rw (text_eq_refl b) (rw (or_true (text_eq b [])) refl)),
        refl,
        not-false (is_hash b) two.1,
        btih_lower u.xt,
      )

pub with_file_again :
    (t t' : TorrentMetadata) (r : Scan Text)
    → ((h : Text) → r ≡ ok h → is_hash h ≡ true)
    → with_file_hash t r ≡ valid t'
    → (h : Text) × (r ≡ ok h) × (is_hash h ≡ true) × (stored_file t h ≡ t')
with_file_again t t' bad hex e = absurd (cc e)
with_file_again t t' out_of_fuel hex e = absurd (cc e)
with_file_again t t' (ok h) hex e =
    let g =
      passed (not (text_eq t.info_hash [] || equal_fold (trim_space t.info_hash) h))
        (valid (stored_file t h)) t' e in
    let same : stored_file t h ≡ t' = cc (g.1) in (h, refl, hex h refl, same)

pub equal_fold_hash : (h : Text) → is_hash h ≡ true → equal_fold (trim_space h) h ≡ true
unfolding equal_fold
equal_fold_hash h e = rw (trim_space-hash h e) (text_eq_refl (to_lower h))
