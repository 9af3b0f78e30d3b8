-- ===== src/Model/Bencode/Accepted.antt =====
-- Which torrent files are accepted.
use rehydrator.Base.{
  ℕ, zero, suc, ◌≡◌, refl, sym, ap, ◌∙◌, subst, ◌↔◌, inl, inr, true, not, ◌||◌, Option, none, some,
  List, [], ◌∷◌, ◌++◌, append_assoc, arith, ltb, ◌==◌, Bool-cases, length, Text,
}
use rehydrator.Model.Bencode.{
  ok, ◌>>=◌, max_depth, skip, read_string, fuel_for, starts_with_d, keep_info, closed, consumed,
  info_loop, torrent_info, torrent_file_info_hash,
}
use rehydrator.Model.Bencode.Lexemes.{bind-ok, ok_inj, read_string-ok}
use rehydrator.Model.Bencode.Sound.{skip-Starts}
use rehydrator.Model.Bencode.Metainfo.{Field, fields_text, infos, the_info, info_hash_of_fields}

-- a file is a dictionary of entries, with exactly one value under the key `info`, a dictionary
abbrev pub IsMetainfo : Text → Text → Type 0
IsMetainfo s info =
    (fs : List Field) × (s ≡ b'd' ∷ (fields_text fs ++ b'e' ∷ []))
    × (infos fs ≡ info ∷ [])
    × (starts_with_d info ≡ true)

closed-ok : (info : Option Text) (s i : Text) → closed info s ≡ ok i → s ≡ []
closed-ok none s i h = absurd (cc h)
closed-ok (some x) [] i h = refl
closed-ok (some x) (c ∷ s) i h = absurd (cc h)

info_loop-ok :
    (n : ℕ) (info : Option Text) (s i : Text)
    → info_loop n info s ≡ ok i
    → (fs : List Field) × (s ≡ fields_text fs ++ b'e' ∷ [])
unfolding info_loop
info_loop-ok zero info s i = λ h. absurd (cc h)
info_loop-ok (suc n) info [] i = λ h. absurd (cc h)
info_loop-ok (suc n) info (c ∷ s) i = elim (Bool-cases (c == b'e')) [
  | inl e ↦ rw e (λ h. let here : c ≡ b'e' = ground arith in ([], cc (here, closed-ok info s i h)))
  | inr e ↦ rw e (λ h.
      let ((key, start), read, behind) = bind-ok (read_string (c ∷ s)) _ i h in
      let (rest, passed, kept) = bind-ok (skip (fuel_for start) 0 start) _ i behind in
      let (info', keep, more) = bind-ok (keep_info key (consumed start rest) info) _ i kept in
      let (k, front, p) = read_string-ok (c ∷ s) key start read in
      let (x, split, v) =
        skip-Starts (fuel_for start) 0 max_depth start rest (omega arith) passed in
      let (fs, tail) = info_loop-ok n info' rest i more in
      let f : Field = record {
        key = key;
        key_text = k;
        value = x;
        key_string = p;
        value_valid = v;
      } in
      (
        f ∷ fs,
        front
            ∙ ap (λ u. k ++ u) (split ∙ ap (λ u. x ++ u) tail)
            ∙ ap (λ u. k ++ u) (sym (append_assoc x (fields_text fs) (b'e' ∷ [])))
            ∙ sym (append_assoc k (x ++ fields_text fs) (b'e' ∷ [])),
      ))
]

torrent_info-ok :
    (s i : Text)
    → torrent_info s ≡ ok i
    → (fs : List Field) × (s ≡ b'd' ∷ (fields_text fs ++ b'e' ∷ []))
unfolding torrent_info
torrent_info-ok [] i = λ h. absurd (cc h)
torrent_info-ok (c ∷ s) i = elim (Bool-cases (ltb (length s) 1 || not (c == b'd'))) [
  | inl e ↦ rw e (λ h. absurd (cc h))
  | inr e ↦ rw e (λ h.
      let here : c ≡ b'd' = ground arith in
      let (fs, split) = info_loop-ok (suc (length s)) none s i h in
      (fs, ap (λ d. d ∷ s) here ∙ ap (λ t. b'd' ∷ t) split))
]

the_info-ok :
    (xs : List Text) (i : Text) → the_info xs ≡ ok i → (xs ≡ i ∷ []) × (starts_with_d i ≡ true)
unfolding the_info
the_info-ok [] i = λ h. absurd (cc h)
the_info-ok (x ∷ []) i = elim (Bool-cases (starts_with_d x)) [
  | inl e ↦ rw e (λ h.
      let same : x ≡ i = ok_inj x i h in
      (ap (λ y. y ∷ []) same, subst (λ y. starts_with_d y ≡ true) same e))
  | inr e ↦ rw e (λ h. absurd (cc h))
]
the_info-ok (x ∷ y ∷ xs) i = λ h. absurd (cc h)

is_metainfo :
    (sha1_hex : Text → Text) (s hash : Text)
    → torrent_file_info_hash sha1_hex s ≡ ok hash
    → (info : Text) × IsMetainfo s info × (hash ≡ sha1_hex info)
unfolding torrent_file_info_hash
is_metainfo sha1_hex s hash h =
    let (i, found, digest) = bind-ok (torrent_info s) _ hash h in
    let (fs, shape) = torrent_info-ok s i found in
    let whole : (the_info (infos fs) >>= λ info. ok (sha1_hex info)) ≡ ok hash =
      sym (info_hash_of_fields sha1_hex fs)
      ∙ ap (torrent_file_info_hash sha1_hex) (sym shape)
      ∙ h in
    let (info, one, same) = bind-ok (the_info (infos fs)) _ hash whole in
    let (only, dictionary) = the_info-ok (infos fs) info one in
    (info, (fs, shape, only, dictionary), sym (ok_inj (sha1_hex info) hash same))

hash_of_metainfo :
    (sha1_hex : Text → Text) (s info : Text)
    → IsMetainfo s info
    → torrent_file_info_hash sha1_hex s ≡ ok (sha1_hex info)
unfolding the_info
hash_of_metainfo sha1_hex s info (fs, shape, only, dictionary) =
    ap (torrent_file_info_hash sha1_hex) shape
    ∙ info_hash_of_fields sha1_hex fs
    ∙ ap (λ xs. the_info xs >>= λ i. ok (sha1_hex i)) only
    ∙ rw dictionary refl

-- A file is given an infohash exactly if it is one bencoded dictionary whose values are nested at
-- most 100 deep, with nothing behind it and exactly one value under the key `info`, a dictionary;
-- the infohash is then the digest of the original bytes of that value, wherever it stands.
pub torrent_file_info_hash_lem :
    (sha1_hex : Text → Text) (s hash : Text)
    → (torrent_file_info_hash sha1_hex s ≡ ok hash)
      ↔ ((info : Text) × IsMetainfo s info × (hash ≡ sha1_hex info))
torrent_file_info_hash_lem sha1_hex s hash = (
  is_metainfo sha1_hex s hash,
  λ (info, is, same). hash_of_metainfo sha1_hex s info is ∙ ap ok (sym same),
)
