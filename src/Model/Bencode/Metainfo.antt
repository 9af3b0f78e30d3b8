-- ===== src/Model/Bencode/Metainfo.antt =====
-- What the infohash of a torrent file is taken from.
use rehydrator.Base.{
  ℕ, is_some, zero, suc, ◌+◌, ◌-◌, ◌≤◌, ◌<◌, ◌≡◌, refl, sym, ◌∙◌, subst, inl, inr, true, false, not,
  ◌||◌, Option, none, some, List, [], ◌∷◌, ◌++◌, append_assoc, arith, ltb, if◌then◌else◌,
  Bool-cases, length, length-append, take-append, Text, codes, text_eq,
}
use rehydrator.Model.Bencode.Complete.{
  length-start, string-IsStart, IsStart-append, read_string_lem, skip_lem, IsStart,
}
use rehydrator.Model.Bencode.{
  Scan, ok, bad, ◌>>=◌, max_depth, skip, read_string, fuel_for, starts_with_d, keep_info, consumed,
  info_loop, torrent_info, torrent_file_info_hash, is_some,
}
use rehydrator.Model.Bencode.Grammar.{IsString, Value}

-- An entry of the outer dictionary: its key as a string, and the text of its value.
pub record Field : Type 0 where
  pub key : Text
  pub key_text : Text
  pub value : Text
  pub key_string : IsString key key_text
  pub value_valid : Value max_depth value

abbrev pub fields_text : List Field → Text
fields_text [] = []
fields_text (f ∷ fs) = f.key_text ++ (f.value ++ fields_text fs)

-- the values under the key `info`
unfoldable pub infos : List Field → List Text
infos [] = []
infos (f ∷ fs) = if text_eq f.key (codes "info") then f.value ∷ infos fs else infos fs

-- The file's identity: its one info dictionary.
unfoldable pub the_info : List Text → Scan Text
the_info [] = bad
the_info (x ∷ []) = if starts_with_d x then ok x else bad
the_info (x ∷ y ∷ xs) = bad

with_info : Option Text → List Text → Scan Text
with_info none xs = the_info xs
with_info (some i) [] = ok i
with_info (some i) (x ∷ xs) = bad

consumed_lem : (x rest : Text) → consumed (x ++ rest) rest ≡ x
consumed_lem x rest =
    let size : length (x ++ rest) - length rest ≡ length x = omega (arith, length-append x rest) in
    rw size (take-append x rest)

info_loop_step :
    (n : ℕ) (info : Option Text) (s key start rest : Text)
    → IsStart s
    → read_string s ≡ ok (key, start)
    → skip (fuel_for start) 0 start ≡ ok rest
    → info_loop (suc n) info s
      ≡ (keep_info key (consumed start rest) info >>= λ i. info_loop n i rest)
unfolding info_loop IsStart
info_loop_step n info s key start rest (c, t, e, no_end) k h =
    let k' : read_string (c ∷ t) ≡ ok (key, start) =
      subst (λ w. read_string w ≡ ok (key, start)) e k in
    rw (e, no_end, k', h)

field_step :
    (n : ℕ) (info : Option Text) (f : Field) (rest : Text)
    → info_loop (suc n) info (f.key_text ++ (f.value ++ rest))
      ≡ (keep_info f.key f.value info >>= λ i. info_loop n i rest)
field_step n info f rest =
    info_loop_step n info (f.key_text ++ (f.value ++ rest)) f.key (f.value ++ rest) rest
      (IsStart-append f.key_text (f.value ++ rest) (string-IsStart f.key f.key_text f.key_string))
      (read_string_lem f.key f.key_text (f.value ++ rest) f.key_string)
      (skip_lem 0 max_depth f.value rest (fuel_for (f.value ++ rest)) f.value_valid (omega arith)
        (omega arith))
    ∙ rw (consumed_lem f.value rest)

with_first :
    (v : Text) (xs : List Text) → starts_with_d v ≡ true → with_info (some v) xs ≡ the_info (v ∷ xs)
unfolding with_info the_info
with_first v [] d = rw d
with_first v (x ∷ xs) d = refl

no_dictionary : (v : Text) (xs : List Text) → starts_with_d v ≡ false → the_info (v ∷ xs) ≡ bad
unfolding the_info
no_dictionary v [] d = rw d
no_dictionary v (x ∷ xs) d = refl

keep_step :
    (key v : Text) (info : Option Text) (xs : List Text) (k : Option Text → Scan Text)
    → ((i : Option Text) → k i ≡ with_info i xs)
    → (keep_info key v info >>= k)
      ≡ with_info info (if text_eq key (codes "info") then v ∷ xs else xs)
unfolding keep_info
keep_step key v info xs k h = elim (Bool-cases (text_eq key (codes "info"))) [
  | inl e ↦ rw e (named info)
  | inr e ↦ rw e (h info)
]
  where
    named :
        (info : Option Text)
        → ((if is_some info || not (starts_with_d v) then bad else ok (some v)) >>= k)
          ≡ with_info info (v ∷ xs)
    named (some i) = unfold with_info in refl
    named none = elim (Bool-cases (starts_with_d v)) [
      | inl d ↦ rw d (h (some v) ∙ (with_first v xs d ∙ unfold with_info in refl))
      | inr d ↦ rw d (sym (no_dictionary v xs d) ∙ unfold with_info in refl)
    ]

info_loop_lem :
    (n : ℕ) (info : Option Text) (fs : List Field)
    → length fs < n
    → info_loop n info (fields_text fs ++ b'e' ∷ []) ≡ with_info info (infos fs)
info_loop_lem zero info fs h = absurd (omega arith)
info_loop_lem (suc n) none [] h = unfold info_loop with_info infos the_info in refl
info_loop_lem (suc n) (some i) [] h = unfold info_loop with_info infos the_info in refl
info_loop_lem (suc n) info (f ∷ fs) h =
    rw
      (
        append_assoc f.key_text (f.value ++ fields_text fs) (b'e' ∷ []),
        append_assoc f.value (fields_text fs) (b'e' ∷ []),
      )
      (field_step n info f (fields_text fs ++ b'e' ∷ [])
        ∙ (keep_step f.key f.value info (infos fs)
              (λ i. info_loop n i (fields_text fs ++ b'e' ∷ []))
              (λ i. info_loop_lem n i fs (omega arith))
            ∙ unfold infos in refl))

length-fields_text : (fs : List Field) → length fs ≤ length (fields_text fs)
length-fields_text [] = omega arith
length-fields_text (f ∷ fs) = omega (
  arith,
  length-fields_text fs,
  length-append f.key_text (f.value ++ fields_text fs),
  length-append f.value (fields_text fs),
  length-start f.key_text (string-IsStart f.key f.key_text f.key_string),
)

-- the infohash of a dictionary of entries
pub info_hash_of_fields :
    (sha1_hex : Text → Text) (fs : List Field)
    → torrent_file_info_hash sha1_hex (b'd' ∷ (fields_text fs ++ b'e' ∷ []))
      ≡ (the_info (infos fs) >>= λ info. ok (sha1_hex info))
unfolding torrent_file_info_hash torrent_info
info_hash_of_fields sha1_hex fs =
    let size : length (fields_text fs ++ b'e' ∷ []) ≡ length (fields_text fs) + 1 =
      length-append (fields_text fs) (b'e' ∷ []) in
    let long : ltb (length (fields_text fs ++ b'e' ∷ [])) 1 ≡ false = ground (arith, size) in
    rw
      (
        long,
        info_loop_lem (suc (length (fields_text fs ++ b'e' ∷ []))) none fs
            (omega (arith, size, length-fields_text fs)),
      )
      (unfold with_info in refl)
