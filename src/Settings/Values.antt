-- ===== src/Settings/Values.antt =====
-- The values of the environment (getenv, getenvInt, getenvBool, getenvCSV, normalizeStringList of
-- internal/config/config.go). A variable that is not set is the
-- empty text. `atoi` and `parse_bool` stand for strconv.Atoi and strconv.ParseBool.
pub mod Distinct
use rehydrator.Base.{
  is_positive, All-map, max, ℕ, is_some, zero, suc, ◌+◌, ◌-◌, ◌*◌, ◌%◌, ◌≤◌, ◌<◌, min, ◌≡◌, refl,
  sym, ap, ◌∙◌, subst, ◌≢◌, ◌↔◌, ◌⊎◌, inl, inr, Bool, true, false, not, ◌&&◌, ◌||◌, Option, none,
  some, List, [], ◌∷◌, ◌++◌, map, append-nil, append_assoc, arith, ltb, leb, ◌==◌, if◌then◌else◌,
  ==_iff, ==_refl, leb→le, le→leb, lt→ltb, Bool-cases, Option-cases, &&-eq-true, ||-eq-false,
  length, take, drop, all, any, length-append, length-drop, take-append, String, drop-append, All,
  All-append, ℤ, pos, negsuc, is_negative, int_eq, eq_of_int_eq, Text, codes, text_eq,
  eq_of_text_eq, text_eq_refl, text_eq_iff, text_eq_swap,
}
use rehydrator.Base.Strings.{trim_space, to_lower, split}

abbrev pub getenv : Text → Text → Text
getenv [] fallback = fallback
getenv (c ∷ v) fallback = c ∷ v

abbrev pub positive_or : ℤ → Option ℤ → ℤ
positive_or fallback none = fallback
positive_or fallback (some v) = if is_positive v then v else fallback

unfoldable pub getenv_int : (Text → Option ℤ) → Text → ℤ → ℤ
getenv_int atoi raw fallback = if text_eq raw [] then fallback else positive_or fallback (atoi raw)

abbrev pub bool_or : Bool → Option Bool → Bool
bool_or fallback none = fallback
bool_or fallback (some b) = b

unfoldable pub getenv_bool : (Text → Option Bool) → Text → Bool → Bool
getenv_bool parse_bool raw fallback =
    if text_eq raw [] then fallback else bool_or fallback (parse_bool raw)

unfoldable pub list_key : Text → Text
unfolding trim_space to_lower
list_key v = to_lower (trim_space v)

-- the loop of normalizeStringList, with the keys that it has seen
unfoldable pub normalize_from : List Text → List Text → List Text
unfolding list_key
normalize_from seen [] = []
normalize_from seen (v ∷ vs) =
    let skipped = normalize_from seen vs in
    let kept = normalize_from (list_key v ∷ seen) vs in
    if text_eq (list_key v) [] || any (text_eq (list_key v)) seen
    then skipped
    else list_key v ∷ kept

-- normalizeStringList
unfoldable pub normalize_string_list : List Text → List Text
unfolding normalize_from
normalize_string_list vs = normalize_from [] vs

unfoldable pub getenv_csv : Text → List Text → List Text
unfolding trim_space split normalize_string_list
getenv_csv raw fallback =
    if text_eq (trim_space raw) [] then fallback else normalize_string_list (split b',' raw)
