-- ===== src/Controller/Refresh.antt =====
-- reserveJellyfinRefresh of internal/controller/controller.go: a refresh of a path is reserved once
-- in a window of time. The map of the controller is a list with one entry for a key; calls run
-- one after the other, each with its query of the database. Times are in seconds, and a negative
-- number of minutes counts as none.
use rehydrator.Base.{
  is_positive, All-map, max, ℕ, is_some, zero, suc, ◌+◌, ◌-◌, ◌*◌, ◌%◌, ◌≤◌, ◌<◌, min, ◌≡◌, refl,
  sym, ap, ◌∙◌, subst, ◌≢◌, ◌↔◌, ◌⊎◌, inl, inr, Bool, true, false, not, ◌&&◌, ◌||◌, Option, none,
  some, List, [], ◌∷◌, ◌++◌, map, append-nil, append_assoc, arith, ltb, leb, ◌==◌, if◌then◌else◌,
  ==_iff, ==_refl, leb→le, le→leb, lt→ltb, Bool-cases, Option-cases, &&-eq-true, ||-eq-false,
  length, take, drop, all, any, length-append, length-drop, take-append, String, drop-append, All,
  All-append, ℤ, pos, negsuc, is_negative, int_eq, eq_of_int_eq, Text, codes, text_eq,
  eq_of_text_eq, text_eq_refl, text_eq_iff, text_eq_swap,
}
use rehydrator.Db.Rows.{filter}
use rehydrator.Db.Media.{MediaType, movie, series}
pub mod Once

pub record Reservation : Type 0 where
  pub key : Text
  pub until : ℕ

abbrev pub type_text : MediaType → Text
type_text movie = codes "movie"
type_text series = codes "series"

-- strings.Join of the tenant, the type and the path
abbrev pub refresh_key : Text → MediaType → Text → Text
refresh_key tenant media path = tenant ++ (codes "|" ++ (type_text media ++ (codes "|" ++ path)))

-- the loop that deletes the entries that are over: now.After(until)
unfoldable pub purge : ℕ → List Reservation → List Reservation
purge now es = filter (λ r. not (ltb r.until now)) es

unfoldable pub is_reserved : ℕ → Text → List Reservation → Bool
is_reserved now key es = any (λ r. text_eq r.key key && ltb now r.until) es

unfoldable pub delete_key : Text → List Reservation → List Reservation
delete_key key es = filter (λ r. not (text_eq r.key key)) es

unfoldable pub put_key : Text → ℕ → List Reservation → List Reservation
put_key key until es = record { key = key; until = until } ∷ delete_key key es

-- What RecentSuccessfulJellyfinRefresh answers: a recent refresh withdraws the reservation, and an
-- error, or no database, leaves it.
abbrev pub after_query : Text → List Reservation → Option Bool → List Reservation × Bool
after_query key es (some true) = (delete_key key es, false)
after_query key es _ = (es, true)

-- reserveJellyfinRefresh: the map after it, and whether the refresh is reserved
unfoldable pub reserve_refresh :
    ℕ → ℕ → Text → Option Bool → List Reservation → List Reservation × Bool
reserve_refresh now minutes key recent es =
    if minutes == 0
    then (es, true)
    else if is_reserved now key (purge now es)
    then (purge now es, false)
    else after_query key (put_key key (now + minutes * 60) (purge now es)) recent
