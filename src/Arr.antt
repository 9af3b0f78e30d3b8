-- ===== src/Arr.antt =====
-- `RemoveMissingImportedFile` and `missingFileRequest` of internal/arr/missing_file.go. Radarr or
-- Sonarr is an argument: a state with its answers to the requests, each a status and a decoded body.
-- An error of the transport or of the decoder is `none`.
use rehydrator.Base.{
  is_positive, All-map, max, ℕ, is_some, zero, suc, ◌+◌, ◌-◌, ◌*◌, ◌%◌, ◌≤◌, ◌<◌, min, ◌≡◌, refl,
  sym, ap, ◌∙◌, subst, ◌≢◌, ◌↔◌, ◌⊎◌, inl, inr, Bool, true, false, not, ◌&&◌, ◌||◌, Option, none,
  some, List, [], ◌∷◌, ◌++◌, map, append-nil, append_assoc, arith, ltb, leb, ◌==◌, if◌then◌else◌,
  ==_iff, ==_refl, leb→le, le→leb, lt→ltb, Bool-cases, Option-cases, &&-eq-true, ||-eq-false,
  length, take, drop, all, any, length-append, length-drop, take-append, String, drop-append, All,
  All-append, ℤ, pos, negsuc, is_negative, int_eq, eq_of_int_eq, Text, codes, text_eq,
  eq_of_text_eq, text_eq_refl, text_eq_iff, text_eq_swap,
}
use rehydrator.Base.Strings.{trim_space}
use rehydrator.Db.Media.{Item, MediaType, movie, series}
pub mod Removal
pub mod Tests

pub record EpisodeFile : Type 0 where
  pub id : ℤ
  pub series_id : ℤ
  pub path : Text

pub record MovieFile : Type 0 where
  pub id : ℤ
  pub path : Text

pub record ArrMovie : Type 0 where
  pub id : ℤ
  pub movie_file : Option MovieFile

-- what a DELETE names
pub data Endpoint : Type 0 where
  of_episode of_movie : ℤ → Endpoint

-- the requests of the client
pub record Server {ℓ} (S : Type ℓ) : Type ℓ where
  pub get_episode : S → ℤ → Option (ℕ × Option EpisodeFile)
  pub get_movie : S → ℤ → Option (ℕ × Option ArrMovie)
  pub delete_file : S → Endpoint → S × Option ℕ

pub data Answer {ℓ} (A : Type ℓ) : Type ℓ where
  no_answer : Answer A
  not_there : Answer A
  there : A → Answer A

abbrev pub decoded {ℓ} : {A : Type ℓ} → Option A → Answer A
decoded none = no_answer
decoded (some a) = there a

-- missingFileRequest
unfoldable pub answer_of {ℓ} : {A : Type ℓ} → Option (ℕ × Option A) → Answer A
answer_of none = no_answer
answer_of (some (status, body)) =
    if status == 404
    then not_there
    else if ltb status 200 || leb 300 status
    then no_answer
    else decoded body

-- a DELETE has no body to decode
abbrev pub deleted_body : Option ℕ → Option (ℕ × Option Bool)
deleted_body none = none
deleted_body (some status) = some (status, some true)

-- what is to be removed: an error, nothing, or one file
pub data RemovalTarget : Type 0 where
  refused nothing : RemovalTarget
  remove : Endpoint → RemovalTarget

unfoldable pub episode_target : ℤ → ℤ → Text → Answer EpisodeFile → RemovalTarget
unfolding trim_space
episode_target arr owner path no_answer = refused
episode_target arr owner path not_there = nothing
episode_target arr owner path (there f) =
    if int_eq f.id arr && int_eq f.series_id owner && text_eq (trim_space f.path) path
    then remove (of_episode f.id)
    else refused

unfoldable pub file_target : Text → Option MovieFile → RemovalTarget
unfolding trim_space
file_target path none = nothing
file_target path (some f) =
    if not (is_positive f.id)
    then nothing
    else if text_eq (trim_space f.path) path
    then remove (of_movie f.id)
    else refused

unfoldable pub movie_target : ℤ → Text → Answer ArrMovie → RemovalTarget
unfolding file_target
movie_target arr path no_answer = refused
movie_target arr path not_there = nothing
movie_target arr path (there v) = if int_eq v.id arr then file_target path v.movie_file else refused

abbrev pub has_file : Option MovieFile → Bool
has_file none = false
has_file (some f) = is_positive f.id

-- the check after the removal
abbrev pub no_episode : Answer EpisodeFile → Bool
no_episode not_there = true
no_episode _ = false

abbrev pub no_file : Answer ArrMovie → Bool
no_file no_answer = false
no_file not_there = true
no_file (there v) = not (has_file v.movie_file)

abbrev pub is_confirmed : Option (Text → Option Bool) → Text → Bool
is_confirmed none path = false
is_confirmed (some confirm) path = is_yes (confirm path)
  where
    is_yes : Option Bool → Bool
    is_yes (some b) = b
    is_yes none = false

-- how a call ends: the server, the DELETE that was sent, and whether there is no error
pub record Removed {ℓ} (S : Type ℓ) : Type ℓ where
  pub server : S
  pub sent : Option Endpoint
  pub succeeded : Bool

abbrev pub unsent {ℓ} : {S : Type ℓ} → S → Bool → Removed S
unsent s fine = record { server = s; sent = none; succeeded = fine }

module _ {ℓ} {S : Type ℓ} (a : Server S) where
  abbrev pub series_target : Bool → S → Item → Option ℤ → RemovalTarget
  series_target is_sonarr s m none = refused
  series_target is_sonarr s m (some owner) =
      if is_sonarr
      then episode_target m.arr_id owner m.symlink_path (answer_of (a.get_episode s m.arr_id))
      else refused

  abbrev pub radarr_target : Bool → S → Item → RemovalTarget
  radarr_target is_radarr s m =
      if is_radarr
      then movie_target m.arr_id m.symlink_path (answer_of (a.get_movie s m.arr_id))
      else refused

  abbrev pub target_for : Text → S → Item → MediaType → RemovalTarget
  target_for name s m series = series_target (text_eq name (codes "sonarr")) s m m.series_id
  target_for name s m movie = radarr_target (text_eq name (codes "radarr")) s m

  abbrev pub is_gone : S → Item → Endpoint → Bool
  is_gone s m (of_episode id) = no_episode (answer_of (a.get_episode s id))
  is_gone s m (of_movie id) = no_file (answer_of (a.get_movie s m.arr_id))

  abbrev pub after_delete : Item → Endpoint → S → Answer Bool → Removed S
  after_delete m e s no_answer = record { server = s; sent = some e; succeeded = false }
  after_delete m e s not_there = record { server = s; sent = some e; succeeded = is_gone s m e }
  after_delete m e s (there u) = record { server = s; sent = some e; succeeded = is_gone s m e }

  abbrev pub remove_target : Option (Text → Option Bool) → S → Item → RemovalTarget → Removed S
  remove_target confirm s m refused = unsent s false
  remove_target confirm s m nothing = unsent s true
  remove_target confirm s m (remove e) =
      let deleted = a.delete_file s e in
      if is_confirmed confirm m.symlink_path
      then after_delete m e (deleted.0) (answer_of (deleted_body (deleted.1)))
      else unsent s false

  -- RemoveMissingImportedFile; `configured` is Configured of the client, `name` its name
  unfoldable pub remove_missing_imported_file :
      Bool → Text → Option (Text → Option Bool) → S → Item → Removed S
  unfolding episode_target movie_target answer_of
  remove_missing_imported_file configured name confirm s m =
      if configured
      then remove_target confirm s m (target_for name s m m.media_type)
      else unsent s false
