-- ===== src/Arr/Tests.antt =====
-- A movie file that went missing is removed.
use rehydrator.Base.{
  ℕ, ◌≡◌, refl, ◌⊎◌, Bool, true, false, Option, none, some, if◌then◌else◌, ℤ, pos, int_eq, Text,
  codes, text_eq,
}
use rehydrator.Db.Media.{Item, movie, broken}
use rehydrator.Db.Media.Imports.{new_item}
use rehydrator.Arr.{
  MovieFile, ArrMovie, Endpoint, of_episode, of_movie, Server, is_confirmed, is_gone,
  remove_missing_imported_file,
}
use rehydrator.Arr.Removal.{IsRecorded, removes_recorded}

abbrev path : Text
path = codes "/media/film.mkv"

abbrev film : Item
film = new_item 100 (codes "a") (codes "home") movie (pos 7) path broken none

-- a Radarr whose state is the file of its one movie
abbrev only_movie : Option MovieFile → ℤ → Option (ℕ × Option ArrMovie)
only_movie f id =
    if int_eq id (pos 7)
    then some (200, some (record { id = pos 7; movie_file = f }))
    else some (404, none)

abbrev drop_file : Option MovieFile → Endpoint → Option MovieFile × Option ℕ
drop_file f (of_episode id) = (f, some 404)
drop_file f (of_movie id) = (none, some 200)

abbrev a_radarr : Server (Option MovieFile)
a_radarr = record {
  get_episode = λ f id. some (404, none);
  get_movie = only_movie;
  delete_file = drop_file;
}

abbrev recorded : Option MovieFile
recorded = some (record { id = pos 31; path = path })

abbrev confirms : Option (Text → Option Bool)
confirms = some (λ p. some (text_eq p path))

removes :
    (remove_missing_imported_file a_radarr true (codes "radarr") confirms recorded film).sent
    ≡ some (of_movie (pos 31))
unfolding remove_missing_imported_file new_item
removes = refl

succeeds :
    (remove_missing_imported_file a_radarr true (codes "radarr") confirms recorded film).succeeded
    ≡ true
unfolding remove_missing_imported_file new_item
succeeds = refl

-- without a confirmation nothing is sent
keeps_unconfirmed :
    (remove_missing_imported_file a_radarr true (codes "radarr") none recorded film).sent ≡ none
unfolding remove_missing_imported_file new_item
keeps_unconfirmed = refl

removes_recorded_example :
    IsRecorded a_radarr recorded film (of_movie (pos 31)) movie
    × (is_confirmed confirms path ≡ true)
    × (((remove_missing_imported_file a_radarr true
            (codes "radarr")
            confirms
            recorded
            film).succeeded
          ≡ false)
        ⊎ (is_gone a_radarr
              (remove_missing_imported_file a_radarr true
                (codes "radarr")
                confirms
                recorded
                film).server
              film
              (of_movie (pos 31))
            ≡ true))
unfolding new_item
removes_recorded_example =
    removes_recorded a_radarr true (codes "radarr") confirms recorded film (of_movie (pos 31))
      removes
