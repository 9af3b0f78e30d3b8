-- ===== src/Arr/Removal.antt =====
-- Only the file that is recorded and confirmed missing is removed.
use rehydrator.Base.{
  is_positive, ◌≡◌, refl, sym, ap, ◌∙◌, subst, ◌⊎◌, inl, inr, Bool, true, false, ◌&&◌, Option, none,
  some, Bool-cases, &&-eq-true, ℤ, int_eq, eq_of_int_eq, Text, codes, text_eq, eq_of_text_eq,
}
use rehydrator.Base.Strings.{trim_space}
use rehydrator.Db.Media.{Item, MediaType, movie, series}
use rehydrator.Arr.{
  EpisodeFile, MovieFile, ArrMovie, Endpoint, of_episode, of_movie, Server, Answer, no_answer,
  not_there, there, answer_of, deleted_body, RemovalTarget, refused, nothing, remove,
  episode_target, file_target, movie_target, is_confirmed, series_target, radarr_target, target_for,
  is_gone, after_delete, remove_target, remove_missing_imported_file,
}

-- the file of an endpoint is the one that the answer records for the row
IsRecordedFile : ℤ → Text → Endpoint → Answer EpisodeFile → Option ℤ → Type 0
IsRecordedFile arr path e answer owner =
    (f : EpisodeFile) × (answer ≡ there f)
    × (f.id ≡ arr)
    × (owner ≡ some f.series_id)
    × (trim_space f.path ≡ path)
    × (e ≡ of_episode arr)

IsRecordedMovie : ℤ → Text → Endpoint → Answer ArrMovie → Type 0
IsRecordedMovie arr path e answer =
    (v : ArrMovie) × (f : MovieFile) × (answer ≡ there v)
    × (v.id ≡ arr)
    × (v.movie_file ≡ some f)
    × (trim_space f.path ≡ path)
    × (e ≡ of_movie f.id)

abbrev removal_or : Endpoint → RemovalTarget → Endpoint
removal_or e refused = e
removal_or e nothing = e
removal_or e (remove f) = f

abbrev sent_or {ℓ} : {A : Type ℓ} → A → Option A → A
sent_or e none = e
sent_or e (some f) = f

recorded_file :
    (arr owner : ℤ) (path : Text) (e : Endpoint) (answer : Answer EpisodeFile)
    → episode_target arr owner path answer ≡ remove e
    → IsRecordedFile arr path e answer (some owner)
unfolding episode_target IsRecordedFile
recorded_file arr owner path e no_answer = λ h. absurd (cc h)
recorded_file arr owner path e not_there = λ h. absurd (cc h)
recorded_file arr owner path e (there f) =
    elim (Bool-cases
      (int_eq f.id arr && int_eq f.series_id owner && text_eq (trim_space f.path) path)) [
        | inl k ↦ rw k (λ h.
            let (front, third) =
              &&-eq-true (int_eq f.id arr && int_eq f.series_id owner)
                (text_eq (trim_space f.path) path) k in
            let (first, second) = &&-eq-true (int_eq f.id arr) (int_eq f.series_id owner) front in
            (
              f,
              refl,
              eq_of_int_eq f.id arr first,
              ap some (sym (eq_of_int_eq f.series_id owner second)),
              eq_of_text_eq (trim_space f.path) path third,
              sym (ap (removal_or e) h) ∙ ap of_episode (eq_of_int_eq f.id arr first),
            ))
        | inr k ↦ rw k (λ h. absurd (cc h))
      ]

recorded_movie_file :
    (path : Text) (e : Endpoint) (o : Option MovieFile)
    → file_target path o ≡ remove e
    → (f : MovieFile) × (o ≡ some f) × (trim_space f.path ≡ path) × (e ≡ of_movie f.id)
unfolding file_target
recorded_movie_file path e none = λ h. absurd (cc h)
recorded_movie_file path e (some f) = elim (Bool-cases (is_positive f.id)) [
  | inl p ↦ rw p (elim (Bool-cases (text_eq (trim_space f.path) path)) [
    | inl k ↦
        rw k (λ h. (f, refl, eq_of_text_eq (trim_space f.path) path k, sym (ap (removal_or e) h)))
    | inr k ↦ rw k (λ h. absurd (cc h))
  ])
  | inr p ↦ rw p (λ h. absurd (cc h))
]

recorded_movie :
    (arr : ℤ) (path : Text) (e : Endpoint) (answer : Answer ArrMovie)
    → movie_target arr path answer ≡ remove e
    → IsRecordedMovie arr path e answer
unfolding movie_target IsRecordedMovie
recorded_movie arr path e no_answer = λ h. absurd (cc h)
recorded_movie arr path e not_there = λ h. absurd (cc h)
recorded_movie arr path e (there v) = elim (Bool-cases (int_eq v.id arr)) [
  | inl k ↦ rw k (λ h.
      let (f, has, at_path, same) = recorded_movie_file path e v.movie_file h in
      (v, f, refl, eq_of_int_eq v.id arr k, has, at_path, same))
  | inr k ↦ rw k (λ h. absurd (cc h))
]

false_or_true : (b : Bool) → (b ≡ false) ⊎ (b ≡ true)
false_or_true true = inr refl
false_or_true false = inl refl

module _ {ℓ} {S : Type ℓ} (a : Server S) where
  -- what the server records of a row's file
  unfoldable pub IsRecorded : S → Item → Endpoint → MediaType → Type 0
  unfolding IsRecordedFile IsRecordedMovie
  IsRecorded s m e series =
      IsRecordedFile m.arr_id m.symlink_path e (answer_of (a.get_episode s m.arr_id)) m.series_id
  IsRecorded s m e movie =
      IsRecordedMovie m.arr_id m.symlink_path e (answer_of (a.get_movie s m.arr_id))

  series_recorded :
      (is_sonarr : Bool) (s : S) (m : Item) (e : Endpoint) (owner : Option ℤ)
      → series_target a is_sonarr s m owner ≡ remove e
      → IsRecordedFile m.arr_id m.symlink_path e (answer_of (a.get_episode s m.arr_id)) owner
  series_recorded is_sonarr s m e none h = absurd (cc h)
  series_recorded true s m e (some owner) h =
      recorded_file m.arr_id owner m.symlink_path e (answer_of (a.get_episode s m.arr_id)) h
  series_recorded false s m e (some owner) h = absurd (cc h)

  radarr_recorded :
      (is_radarr : Bool) (s : S) (m : Item) (e : Endpoint)
      → radarr_target a is_radarr s m ≡ remove e
      → IsRecordedMovie m.arr_id m.symlink_path e (answer_of (a.get_movie s m.arr_id))
  radarr_recorded true s m e h =
      recorded_movie m.arr_id m.symlink_path e (answer_of (a.get_movie s m.arr_id)) h
  radarr_recorded false s m e h = absurd (cc h)

  target_recorded :
      (name : Text) (s : S) (m : Item) (e : Endpoint) (t : MediaType)
      → target_for a name s m t ≡ remove e
      → IsRecorded s m e t
  unfolding IsRecorded
  target_recorded name s m e series h =
      series_recorded (text_eq name (codes "sonarr")) s m e m.series_id h
  target_recorded name s m e movie h = radarr_recorded (text_eq name (codes "radarr")) s m e h

  sent_after :
      (m : Item) (e f : Endpoint) (s : S) (answer : Answer Bool)
      → (after_delete a m f s answer).sent ≡ some e
      → (f ≡ e)
        × (((after_delete a m f s answer).succeeded ≡ false)
            ⊎ (is_gone a (after_delete a m f s answer).server m f ≡ true))
  sent_after m e f s no_answer h = (ap (sent_or f) h, inl refl)
  sent_after m e f s not_there h = (ap (sent_or f) h, false_or_true (is_gone a s m f))
  sent_after m e f s (there u) h = (ap (sent_or f) h, false_or_true (is_gone a s m f))

  sent_target :
      (confirm : Option (Text → Option Bool)) (s : S) (m : Item) (e : Endpoint) (t : RemovalTarget)
      → (remove_target a confirm s m t).sent ≡ some e
      → (t ≡ remove e)
        × (is_confirmed confirm m.symlink_path ≡ true)
        × (((remove_target a confirm s m t).succeeded ≡ false)
            ⊎ (is_gone a (remove_target a confirm s m t).server m e ≡ true))
  sent_target confirm s m e refused = λ h. absurd (cc h)
  sent_target confirm s m e nothing = λ h. absurd (cc h)
  sent_target confirm s m e (remove f) = elim (Bool-cases (is_confirmed confirm m.symlink_path)) [
    | inl k ↦ rw k (λ h.
        let after =
          after_delete a m f ((a.delete_file s f).0)
            (answer_of (deleted_body ((a.delete_file s f).1))) in
        let (same, gone) =
          sent_after m e f ((a.delete_file s f).0)
            (answer_of (deleted_body ((a.delete_file s f).1))) h in
        (
          ap remove same,
          refl,
          subst (λ x. (after.succeeded ≡ false) ⊎ (is_gone a after.server m x ≡ true)) same gone,
        ))
    | inr k ↦ rw k (λ h. absurd (cc h))
  ]

  -- A call sends a DELETE only if Arr records a file for the row, with the row's identity and at
  -- the row's path, and the caller confirmed that this path is missing; the DELETE names that file,
  -- and the call ends without an error only if Arr then records no file any more.
  pub removes_recorded :
      (configured : Bool) (name : Text) (confirm : Option (Text → Option Bool)) (s : S) (m : Item)
      (e : Endpoint)
      → (remove_missing_imported_file a configured name confirm s m).sent ≡ some e
      → IsRecorded s m e m.media_type
        × (is_confirmed confirm m.symlink_path ≡ true)
        × (((remove_missing_imported_file a configured name confirm s m).succeeded ≡ false)
            ⊎ (is_gone a (remove_missing_imported_file a configured name confirm s m).server m e
                ≡ true))
  unfolding remove_missing_imported_file
  removes_recorded false name confirm s m e h = absurd (cc h)
  removes_recorded true name confirm s m e h =
      let (found, confirmed, gone) =
        sent_target confirm s m e (target_for a name s m m.media_type) h in
      (target_recorded name s m e m.media_type found, confirmed, gone)
