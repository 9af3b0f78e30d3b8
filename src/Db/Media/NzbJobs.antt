-- ===== src/Db/Media/NzbJobs.antt =====
-- `EnsureNZBJob` of internal/db/usenet.go: one job of the provider for every original NZB, shared by
-- the episodes of a season pack. The advisory lock makes the calls for a source run one after the
-- other. `ensure` is the caller's submission, which answers the ID of a job or fails. A failed call
-- is `none` and rolls back. Times are in seconds.
use rehydrator.Base.{
  is_positive, All-map, max, ℕ, is_some, zero, suc, ◌+◌, ◌-◌, ◌*◌, ◌%◌, ◌≤◌, ◌<◌, min, ◌≡◌, refl,
  sym, ap, ◌∙◌, subst, ◌≢◌, ◌↔◌, ◌⊎◌, inl, inr, Bool, true, false, not, ◌&&◌, ◌||◌, Option, none,
  some, List, [], ◌∷◌, ◌++◌, map, append-nil, append_assoc, arith, ltb, leb, ◌==◌, if◌then◌else◌,
  ==_iff, ==_refl, leb→le, le→leb, lt→ltb, Bool-cases, Option-cases, &&-eq-true, ||-eq-false,
  length, take, drop, all, any, length-append, length-drop, take-append, String, drop-append, All,
  All-append, ℤ, pos, negsuc, is_negative, int_eq, eq_of_int_eq, Text, codes, text_eq,
  eq_of_text_eq, text_eq_refl, text_eq_iff, text_eq_swap,
}
use rehydrator.Base.Strings.{trim_space}
use rehydrator.Db.Rows.{update, find}
use rehydrator.Db.Media.{
  Item, SavedSource, MediaType, movie, series, State, waiting_for_visibility, set_items, named,
  equals_text,
}
pub mod Shared
pub mod Tests

-- the key of media_cache_usenet_jobs
pub record JobKey : Type 0 where
  pub tenant : Text
  pub arr : Text
  pub owner_id : ℤ
  pub original : Text

pub record UsenetJob : Type 0 where
  pub key : JobKey
  pub job_id : Text

pub record JobTables : Type 0 where
  pub items : List Item
  pub jobs : List UsenetJob

abbrev pub is_nzb_source : Text → SavedSource → Bool
is_nzb_source id s = text_eq s.media_id id && text_eq s.source.protocol (codes "usenet")

abbrev pub arr_name : MediaType → Text
arr_name movie = codes "radarr"
arr_name series = codes "sonarr"

-- CASE WHEN m.media_type='movie' THEN m.arr_id ELSE m.series_id END
abbrev pub owner_of : MediaType → ℤ → Option ℤ → Option ℤ
owner_of movie arr series_id = some arr
owner_of series arr series_id = series_id

-- an owner that is NULL cannot be scanned
abbrev pub key_with : Text → MediaType → Text → Option ℤ → Option JobKey
key_with tenant media original none = none
key_with tenant media original (some owner) =
    some (record { tenant = tenant; arr = arr_name media; owner_id = owner; original = original })

abbrev pub nzb_key_of : Option Item → Option SavedSource → Option JobKey
nzb_key_of (some m) (some s) =
    key_with m.tenant m.media_type s.source.download_id (owner_of m.media_type m.arr_id m.series_id)
nzb_key_of _ _ = none

-- the SELECT that joins a row with its saved source
unfoldable pub job_key : Text → List SavedSource → List Item → Option JobKey
unfolding find
job_key id sources items = nzb_key_of (find (named id) items) (find (is_nzb_source id) sources)

abbrev pub same_job : JobKey → UsenetJob → Bool
same_job k j =
    text_eq j.key.tenant k.tenant
    && text_eq j.key.arr k.arr
    && int_eq j.key.owner_id k.owner_id
    && text_eq j.key.original k.original

-- INSERT … ON CONFLICT … RETURNING job_id: a new job has the original ID
unfoldable pub current_job : JobKey → List UsenetJob → Text
current_job k [] = k.original
current_job k (j ∷ js) = let rest = current_job k js in if same_job k j then j.job_id else rest

unfoldable pub put_job : JobKey → Text → List UsenetJob → List UsenetJob
put_job k job [] = record { key = k; job_id = job } ∷ []
put_job k job (j ∷ js) =
    let rest = put_job k job js in if same_job k j then record j { job_id = job } ∷ js else j ∷ rest

-- the current imports of exactly this source
abbrev pub is_import : JobKey → Item → Bool
is_import k m =
    text_eq m.tenant k.tenant
    && text_eq m.source_protocol (codes "usenet")
    && equals_text m.source_download_id k.original
    && imports_owner m.media_type m.arr_id m.series_id
  where
    imports_owner : MediaType → ℤ → Option ℤ → Bool
    imports_owner movie arr series_id = text_eq k.arr (codes "radarr") && int_eq arr k.owner_id
    imports_owner series arr (some owner) =
        text_eq k.arr (codes "sonarr") && int_eq owner k.owner_id
    imports_owner series arr none = false

abbrev pub await_job : ℕ → Item → Item
await_job now m = record m {
  state = waiting_for_visibility;
  rearm_requested = true;
  next_retry_at = some (now + 30);
  last_checked = some now;
}

-- the statements after a submission
unfoldable pub store_job : ℕ → Text → JobKey → Text → JobTables → JobTables
unfolding put_job set_items
store_job now id k job t = record {
  items =
      set_items now (named id) (await_job now)
        (set_items now (is_import k) (λ m. record m { download_job_id = job }) t.items);
  jobs = put_job k job t.jobs;
}

abbrev pub after_ensure_job :
    ℕ → Text → JobKey → JobTables → Option Text → Option (JobTables × Text)
after_ensure_job now id k t none = none
after_ensure_job now id k t (some job) =
    if text_eq (trim_space job) [] then none else some (store_job now id k job t, job)

-- CHECK(owner_id>0) refuses the job of a placeholder
abbrev pub ensure_with :
    ℕ → Text → (Text → Option Text) → JobTables → Option JobKey → Option (JobTables × Text)
ensure_with now id ensure t none = none
ensure_with now id ensure t (some k) =
    if is_positive k.owner_id
    then after_ensure_job now id k t (ensure (current_job k t.jobs))
    else none

-- EnsureNZBJob: the tables, and the ID of the job
unfoldable pub ensure_nzb_job :
    ℕ → Text → (Text → Option Text) → List SavedSource → JobTables → Option (JobTables × Text)
unfolding job_key current_job store_job trim_space
ensure_nzb_job now id ensure sources t = ensure_with now id ensure t (job_key id sources t.items)
