-- ===== src/Db/Media/Lifecycle/Submissions.antt =====
-- The shared NZB jobs and the requests for a series keep every row consistent.
use rehydrator.Db.Media.Lifecycle.{AreConsistent, items_or, series_or, Flags}
use rehydrator.Base.{not, ◌||◌, length, ◌==◌}
use rehydrator.Db.Rows.{find}
use rehydrator.Db.Media.Seerr.{
  SeerrTables, is_request, is_candidate, is_first, is_under_way, ask_rearm, ask_series, is_done,
  unless_done, request_seerr_tv,
}
use rehydrator.Base.Strings.{trim_space}
use rehydrator.Base.{text_eq}
use rehydrator.Db.Media.{SavedSource}
use rehydrator.Db.Media.NzbJobs.{
  JobKey, JobTables, job_key, current_job, is_import, await_job, store_job, after_ensure_job,
  ensure_with, ensure_nzb_job,
}
use rehydrator.Base.{
  is_positive, ℕ, refl, inl, inr, Bool, true, false, ◌&&◌, Option, none, some, List, [],
  if◌then◌else◌, Bool-cases, any, ℤ, Text,
}
use rehydrator.Db.Media.{named, archived, waiting_for_visibility}
use rehydrator.Db.Media.Lifecycle.Kept.{set_items-kept}

store_kept :
    (now : ℕ) (id : Text) (k : JobKey) (job : Text) (t : JobTables)
    → AreConsistent t.items
    → AreConsistent (store_job now id k job t).items
unfolding store_job
store_kept now id k job t h =
    set_items-kept now (named id) (await_job now) _ (λ m c t. refl)
      (set_items-kept now (is_import k) (λ m. record m { download_job_id = job }) t.items
        (λ m c t. c) h)

after_ensure-kept :
    (now : ℕ) (id : Text) (k : JobKey) (t : JobTables) (answer : Option Text)
    → AreConsistent t.items
    → AreConsistent (items_or t.items (after_ensure_job now id k t answer))
after_ensure-kept now id k t none h = h
after_ensure-kept now id k t (some job) h = elim (Bool-cases (text_eq (trim_space job) [])) [
  | inl b ↦ rw b h
  | inr b ↦ rw b (store_kept now id k job t h)
]

ensure_with-kept :
    (now : ℕ) (id : Text) (ensure : Text → Option Text) (t : JobTables) (o : Option JobKey)
    → AreConsistent t.items
    → AreConsistent (items_or t.items (ensure_with now id ensure t o))
ensure_with-kept now id ensure t none h = h
ensure_with-kept now id ensure t (some k) h = elim (Bool-cases (is_positive k.owner_id)) [
  | inl e ↦ rw e (after_ensure-kept now id k t (ensure (current_job k t.jobs)) h)
  | inr e ↦ rw e h
]

pub ensure_kept :
    (now : ℕ) (id : Text) (ensure : Text → Option Text) (sources : List SavedSource) (t : JobTables)
    → AreConsistent t.items
    → AreConsistent (items_or t.items (ensure_nzb_job now id ensure sources t))
unfolding ensure_nzb_job
ensure_kept now id ensure sources t h =
    ensure_with-kept now id ensure t (job_key id sources t.items) h

-- either state that a request gives
asked_Flags : (b : Bool) → Flags (if b then archived else waiting_for_visibility) true none
asked_Flags true = tt
asked_Flags false = refl

ask_kept :
    (now : ℕ) (before : Text → Text → Bool) (tenant key : Text) (tvdb : ℤ) (seasons : List ℤ)
    (sources : List SavedSource) (t : SeerrTables)
    → AreConsistent t.items
    → AreConsistent ((ask_series now before tenant key tvdb seasons sources t).0).items
unfolding ask_series
ask_kept now before tenant key tvdb seasons sources t h =
    let test = is_candidate tenant tvdb seasons sources in
    let first = is_first before t.items test in
    set_items-kept now test (ask_rearm now first t.items) t.items
      (λ m c e. asked_Flags (first m && not (any (is_under_way m) t.items))) h

unless_kept :
    (t : SeerrTables) (new : SeerrTables × ℕ) (o : Option Bool)
    → AreConsistent t.items
    → AreConsistent (new.0).items
    → AreConsistent (series_or t.items (unless_done o (t, 0) new))
unless_kept t new none h j = h
unless_kept t new (some true) h j = h
unless_kept t new (some false) h j = j

pub request_kept :
    (now : ℕ) (before : Text → Text → Bool) (tenant key : Text) (tvdb : ℤ) (seasons : List ℤ)
    (sources : List SavedSource) (t : SeerrTables)
    → AreConsistent t.items
    → AreConsistent
        (series_or t.items (request_seerr_tv now before tenant key tvdb seasons sources t))
unfolding request_seerr_tv
request_kept now before tenant key tvdb seasons sources t h =
    elim (Bool-cases (not (is_positive tvdb) || length seasons == 0)) [
      | inl e ↦ rw e h
      | inr e ↦ rw e (
          unless_kept t (ask_series now before tenant key tvdb seasons sources t)
            (is_done (find (is_request tenant key) t.requests)) h
            (ask_kept now before tenant key tvdb seasons sources t h))
    ]
