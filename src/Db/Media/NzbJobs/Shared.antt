-- ===== src/Db/Media/NzbJobs/Shared.antt =====
-- The rows of one NZB share its job.
use rehydrator.Base.{
  is_positive, ℕ, ◌≡◌, refl, sym, ap, ◌∙◌, inl, inr, Bool, true, Option, none, some, List, [], ◌∷◌,
  Bool-cases, int_eq_refl, Text, text_eq, text_eq_refl,
}
use rehydrator.Base.Strings.{trim_space}
use rehydrator.Db.Rows.{update, find}
use rehydrator.Db.Media.{Item, SavedSource, set_items, named}
use rehydrator.Db.Media.NzbJobs.{
  JobKey, UsenetJob, JobTables, nzb_key_of, is_nzb_source, job_key, same_job, current_job, put_job,
  is_import, await_job, store_job, after_ensure_job, ensure_with, ensure_nzb_job,
}

-- an UPDATE that changes nothing that is asked of the row which is found
found_after {ℓ κ} :
    {R : Type ℓ} {B : Type κ} (p test : R → Bool) (change : R → R) (g : Option R → B) (rs : List R)
    → ((r : R) → p (change r) ≡ p r)
    → ((r : R) → g (some (change r)) ≡ g (some r))
    → g (find p (update test change rs)) ≡ g (find p rs)
unfolding find update
found_after p test change g [] same asked = refl
found_after p test change g (r ∷ rs) same asked = elim (Bool-cases (test r)) [
  | inl t ↦
      rw (t, same r)
        (elim (Bool-cases (p r)) [
          | inl e ↦ rw e (asked r)
          | inr e ↦ rw e (found_after p test change g rs same asked)
        ])
  | inr t ↦ rw t (elim (Bool-cases (p r)) [
    | inl e ↦ rw e refl
    | inr e ↦ rw e (found_after p test change g rs same asked)
  ])
]

-- nzb_key_of looks at the tenant and the owner of a row
same_owner :
    (m n : Item) (o : Option SavedSource)
    → n.tenant ≡ m.tenant
    → n.media_type ≡ m.media_type
    → n.arr_id ≡ m.arr_id
    → n.series_id ≡ m.series_id
    → nzb_key_of (some n) o ≡ nzb_key_of (some m) o
same_owner m n none tenant media arr series_id = refl
same_owner m n (some s) tenant media arr series_id = rw (tenant, media, arr, series_id) refl

job_key-store :
    (now : ℕ) (id other : Text) (k : JobKey) (job : Text) (sources : List SavedSource)
    (t : JobTables)
    → job_key other sources (store_job now id k job t).items ≡ job_key other sources t.items
unfolding job_key store_job set_items
job_key-store now id other k job sources t =
    let o = find (is_nzb_source other) sources in
    let noted : Item → Item = λ m. record m { download_job_id = job; updated_at = now } in
    let waits : Item → Item = λ m. record (await_job now m) { updated_at = now } in
    found_after (named other) (named id) waits (λ m. nzb_key_of m o)
      (update (is_import k) noted t.items) (λ m. refl)
      (λ m. same_owner m (waits m) o refl refl refl refl)
    ∙ found_after (named other) (is_import k) noted (λ m. nzb_key_of m o) t.items (λ m. refl)
        (λ m. same_owner m (noted m) o refl refl refl refl)

current_job-put :
    (k : JobKey) (job : Text) (js : List UsenetJob) → current_job k (put_job k job js) ≡ job
unfolding current_job put_job
current_job-put k job [] =
    rw (text_eq_refl k.tenant, text_eq_refl k.arr, int_eq_refl k.owner_id, text_eq_refl k.original)
      refl
current_job-put k job (j ∷ js) = elim (Bool-cases (same_job k j)) [
  | inl e ↦ rw (e, e) refl
  | inr e ↦ rw (e, e) (current_job-put k job js)
]

jobs_of :
    (now : ℕ) (id : Text) (k : JobKey) (job : Text) (t : JobTables)
    → current_job k (store_job now id k job t).jobs ≡ job
unfolding store_job
jobs_of now id k job t = current_job-put k job t.jobs

tables_or : JobTables → Option (JobTables × Text) → JobTables
tables_or t none = t
tables_or t (some (after, job)) = after

job_or : Text → Option (JobTables × Text) → Text
job_or id none = id
job_or id (some (after, job)) = job

-- a call that succeeds stores the job it returns
stored_job :
    (now : ℕ) (id : Text) (k : JobKey) (t after : JobTables) (job : Text) (answer : Option Text)
    → after_ensure_job now id k t answer ≡ some (after, job)
    → after ≡ store_job now id k job t
unfolding tables_or job_or
stored_job now id k t after job none = λ h. absurd (cc h)
stored_job now id k t after job (some given) = elim (Bool-cases (text_eq (trim_space given) [])) [
  | inl b ↦ rw b (λ h. absurd (cc h))
  | inr b ↦
      rw b (λ h. sym (ap (tables_or t) h) ∙ ap (λ x. store_job now id k x t) (ap (job_or given) h))
]

stored_with :
    (now : ℕ) (id : Text) (ensure : Text → Option Text) (t after : JobTables) (job : Text)
    (o : Option JobKey)
    → ensure_with now id ensure t o ≡ some (after, job)
    → (k : JobKey) × (o ≡ some k)
      × (is_positive k.owner_id ≡ true)
      × (after ≡ store_job now id k job t)
stored_with now id ensure t after job none = λ h. absurd (cc h)
stored_with now id ensure t after job (some k) = elim (Bool-cases (is_positive k.owner_id)) [
  | inl e ↦
      rw e (λ h. (k, refl, e, stored_job now id k t after job (ensure (current_job k t.jobs)) h))
  | inr e ↦ rw e (λ h. absurd (cc h))
]

-- When EnsureNZBJob returned a job for a row, a next call for a row of the same NZB and the same
-- owner offers that job to the submission, and its answer decides how the call ends.
pub shared_job :
    (now later : ℕ) (id other : Text) (ensure again : Text → Option Text)
    (sources : List SavedSource) (t after : JobTables) (job : Text)
    → job_key other sources t.items ≡ job_key id sources t.items
    → ensure_nzb_job now id ensure sources t ≡ some (after, job)
    → (k : JobKey) × (ensure_nzb_job later other again sources after
        ≡ after_ensure_job later other k after (again job))
unfolding ensure_nzb_job
shared_job now later id other ensure again sources t after job same h =
    let (k, found, owned, stored) =
      stored_with now id ensure t after job (job_key id sources t.items) h in
    let key : job_key other sources after.items ≡ some k =
      ap (λ x. job_key other sources x.items) stored
      ∙ job_key-store now id other k job sources t
      ∙ same
      ∙ found in
    let current : current_job k after.jobs ≡ job =
      ap (λ x. current_job k x.jobs) stored ∙ jobs_of now id k job t in
    (k, rw (key, owned, current) refl)
