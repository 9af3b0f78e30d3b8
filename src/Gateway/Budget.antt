-- ===== src/Gateway/Budget.antt =====
-- The workers of any number of gateway replicas on one table of jobs. A step is one transaction or
-- one request to the provider, so every interleaving of the replicas is a sequence of steps; a
-- replica may stop between any two. `uploads` lists the job of every add request that reached the
-- provider, and `pending` those claimed submissions whose request has not been made.
pub mod Bounded
use rehydrator.Base.{
  ℕ, zero, suc, Text, text_eq, ◌+◌, Bool, true, false, List, [], ◌∷◌, Option, if◌then◌else◌, ◌≡◌,
  All,
}
use rehydrator.Model.Types.{Protocol, TorrentMetadata}
use rehydrator.Db.Jobs.{Job, Row, Tables, ProviderStatus, queued, state_eq}
use rehydrator.Db.Jobs.Claim.{claimed, idle, claim_job}
use rehydrator.Db.Jobs.Statements.{
  update_job, hide_job, set_category, wake_job, defer_submission, put_off, resolve_unknown,
  record_lookup, record_status, record_check_failure,
}
use rehydrator.Db.Jobs.Mounts.{
  lease_mount, finish_mount, request_cleanup, finish_cleanup, pin_release_folder, request_recovery,
  insert_source, conflicts,
}

pub record System : Type 0 where
  pub tables : Tables
  pub uploads : List Text
  pub pending : List Text

abbrev pub count : Text → List Text → ℕ
count id [] = 0
count id (k ∷ ks) = let rest = count id ks in if text_eq id k then suc rest else rest

-- `Pick id ks rest`: `ks` is `rest` with one `id` more, at some place.
pub data Pick (id : Text) : List Text → List Text → Type 0 where
  first : {ks : List Text} → Pick id (id ∷ ks) ks
  later : {k : Text} {ks rest : List Text} → Pick id ks rest → Pick id (k ∷ ks) (k ∷ rest)

abbrev pub with_jobs : System → List Row → System
with_jobs s rows = record s { tables = record (s.tables) { jobs = rows } }

-- Statements that anyone may run at any time, on any job value, also one read long before.
pub data Write (now : ℕ) : List Row → List Row → Type 0 where
  updates : {rows : List Row} (j : Job) (delay : ℕ) → Write now rows (update_job now j delay rows)
  hides : {rows : List Row} (id : Text) → Write now rows (hide_job id rows)
  recategorises :
      {rows : List Row} (hash category : Text) → Write now rows (set_category hash category rows)
  wakes : {rows : List Row} (id : Text) → Write now rows (wake_job now id rows)
  puts_off : {rows : List Row} (id : Text) → Write now rows (put_off now id rows)
  resolves : {rows : List Row} (j : Job) (id : ℕ) → Write now rows (resolve_unknown now j id rows)
  records_lookup :
      {rows : List Row} (id detail : Text) → Write now rows (record_lookup id detail rows)
  records_status :
      {rows : List Row} (j : Job) (p : ProviderStatus) → Write now rows (record_status j p rows)
  records_failure : {rows : List Row} (j : Job) → Write now rows (record_check_failure now j rows)
  leases : {rows : List Row} (id : Text) → Write now rows (lease_mount now id rows)
  finishes :
      {rows : List Row} (j : Job) (detail : Text) → Write now rows (finish_mount j detail rows)
  cleans : {rows : List Row} (id : Text) → Write now rows (request_cleanup now id rows)
  cleaned : {rows : List Row} (j : Job) → Write now rows (finish_cleanup j rows)
  pins :
      {rows : List Row} (j : Job) (folder : Text)
      → Write now rows (pin_release_folder j folder rows)
  asks_recovery : {rows : List Row} (j : Job) → Write now rows (request_recovery now j rows)

-- A generated ID is new: no row and no submission has it.
pub record IsNew (id : Text) (s : System) : Type 0 where
  pub no_row : All (λ r. text_eq r.id id ≡ false) s.tables.jobs
  pub not_uploaded : count id s.uploads ≡ 0
  pub not_pending : count id s.pending ≡ 0

pub data Step : System → System → Type 0 where
  write :
      {s : System} {rows : List Row} (now : ℕ)
      → Write now s.tables.jobs rows
      → Step s (with_jobs s rows)
  add :
      {s : System} (now : ℕ) (id category digest filename : Text) (protocol : Protocol)
      (source : TorrentMetadata)
      → IsNew id s
      → Step s (
          with_jobs s (insert_source now id category digest filename protocol source s.tables.jobs))
  claim :
      {s : System} {t : Tables} {j : Job} (now interval : ℕ) (protocol : Option Protocol)
      (locked : Row → Bool)
      → claim_job now interval protocol locked s.tables ≡ claimed j t
      → Step s (record s {
        tables = t;
        pending = if state_eq j.state queued then j.id ∷ s.pending else s.pending;
      })
  find_nothing :
      {s : System} {t : Tables} (now interval : ℕ) (protocol : Option Protocol)
      (locked : Row → Bool)
      → claim_job now interval protocol locked s.tables ≡ idle t
      → Step s (record s { tables = t })
  upload :
      {s : System} {rest : List Text} (id : Text)
      → Pick id s.pending rest
      → Step s (record s { uploads = id ∷ s.uploads; pending = rest })
  abandon :
      {s : System} {rest : List Text} (id : Text)
      → Pick id s.pending rest
      → Step s (record s { pending = rest })
  defer :
      {s : System} {rest : List Text} (now : ℕ) (id reason : Text)
      → Pick id s.pending rest
      → Step s (record s {
        tables = record (s.tables) { jobs = defer_submission now id reason s.tables.jobs };
        pending = rest;
      })

pub data Reach (s : System) : System → Type 0 where
  here : Reach s s
  next : {t u : System} → Reach s t → Step t u → Reach s u
