-- ===== src/Gateway/Pass.antt =====
-- A whole call of `Reconcile` of internal/gateway/service.go on the tables and the file system. The
-- provider's answers are arguments; the clock stands still during a call. The update of the media
-- table that goes with a recovery (`GatewayRecoveryWaiting`) is not part of the tables here.
use rehydrator.Base.{
  ℕ, is_some, zero, suc, ◌+◌, ◌-◌, ◌*◌, ◌%◌, ◌≤◌, ◌<◌, min, ◌≡◌, refl, sym, ap, ◌∙◌, subst, ◌≢◌,
  ◌↔◌, ◌⊎◌, inl, inr, Bool, true, false, not, ◌&&◌, ◌||◌, Option, none, some, List, [], ◌∷◌, ◌++◌,
  map, append-nil, append_assoc, arith, ltb, leb, ◌==◌, if◌then◌else◌, ==_iff, ==_refl, leb→le,
  le→leb, lt→ltb, Bool-cases, Option-cases, &&-eq-true, ||-eq-false, length, take, drop, all, any,
  length-append, length-drop, take-append, String, drop-append, All, All-append, ℤ, pos, negsuc,
  is_negative, int_eq, eq_of_int_eq, Text, codes, text_eq, eq_of_text_eq, text_eq_refl, text_eq_iff,
  text_eq_swap,
}
use rehydrator.Db.Jobs.{Job, Row, Tables, queued, state_eq}
use rehydrator.Db.Jobs.Claim.{Claim, claimed, idle, fault, claim_job}
use rehydrator.Db.Jobs.Statements.{
  update_job, record_status, record_check_failure, claim_unknown, put_off, resolve_unknown,
  record_lookup, find_job,
}
use rehydrator.Gateway.Reconcile.{
  Role, combined, gateway_role, controller_role, Config, Submission, accepted, not_started, unknown,
  Polled, unreachable, answered, Decision, store, recover, refuse, publish, decide, status,
  finish_submission,
}
use rehydrator.Gateway.Staging.{Fs, Paths}
use rehydrator.Gateway.Mount.{Done, verify_mount}
pub mod Writes
pub mod Refines

-- What FindActive answers: an error, or an ID that may be 0.
pub data Lookup : Type 0 where
  inconclusive : Text → Lookup
  observed : ℕ → Lookup

-- The provider, and the readability of the mount. Not every torrent client has a lookup.
pub record Outside : Type 0 where
  pub lookup : Option (Job → Lookup)
  pub submit : Job → Submission
  pub poll : Job → Polled
  pub readable : Text → Bool

pub record Site : Type 0 where
  pub tables : Tables
  pub fs : Fs

-- the error of a pass, if any, and what it leaves
abbrev pub Passed : Type 0
Passed = Option Text × Site

abbrev pub with_rows : Site → List Row → Site
with_rows s rows = record s { tables = record (s.tables) { jobs = rows } }

-- the job of unknown outcome that was claimed
unfoldable pub note_lookup : ℕ → Job → Lookup → List Row → List Row
note_lookup now j (inconclusive e) rows =
    record_lookup j.id (codes "unknown submission lookup inconclusive: " ++ e) rows
note_lookup now j (observed id) rows = if ltb 0 id then resolve_unknown now j id rows else rows

abbrev pub with_mount : Site → Done → Passed
with_mount s (e, w) = (e, record { tables = record (s.tables) { jobs = w.rows }; fs = w.fs })

-- the published job as it is read again
abbrev pub verify_reloaded : Paths → (Text → Bool) → Site → Option Row → Passed
verify_reloaded c readable s none = (some (codes "no rows in result set"), s)
verify_reloaded c readable s (some r) =
    with_mount s (verify_mount c readable r.job (record { rows = s.tables.jobs; fs = s.fs }))

abbrev pub after_publication : Role → Paths → (Text → Bool) → Text → Site → Passed
after_publication gateway_role c readable id s = (none, s)
after_publication combined c readable id s =
    verify_reloaded c readable s (find_job id s.tables.jobs)
after_publication controller_role c readable id s =
    verify_reloaded c readable s (find_job id s.tables.jobs)

unfoldable pub carry_out : Config → Paths → (Text → Bool) → ℕ → Decision → Site → Passed
carry_out c paths readable now (store j delay) s =
    (none, with_rows s (update_job now j delay s.tables.jobs))
carry_out c paths readable now (recover j) s =
    (none, with_rows s (update_job now j 300 s.tables.jobs))
carry_out c paths readable now refuse s = (some (codes "invalid cloud file catalog"), s)
carry_out c paths readable now (publish j) s =
    after_publication c.role paths readable j.id (with_rows s (update_job now j 60 s.tables.jobs))

unfoldable pub finish_poll : Config → Paths → (Text → Bool) → ℕ → Job → Polled → Site → Passed
finish_poll c paths readable now j (unreachable e) s = (
  none,
  with_rows s (
      update_job now (record j { last_error = e; missing_checks = 0 }) 300
        (record_check_failure now j s.tables.jobs)),
)
finish_poll c paths readable now j (answered d found) s =
    carry_out c paths readable now (decide c j d found)
      (with_rows s (record_status j (status now j.provider_id d found) s.tables.jobs))

abbrev pub after_claim : Config → Paths → Outside → ℕ → Site → Claim → Passed
after_claim c paths o now s (fault e) = (some e, s)
after_claim c paths o now s (idle t) = (none, record s { tables = t })
after_claim c paths o now s (claimed j t) =
    if state_eq j.state queued
    then (
      none,
      record s { tables = record t { jobs = finish_submission c now j (o.submit j) t.jobs } },
    )
    else finish_poll c paths o.readable now j (o.poll j) (record s { tables = t })

-- the part behind the lookup
unfoldable pub work : Config → Paths → Outside → ℕ → (Row → Bool) → Site → Passed
work c paths o now locked s =
    after_claim c paths o now s (claim_job now c.submit_interval none locked s.tables)

-- with the row of unknown outcome that was claimed, if any
abbrev pub after_unknown :
    Config → Paths → Outside → ℕ → (Row → Bool) → Site → (Job → Lookup) → Option Row → Passed
after_unknown c paths o now locked s find none = work c paths o now locked s
after_unknown c paths o now locked s find (some r) =
    (none, with_rows s (note_lookup now r.job (find r.job) (put_off now r.id s.tables.jobs)))

abbrev pub look_up :
    Config → Paths → Outside → ℕ → (Row → Bool) → Site → Option (Job → Lookup) → Passed
look_up c paths o now locked s none = work c paths o now locked s
look_up c paths o now locked s (some find) =
    after_unknown c paths o now locked s find (claim_unknown now locked s.tables.jobs)

abbrev pub for_role : Config → Paths → Outside → ℕ → (Row → Bool) → Site → Role → Passed
for_role c paths o now locked s controller_role =
    (some (codes "provider reconciliation is disabled in controller role"), s)
for_role c paths o now locked s combined = look_up c paths o now locked s o.lookup
for_role c paths o now locked s gateway_role = look_up c paths o now locked s o.lookup

unfoldable pub reconcile : Config → Paths → Outside → ℕ → (Row → Bool) → Site → Passed
reconcile c paths o now locked s = for_role c paths o now locked s c.role

-- the add request of a submission, if it may have reached the provider
abbrev pub reached : Job → Submission → List Text
reached j (accepted id) = j.id ∷ []
reached j (not_started e) = []
reached j (unknown e) = j.id ∷ []

abbrev pub claim_requests : Outside → Claim → List Text
claim_requests o (fault e) = []
claim_requests o (idle t) = []
claim_requests o (claimed j t) = if state_eq j.state queued then reached j (o.submit j) else []

-- a pass that looks up a submission of unknown outcome ends with that
abbrev pub unknown_requests : Config → Outside → ℕ → (Row → Bool) → Site → Option Row → List Text
unknown_requests c o now locked s none =
    claim_requests o (claim_job now c.submit_interval none locked s.tables)
unknown_requests c o now locked s (some r) = []

abbrev pub lookup_requests :
    Config → Outside → ℕ → (Row → Bool) → Site → Option (Job → Lookup) → List Text
lookup_requests c o now locked s none =
    claim_requests o (claim_job now c.submit_interval none locked s.tables)
lookup_requests c o now locked s (some find) =
    unknown_requests c o now locked s (claim_unknown now locked s.tables.jobs)

abbrev pub role_requests : Config → Outside → ℕ → (Row → Bool) → Site → Role → List Text
role_requests c o now locked s controller_role = []
role_requests c o now locked s combined = lookup_requests c o now locked s o.lookup
role_requests c o now locked s gateway_role = lookup_requests c o now locked s o.lookup

-- the jobs whose add requests a call may have made: a submission of unknown outcome counts as one
unfoldable pub add_requests : Config → Outside → ℕ → (Row → Bool) → Site → List Text
add_requests c o now locked s = role_requests c o now locked s c.role
