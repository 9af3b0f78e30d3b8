-- ===== src/Gateway/Reconcile/Decide.antt =====
-- When a poll queues a job again, what it may do to a job, and how often absence is confirmed.
use rehydrator.Base.{
  is_some, ◌≤◌, ◌<◌, ◌≡◌, refl, ◌↔◌, Bool, true, false, Option, none, some, arith, if◌then◌else◌,
  Text,
}
use rehydrator.Torbox.Types.{UsenetDownload}
use rehydrator.Torbox.Failure.{failure_message}
use rehydrator.Db.Jobs.{Job, queued, state_eq}
use rehydrator.Gateway.Reconcile.{
  Config, Decision, store, recover, refuse, publish, decide, decide_missing, decide_found, fail_or,
  is_absent,
}

-- the row that the update of a decision writes is QUEUED
abbrev pub requeues : Decision → Bool
requeues (store j n) = state_eq j.state queued
requeues (recover j) = state_eq j.state queued
requeues refuse = false
requeues (publish j) = state_eq j.state queued

-- What a recovery needs.
abbrev pub MayRecover : Config → Job → UsenetDownload → Bool → Type 0
MayRecover c j d found =
    ((if found then is_some (failure_message d) else false) ≡ false)
    × (is_absent d found ≡ true)
    × (2 ≤ j.missing_checks)
    × (c.recover_missing ≡ true)
    × (j.attempts < 3)

decide_found-requeues :
    (c : Config) (j : Job) (d : UsenetDownload) → requeues (decide_found c j d) ≡ false
unfolding decide_found
decide_found-requeues c j d = ground arith

decide_missing-requeues :
    (c : Config) (j : Job)
    → (requeues (decide_missing c j) ≡ true)
      ↔ ((2 ≤ j.missing_checks) × (c.recover_missing ≡ true) × (j.attempts < 3))
unfolding decide_missing
decide_missing-requeues c j = (λ h. ground arith, λ h. ground arith)

choose :
    (c : Config) (j : Job) (d : UsenetDownload) (found : Bool) (o : Option Text) (b : Bool)
    → (requeues (fail_or o j (if b then decide_missing c j else decide_found c j d)) ≡ true) ↔ (
        (is_some o ≡ false)
        × (b ≡ true)
        × (2 ≤ j.missing_checks)
        × (c.recover_missing ≡ true)
        × (j.attempts < 3))
choose c j d found (some m) b = (λ h. cc, λ h. cc)
choose c j d found none true =
    let both = decide_missing-requeues c j in
    (λ h. let (a, e, l) = both.0 h in (refl, refl, a, e, l), λ h. both.1 (h.2, h.3, h.4))
choose c j d found none false = (λ h. cc (decide_found-requeues c j d), λ h. cc)

pub decide-requeues :
    (c : Config) (j : Job) (d : UsenetDownload) (found : Bool)
    → (requeues (decide c j d found) ≡ true) ↔ MayRecover c j d found
unfolding decide
decide-requeues c j d true = choose c j d true (failure_message d) (is_absent d true)
decide-requeues c j d false = choose c j d false none (is_absent d false)
