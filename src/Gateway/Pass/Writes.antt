-- ===== src/Gateway/Pass/Writes.antt =====
-- Mount verification and the end of a poll only write the table, by statements of Gateway/Budget.
use rehydrator.Base.{
  ℕ, ◌≡◌, refl, Bool, true, false, not, Option, none, some, List, [], if◌then◌else◌, Text, text_eq,
}
use rehydrator.Db.Jobs.Statements.{update_job, find_job}
use rehydrator.Db.Jobs.{Job, Row}
use rehydrator.Db.Jobs.Mounts.{pin_result}
use rehydrator.Gateway.Release.{release_folder, is_valid_release_folder}
use rehydrator.Gateway.Reconcile.{
  Role, combined, gateway_role, controller_role, Config, Polled, unreachable, answered, Decision,
  store, recover, refuse, publish, decide,
}
use rehydrator.Gateway.Staging.{Paths, Outcome, create_links}
use rehydrator.Gateway.Mount.{
  World, Done, pick, probe_path, report, check_candidate, after_links, verify_pinned, after_pin,
  verify_mount,
}
use rehydrator.Gateway.Budget.{
  System, with_jobs, Write, updates, records_status, records_failure, finishes, pins, write, Reach,
  next,
}
use rehydrator.Gateway.Pass.{
  Site, with_rows, verify_reloaded, after_publication, carry_out, finish_poll,
}

-- some writes at one time, one after the other
pub data Writes (now : ℕ) (rows : List Row) : List Row → Type 0 where
  done : Writes now rows rows
  also :
      {origin after : List Row}
      → Writes now rows origin
      → Write now origin after
      → Writes now rows after

report-Writes :
    (now : ℕ) (rows : List Row) (j : Job) (detail : Text) (w : World)
    → Writes now rows w.rows
    → Writes now rows (report j detail w).1.rows
unfolding report
report-Writes now rows j detail w r = also r (finishes j detail)

if_Writes :
    (now : ℕ) (rows : List Row) (b : Bool) (x y : Done)
    → Writes now rows x.1.rows
    → Writes now rows y.1.rows
    → Writes now rows (if b then x else y).1.rows
if_Writes now rows true x y h k = h
if_Writes now rows false x y h k = k

module _ (now : ℕ) (rows : List Row) (c : Paths) (readable : Text → Bool) where
  check_candidate-Writes :
      (j : Job) (w : World)
      → Writes now rows w.rows
      → Writes now rows (check_candidate c readable j w).1.rows
  unfolding check_candidate
  check_candidate-Writes j w r =
      if_Writes now rows (text_eq (pick [] j.files) []) _ _ (report-Writes now rows j _ w r) (
        if_Writes now rows (not (readable (probe_path c j (pick [] j.files)))) _ _
          (report-Writes now rows j _ w r) (report-Writes now rows j [] w r))

  after_links-Writes :
      (j : Job) (rs : List Row) (o : Outcome)
      → Writes now rows rs
      → Writes now rows (after_links c readable j rs o).1.rows
  after_links-Writes j rs (none, s) r = check_candidate-Writes j (record { rows = rs; fs = s }) r
  after_links-Writes j rs (some e, s) r =
      report-Writes now rows j e (record { rows = rs; fs = s }) r

  verify_pinned-Writes :
      (j : Job) (w : World)
      → Writes now rows w.rows
      → Writes now rows (verify_pinned c readable j w).1.rows
  unfolding verify_pinned
  verify_pinned-Writes j w r =
      if_Writes now rows (not (is_valid_release_folder j.release_folder)) _ _ r (
        if_Writes now rows j.hidden _ _ (check_candidate-Writes j w r)
          (after_links-Writes j w.rows (create_links c j w.fs) r))

  after_pin-Writes :
      (o : Option Job) (origin w : World)
      → Writes now rows origin.rows
      → Writes now rows w.rows
      → Writes now rows (after_pin c readable o origin w).1.rows
  after_pin-Writes none origin w b r = b
  after_pin-Writes (some j) origin w b r = verify_pinned-Writes j w r

  verify_mount-Writes :
      (j : Job) (w : World)
      → Writes now rows w.rows
      → Writes now rows (verify_mount c readable j w).1.rows
  unfolding verify_mount
  verify_mount-Writes j w r =
      if_Writes now rows (text_eq j.release_folder []) _ _
        (after_pin-Writes (pin_result j (release_folder j) w.rows) w _ r
          (also r (pins j (release_folder j))))
        (verify_pinned-Writes j w r)

  verify_reloaded-Writes :
      (s : Site) (o : Option Row)
      → Writes now rows s.tables.jobs
      → Writes now rows (verify_reloaded c readable s o).1.tables.jobs
  verify_reloaded-Writes s none r = r
  verify_reloaded-Writes s (some x) r =
      verify_mount-Writes x.job (record { rows = s.tables.jobs; fs = s.fs }) r

  after_publication-Writes :
      (role : Role) (id : Text) (s : Site)
      → Writes now rows s.tables.jobs
      → Writes now rows (after_publication role c readable id s).1.tables.jobs
  after_publication-Writes gateway_role id s r = r
  after_publication-Writes combined id s r = verify_reloaded-Writes s (find_job id s.tables.jobs) r
  after_publication-Writes controller_role id s r =
      verify_reloaded-Writes s (find_job id s.tables.jobs) r

  pub carry_out-Writes :
      (g : Config) (d : Decision) (s : Site)
      → Writes now rows s.tables.jobs
      → Writes now rows (carry_out g c readable now d s).1.tables.jobs
  unfolding carry_out
  carry_out-Writes g (store j delay) s r = also r (updates j delay)
  carry_out-Writes g (recover j) s r = also r (updates j 300)
  carry_out-Writes g refuse s r = r
  carry_out-Writes g (publish j) s r =
      after_publication-Writes g.role j.id (with_rows s (update_job now j 60 s.tables.jobs))
        (also r (updates j 60))

  pub finish_poll-Writes :
      (g : Config) (j : Job) (p : Polled) (s : Site)
      → Writes now rows s.tables.jobs
      → Writes now rows (finish_poll g c readable now j p s).1.tables.jobs
  unfolding finish_poll
  finish_poll-Writes g j (unreachable e) s r = also (also r (records_failure j)) (updates _ 300)
  finish_poll-Writes g j (answered d found) s r =
      carry_out-Writes g (decide g j d found) _ (also r (records_status j _))

  verify_reloaded_gate :
      (s : Site) (o : Option Row) → (verify_reloaded c readable s o).1.tables.gate ≡ s.tables.gate
  verify_reloaded_gate s none = refl
  verify_reloaded_gate s (some x) = refl

  after_publication_gate :
      (role : Role) (id : Text) (s : Site)
      → (after_publication role c readable id s).1.tables.gate ≡ s.tables.gate
  after_publication_gate gateway_role id s = refl
  after_publication_gate combined id s = verify_reloaded_gate s (find_job id s.tables.jobs)
  after_publication_gate controller_role id s = verify_reloaded_gate s (find_job id s.tables.jobs)

  carry_out_gate :
      (g : Config) (d : Decision) (s : Site)
      → (carry_out g c readable now d s).1.tables.gate ≡ s.tables.gate
  unfolding carry_out
  carry_out_gate g (store j delay) s = refl
  carry_out_gate g (recover j) s = refl
  carry_out_gate g refuse s = refl
  carry_out_gate g (publish j) s = after_publication_gate g.role j.id _

  pub finish_poll_gate :
      (g : Config) (j : Job) (p : Polled) (s : Site)
      → (finish_poll g c readable now j p s).1.tables.gate ≡ s.tables.gate
  unfolding finish_poll
  finish_poll_gate g j (unreachable e) s = refl
  finish_poll_gate g j (answered d found) s = carry_out_gate g (decide g j d found) _

-- the writes are steps
pub Writes-Reach :
    (now : ℕ) {a b : System} {rows : List Row}
    → Writes now b.tables.jobs rows
    → Reach a b
    → Reach a (with_jobs b rows)
Writes-Reach now done r = r
Writes-Reach now (also w x) r = next (Writes-Reach now w r) (write now x)
