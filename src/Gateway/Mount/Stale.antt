-- ===== src/Gateway/Mount/Stale.antt =====
-- A verification of a catalog that was replaced changes no row.
use rehydrator.Base.{
  ◌≡◌, refl, ap, inl, inr, Bool, true, false, not, ◌&&◌, ◌||◌, none, some, List, [], ◌∷◌, arith,
  ◌==◌, if◌then◌else◌, Bool-cases, All, Text, text_eq, All-map,
}
use rehydrator.Db.Rows.{update, find}
use rehydrator.Db.Jobs.{Job, Row, mounting, completed, state_eq, has_id}
use rehydrator.Db.Jobs.Mounts.{may_finish, finished_mount, finish_mount, may_pin, pin_result}
use rehydrator.Gateway.Release.{is_valid_release_folder}
use rehydrator.Gateway.Staging.{Paths, Outcome, create_links}
use rehydrator.Gateway.Mount.{
  World, Done, pick, probe_path, report, check_candidate, after_links, verify_pinned, verify_mount,
}

module _ {ℓ} {R : Type ℓ} where
  update_none :
      (test : R → Bool) (change : R → R) (rs : List R)
      → All (λ r. test r ≡ false) rs
      → update test change rs ≡ rs
  unfolding update
  update_none test change [] h = refl
  update_none test change (r ∷ rs) h = rw h.0 (ap (λ ss. r ∷ ss) (update_none test change rs h.1))

  find-none : (test : R → Bool) (rs : List R) → All (λ r. test r ≡ false) rs → find test rs ≡ none
  unfolding find
  find-none test [] h = refl
  find-none test (r ∷ rs) h = rw h.0 (find-none test rs h.1)

-- Each row with the job's ID has another catalog revision.
abbrev pub IsStale : Job → List Row → Type 0
IsStale j = All (λ r. has_id j.id r ≡ true → (r.catalog_revision == j.catalog_revision) ≡ false)

may_finish_stale :
    (j : Job) (r : Row)
    → (has_id j.id r ≡ true → (r.catalog_revision == j.catalog_revision) ≡ false)
    → may_finish j r ≡ false
unfolding may_finish
may_finish_stale j r h = elim (Bool-cases (has_id j.id r)) [
  | inl e ↦ rw (e, h e) (and_false (state_eq r.state mounting))
  | inr e ↦ rw e refl
]
  where
    and_false : (b : Bool) → (true && b && false && not r.cleanup_requested) ≡ false
    and_false b = ground arith

may_pin_stale :
    (j : Job) (r : Row)
    → (has_id j.id r ≡ true → (r.catalog_revision == j.catalog_revision) ≡ false)
    → may_pin j r ≡ false
unfolding may_pin
may_pin_stale j r h = elim (Bool-cases (has_id j.id r)) [
  | inl e ↦
      rw (e, h e)
        (and_false (text_eq r.release_folder [])
          (state_eq r.state mounting || state_eq r.state completed))
  | inr e ↦ rw e refl
]
  where
    and_false : (b d : Bool) → (true && b && false && d && not r.cleanup_requested) ≡ false
    and_false b d = ground arith

report_stale :
    (j : Job) (detail : Text) (w : World) → IsStale j w.rows → (report j detail w).1.rows ≡ w.rows
unfolding report finish_mount
report_stale j detail w s =
    update_none (may_finish j) (finished_mount detail) w.rows
      (All-map _ (λ r. may_finish j r ≡ false) w.rows (may_finish_stale j) s)

-- both branches leave the rows
if_rows :
    (b : Bool) (x y : Done) (rows : List Row)
    → x.1.rows ≡ rows
    → y.1.rows ≡ rows
    → (if b then x else y).1.rows ≡ rows
if_rows true x y rows h k = h
if_rows false x y rows h k = k

check_candidate_stale :
    (c : Paths) (readable : Text → Bool) (j : Job) (w : World)
    → IsStale j w.rows
    → (check_candidate c readable j w).1.rows ≡ w.rows
unfolding check_candidate
check_candidate_stale c readable j w s =
    if_rows (text_eq (pick [] j.files) []) _ _ w.rows (report_stale j _ w s) (
      if_rows (not (readable (probe_path c j (pick [] j.files)))) _ _ w.rows (report_stale j _ w s)
        (report_stale j [] w s))

after_links_stale :
    (c : Paths) (readable : Text → Bool) (j : Job) (rows : List Row) (o : Outcome)
    → IsStale j rows
    → (after_links c readable j rows o).1.rows ≡ rows
after_links_stale c readable j rows (none, t) s =
    check_candidate_stale c readable j (record { rows = rows; fs = t }) s
after_links_stale c readable j rows (some e, t) s =
    report_stale j e (record { rows = rows; fs = t }) s

verify_pinned_stale :
    (c : Paths) (readable : Text → Bool) (j : Job) (w : World)
    → IsStale j w.rows
    → (verify_pinned c readable j w).1.rows ≡ w.rows
unfolding verify_pinned
verify_pinned_stale c readable j w s =
    if_rows (not (is_valid_release_folder j.release_folder)) _ _ w.rows refl (
      if_rows j.hidden _ _ w.rows (check_candidate_stale c readable j w s)
        (after_links_stale c readable j w.rows (create_links c j w.fs) s))

-- A controller that verifies a job whose row meanwhile has another catalog revision changes no row:
-- it neither pins a folder, nor completes the job, nor records an error.
pub verify_mount_stale :
    (c : Paths) (readable : Text → Bool) (j : Job) (w : World)
    → IsStale j w.rows
    → (verify_mount c readable j w).1.rows ≡ w.rows
unfolding verify_mount pin_result
verify_mount_stale c readable j w s =
    if_rows (text_eq j.release_folder []) _ _ w.rows
      (rw
        (find-none (may_pin j) w.rows
          (All-map _ (λ r. may_pin j r ≡ false) w.rows (may_pin_stale j) s))
        refl)
      (verify_pinned_stale c readable j w s)
