-- ===== src/Gateway/Mount.antt =====
-- `verifyMount` and `ReconcileMount` of internal/gateway/service.go. The byte probe of the mount is
-- an argument: `readable` tells for a path whether a byte could be read in time.
pub mod Stale
mod Tests
use rehydrator.Base.{
  ℕ, is_some, zero, suc, ◌+◌, ◌-◌, ◌*◌, ◌%◌, ◌≤◌, ◌<◌, min, ◌≡◌, refl, sym, ap, ◌∙◌, subst, ◌≢◌,
  ◌↔◌, ◌⊎◌, inl, inr, Bool, true, false, not, ◌&&◌, ◌||◌, Option, none, some, List, [], ◌∷◌, ◌++◌,
  map, append-nil, append_assoc, arith, ltb, leb, ◌==◌, if◌then◌else◌, ==_iff, ==_refl, leb→le,
  le→leb, lt→ltb, Bool-cases, Option-cases, &&-eq-true, ||-eq-false, length, take, drop, all, any,
  length-append, length-drop, take-append, String, drop-append, All, All-append, ℤ, pos, negsuc,
  is_negative, int_eq, eq_of_int_eq, Text, codes, text_eq, eq_of_text_eq, text_eq_refl, text_eq_iff,
  text_eq_swap,
}
use rehydrator.Base.Strings.{to_lower, equal_fold}
use rehydrator.Model.Types.{is_torrent}
use rehydrator.Torbox.Types.{UsenetFile}
use rehydrator.Db.Jobs.{Job, Row}
use rehydrator.Db.Jobs.Mounts.{
  claim_mount, lease_mount, finish_mount, finish_cleanup, pin_release_folder, pin_result,
}
use rehydrator.Gateway.Release.{release_folder, is_valid_release_folder}
use rehydrator.Gateway.Reconcile.{Role, combined, gateway_role, controller_role}
use rehydrator.Gateway.Staging.{
  Fs, Paths, Outcome, storage, catalog_path, join_paths, create_links, remove_staged_links,
}

pub record World : Type 0 where
  pub rows : List Row
  pub fs : Fs

-- the last dot of the last element and what follows it
unfoldable pub ext : Text → Text
ext [] = []
ext (c ∷ s) =
    let rest = ext s in
    if not (text_eq rest [])
    then rest
    else if c == b'.' && not (any (λ d. d == b'/') s)
    then c ∷ s
    else []

abbrev pub is_zero : ℤ → Bool
is_zero z = int_eq z (pos 0)

-- the extensions of the switch
abbrev pub is_video : Text → Bool
is_video name =
    any (text_eq (to_lower (ext name)))
      (codes ".mkv" ∷ codes ".mp4" ∷ codes ".m4v" ∷ codes ".avi" ∷ codes ".ts" ∷ codes ".webm" ∷ [])

abbrev pub is_preferred : Text → Bool
is_preferred name = equal_fold (ext name) (codes ".mkv") || equal_fold (ext name) (codes ".mp4")

abbrev pub next_candidate : Text → Text → Text
next_candidate candidate name = if text_eq candidate [] || is_video name then name else candidate

-- the loop over the files, which ends early at a preferred candidate
unfoldable pub pick : Text → List UsenetFile → Text
unfolding ext to_lower equal_fold
pick candidate [] = candidate
pick candidate (f ∷ fs) =
    let skipped = pick candidate fs in
    let next = pick (next_candidate candidate f.name) fs in
    if is_zero f.size
    then skipped
    else if text_eq (next_candidate candidate f.name) f.name && is_preferred f.name
    then next_candidate candidate f.name
    else next

unfoldable pub probe_path : Paths → Job → Text → Text
unfolding storage catalog_path join_paths
probe_path c j candidate =
    if not (is_torrent j.protocol) && not j.hidden
    then join_paths (storage c j ∷ candidate ∷ [])
    else join_paths (c.mount_path ∷ catalog_path j ∷ candidate ∷ [])

-- the error of an operation, if any, and the world after it
abbrev pub Done : Type 0
Done = Option Text × World

-- FinishGatewayMount, after which the verification returns
unfoldable pub report : Job → Text → World → Done
report j detail w = (none, record w { rows = finish_mount j detail w.rows })

-- from the choice of the probed file on
unfoldable pub check_candidate : Paths → (Text → Bool) → Job → World → Done
check_candidate c readable j w =
    let candidate = pick [] j.files in
    if text_eq candidate []
    then report j (codes "waiting for a nonempty cloud payload file") w
    else if not (readable (probe_path c j candidate))
    then report j (codes "waiting for cloud WebDAV mount visibility/readability") w
    else report j [] w

abbrev pub after_links : Paths → (Text → Bool) → Job → List Row → Outcome → Done
after_links c readable j rows (none, s) =
    check_candidate c readable j (record { rows = rows; fs = s })
after_links c readable j rows (some e, s) = report j e (record { rows = rows; fs = s })

-- with a release folder
unfoldable pub verify_pinned : Paths → (Text → Bool) → Job → World → Done
verify_pinned c readable j w =
    if not (is_valid_release_folder j.release_folder)
    then (some (codes "invalid persisted release folder"), w)
    else if j.hidden
    then check_candidate c readable j w
    else after_links c readable j w.rows (create_links c j w.fs)

-- the row that was pinned, or ErrNoRows
abbrev pub after_pin : Paths → (Text → Bool) → Option Job → World → World → Done
after_pin c readable none before w = (some (codes "no rows in result set"), before)
after_pin c readable (some j) before w = verify_pinned c readable j w

unfoldable pub verify_mount : Paths → (Text → Bool) → Job → World → Done
verify_mount c readable j w =
    if text_eq j.release_folder []
    then after_pin c readable (pin_result j (release_folder j) w.rows) w
        (record w { rows = pin_release_folder j (release_folder j) w.rows })
    else verify_pinned c readable j w

abbrev pub after_cleanup : Job → List Row → Outcome → Done
after_cleanup j rows (none, s) = (none, record { rows = finish_cleanup j rows; fs = s })
after_cleanup j rows (some e, s) = (some e, record { rows = rows; fs = s })

abbrev pub work_on : Paths → (Text → Bool) → ℕ → World → Option Row → Done
work_on c readable now w none = (none, w)
work_on c readable now w (some r) =
    let leased = record w { rows = lease_mount now r.id w.rows } in
    if r.cleanup_requested
    then after_cleanup r.job leased.rows (remove_staged_links c r.job w.fs)
    else verify_mount c readable r.job leased

-- ReconcileMount at a role, with the rows that other workers hold
unfoldable pub reconcile_mount : Role → Paths → (Text → Bool) → ℕ → (Row → Bool) → World → Done
unfolding claim_mount lease_mount remove_staged_links finish_cleanup verify_mount
reconcile_mount gateway_role c readable now locked w =
    (some (codes "filesystem verification is disabled in gateway role"), w)
reconcile_mount combined c readable now locked w =
    work_on c readable now w (claim_mount now locked w.rows)
reconcile_mount controller_role c readable now locked w =
    work_on c readable now w (claim_mount now locked w.rows)
