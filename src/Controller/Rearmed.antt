-- ===== src/Controller/Rearmed.antt =====
-- When the handling of a rearm marks its row AVAILABLE.
use rehydrator.Base.{
  ℕ, ◌≤◌, ◌≡◌, refl, sym, ◌∙◌, ◌⊎◌, inl, inr, Bool, true, false, Option, none, some, Bool-cases,
  any, Text,
}
use rehydrator.Model.Types.{TorrentMetadata}
use rehydrator.Model.Source.{Checked, valid, recovery, rejected}
use rehydrator.Db.Media.{Item}
use rehydrator.Db.Media.Marks.{mark_rearming}
use rehydrator.Db.Media.Sources.{Library, save_torrent_metadata}
use rehydrator.Controller.{
  Options, Fault, recovery_required, other_fault, item_has_usable_path, item_rearmable,
  is_missing_history_error, ready_id, rearm_ready, with_probe, category_for,
}
use rehydrator.Controller.Outcome.{metadata_pending, failure, record_outcome}
use rehydrator.Controller.Wait.{Probes, wait_for_csi, wait_ends}
use rehydrator.Controller.Rearm.{
  Environment, Resolved, found_source, source_lost, unresolved_error, with_job, after_wait,
  await_file, after_ready, after_ensure, after_save, after_resolve, resolve_rearm_torrent,
  decide_rearm, handle_rearm,
}
use rehydrator.Controller.Available.{
  is_settled_outcome, is_available_row, Told-of_any, record_outcome-Told, if_settled,
}

-- The gateway took a source and answers that its download is ready, and two probes found the path
-- of the row readable.
abbrev pub IsBack : Options → Environment → Probes → Bool → Item → Type 0
IsBack o w p first m =
    (t : TorrentMetadata) × (hash : Text) × (w.gateway.ensure t (category_for o m.media_type)
      ≡ inl hash)
    × (w.gateway.ready (ready_id (with_job t hash m) hash) ≡ inl true)
    × (first ≡ true)
    × (i : ℕ) × (p.probe i ≡ true)

after_wait-settled :
    (timeout hash : Text) (x : Option Bool)
    → is_settled_outcome (after_wait timeout hash x) ≡ true
    → x ≡ some true
after_wait-settled timeout hash (some true) h = refl
after_wait-settled timeout hash (some false) h = absurd (cc h)
after_wait-settled timeout hash none h = absurd (cc h)

await_file-settled :
    (o : Options) (w : Environment) (p : Probes) (m : Item) (hash : Text)
    → 1 ≤ o.visibility_poll
    → is_settled_outcome (await_file o w p m hash) ≡ true
    → (i : ℕ) × (p.probe i ≡ true)
unfolding await_file
await_file-settled o w p m hash pause h =
    let step =
      if_settled (item_has_usable_path m)
        (after_wait w.timeout_text hash
          (wait_for_csi p o.visibility_timeout o.visibility_poll m.symlink_path))
        metadata_pending refl h in
    let found : wait_for_csi p o.visibility_timeout o.visibility_poll m.symlink_path ≡ some true =
      after_wait-settled w.timeout_text hash
        (wait_for_csi p o.visibility_timeout o.visibility_poll m.symlink_path) step.1 in
    elim (wait_ends p o.visibility_timeout o.visibility_poll m.symlink_path pause) [
      | inl e ↦ absurd (cc (sym e ∙ found))
      | inr e ↦ (e.1, e.2)
    ]

after_ready-settled :
    (o : Options) (w : Environment) (p : Probes) (first : Bool) (m : Item) (hash : Text)
    (answer : Bool ⊎ Fault)
    → 1 ≤ o.visibility_poll
    → is_settled_outcome (after_ready o w p m hash (with_probe first answer)) ≡ true
    → (answer ≡ inl true) × (first ≡ true) × (i : ℕ) × (p.probe i ≡ true)
after_ready-settled o w p first m hash (inr (recovery_required e)) pause h = absurd (cc h)
after_ready-settled o w p first m hash (inr (other_fault e)) pause h = absurd (cc h)
after_ready-settled o w p first m hash (inl false) pause h = absurd (cc h)
after_ready-settled o w p false m hash (inl true) pause h = absurd (cc h)
after_ready-settled o w p true m hash (inl true) pause h =
    let found = await_file-settled o w p m hash pause h in (refl, refl, found.0, found.1)

after_ensure-settled :
    (o : Options) (w : Environment) (p : Probes) (first : Bool) (m : Item) (t : TorrentMetadata)
    (answer : Text ⊎ Text)
    → w.gateway.ensure t (category_for o m.media_type) ≡ answer
    → 1 ≤ o.visibility_poll
    → is_settled_outcome (after_ensure o w p first m t answer) ≡ true
    → IsBack o w p first m
unfolding rearm_ready
after_ensure-settled o w p first m t (inr error) e pause h = absurd (cc h)
after_ensure-settled o w p first m t (inl hash) e pause h =
    let back =
      after_ready-settled o w p first (with_job t hash m) hash
        (w.gateway.ready (ready_id (with_job t hash m) hash)) pause h in
    (t, hash, e, back.0, back.1, back.2, back.3)

after_save-settled :
    (o : Options) (w : Environment) (p : Probes) (first : Bool) (m : Item) (t : TorrentMetadata)
    (l : Library) (saved : Checked Library)
    → 1 ≤ o.visibility_poll
    → is_settled_outcome ((after_save o w p first m t l saved).1) ≡ true
    → IsBack o w p first m
after_save-settled o w p first m t l (valid saved) pause h =
    after_ensure-settled o w p first m t (w.gateway.ensure t (category_for o m.media_type)) refl
      pause h
after_save-settled o w p first m t l recovery pause h = absurd (cc h)
after_save-settled o w p first m t l rejected pause h = absurd (cc h)

after_resolve-settled :
    (o : Options) (w : Environment) (p : Probes) (first : Bool) (now : ℕ) (m : Item)
    (found : Library × Resolved)
    → 1 ≤ o.visibility_poll
    → is_settled_outcome ((after_resolve o w p first now m found).1) ≡ true
    → IsBack o w p first m
after_resolve-settled o w p first now m (l, source_lost) pause h = absurd (cc h)
after_resolve-settled o w p first now m (l, unresolved_error error) pause h =
    let step =
      if_settled (is_missing_history_error error) metadata_pending (failure error) refl h in
    absurd (cc (step.1))
after_resolve-settled o w p first now m (l, found_source t) pause h =
    after_save-settled o w p first m t l
      (save_torrent_metadata w.sha1_hex w.parse_url w.read_xml now m.id t
        (category_for o m.media_type) l)
      pause h

decide_rearm-settled :
    (o : Options) (w : Environment) (p : Probes) (first : Bool) (now : ℕ) (m : Item) (l : Library)
    → 1 ≤ o.visibility_poll
    → is_settled_outcome ((decide_rearm o w p first now m l).1) ≡ true
    → (item_rearmable m ≡ true) × IsBack o w p first m
unfolding decide_rearm
decide_rearm-settled o w p first now m l pause = elim (Bool-cases (item_rearmable m)) [
  | inl e ↦ rw e (λ h. (
    refl,
    after_resolve-settled o w p first now m
        (resolve_rearm_torrent w now m (record l { items = mark_rearming now m.id l.items })) pause
        h,
  ))
  | inr e ↦ rw e (λ h. absurd (cc h))
]

-- After a row was handled for a rearm, a row of its ID is AVAILABLE only if it was rearmable, the
-- gateway took a source and answered that its download is ready, and the path was found readable,
-- once with that answer and once again after it. At most 27 tries are configured, and the pause
-- between two probes is positive.
pub ready_before_available :
    (o : Options) (w : Environment) (p : Probes) (first : Bool) (now later : ℕ) (m : Item)
    (l : Library)
    → o.max_retries ≤ 27
    → 1 ≤ o.visibility_poll
    → any (is_available_row m.id) (handle_rearm o w p first now later m l).items ≡ true
    → (item_rearmable m ≡ true) × IsBack o w p first m
unfolding handle_rearm
ready_before_available o w p first now later m l few pause h =
    let done = decide_rearm o w p first now m l in
    decide_rearm-settled o w p first now m l pause (
      Told-of_any m.id (done.1) (record_outcome o later m.id (done.1) (done.0).items)
        (record_outcome-Told o later m.id (done.1) (done.0).items few) h)
