-- ===== src/Controller/Consistent.antt =====
-- The handlers keep the life cycle of the rows.
use rehydrator.Controller.{or_empty, Options, category_for, item_rearmable, ready_id}
use rehydrator.Base.{
  ℕ, ◌+◌, ◌≡◌, refl, sym, subst, inl, inr, Bool, true, false, Option, none, some, List, Bool-cases,
  All, Text,
}
use rehydrator.Model.Types.{TorrentMetadata}
use rehydrator.Model.Source.{Checked, valid, recovery, rejected, validate_source}
use rehydrator.Db.Media.{Item}
use rehydrator.Db.Media.Marks.{mark_rearming}
use rehydrator.Db.Media.Sources.{Library, save_checked, save_torrent_metadata}
use rehydrator.Db.Media.Lifecycle.{
  IsConsistent, AreConsistent, Write, run, metadata_pending, require_recovery, fail_row,
  wait_visibility, make_available, rearm_start, save_source,
}
use rehydrator.Db.Media.Lifecycle.Invariant.{run-kept}
use rehydrator.Db.Media.Lifecycle.Kept.{set_items-kept}
use rehydrator.Db.Media.NzbJobs.{UsenetJob}
use rehydrator.Db.Grabs.{GrabRow}
use rehydrator.Db.Grabs.Links.{
  adopt_grab, current_grab, is_linkable, link_grab_sources, current_grab_source_pending,
}
use rehydrator.Controller.Outcome.{Verdict, failure, waiting, settled, record_outcome}
use rehydrator.Controller.Wait.{Probes}
use rehydrator.Controller.Rearm.{
  Environment, gateway_source, Resolved, found_source, source_lost, unresolved_error, or_linked,
  resolve_linked, resolve_rearm_torrent, after_save, after_resolve, decide_rearm, handle_rearm,
}

-- the statement of an outcome
abbrev write_of : Options → ℕ → Text → Verdict → Write
write_of o now id Verdict.metadata_pending = metadata_pending id
write_of o now id (Verdict.recovery reasons) = require_recovery id reasons
write_of o now id (failure error) = fail_row id error o.max_retries
write_of o now id (waiting error) = wait_visibility id error (now + o.visibility_retry)
write_of o now id (settled hash) = make_available id hash (now + o.cache_grace)

outcome_run :
    (o : Options) (now : ℕ) (id : Text) (v : Verdict) (rows : List Item)
    → record_outcome o now id v rows ≡ run now (write_of o now id v) rows
unfolding record_outcome run
outcome_run o now id Verdict.metadata_pending rows = refl
outcome_run o now id (Verdict.recovery reasons) rows = refl
outcome_run o now id (failure error) rows = refl
outcome_run o now id (waiting error) rows = refl
outcome_run o now id (settled hash) rows = refl

outcome_kept :
    (o : Options) (now : ℕ) (id : Text) (v : Verdict) (rows : List Item)
    → AreConsistent rows
    → AreConsistent (record_outcome o now id v rows)
outcome_kept o now id v rows h =
    subst AreConsistent (sym (outcome_run o now id v rows))
      (run-kept now (write_of o now id v) rows h)

adopt_grab-kept :
    (jobs : List UsenetJob) (m : Item) (o : Option GrabRow)
    → IsConsistent m
    → IsConsistent (adopt_grab jobs m o)
adopt_grab-kept jobs m none h = h
adopt_grab-kept jobs m (some g) h = h

link_kept :
    (now : ℕ) (tenant id : Text) (grabs : List GrabRow) (jobs : List UsenetJob) (l : Library)
    → AreConsistent l.items
    → AreConsistent (link_grab_sources now tenant id grabs jobs l).items
unfolding link_grab_sources
link_kept now tenant id grabs jobs l h =
    set_items-kept now (is_linkable tenant id grabs l.sources)
      (λ m. adopt_grab jobs m (current_grab grabs m)) l.items
      (λ m c t. adopt_grab-kept jobs m (current_grab grabs m) c) h

resolve_kept :
    (w : Environment) (m : Item) (l : Library) (pending : Bool)
    → AreConsistent l.items
    → AreConsistent ((resolve_linked w m l pending).0).items
resolve_kept w m l true h = h
resolve_kept w m l false h = h

or_kept :
    (w : Environment) (now : ℕ) (m : Item) (l : Library) (o : Option TorrentMetadata)
    → AreConsistent l.items
    → AreConsistent ((or_linked w now m l o).0).items
or_kept w now m l (some t) h = h
or_kept w now m l none h =
    let k = link_grab_sources now m.tenant m.id w.grabs w.usenet_jobs l in
    resolve_kept w m k (current_grab_source_pending m.id w.grabs k.items)
      (link_kept now m.tenant m.id w.grabs w.usenet_jobs l h)

save_kept :
    (o : Options) (w : Environment) (p : Probes) (first : Bool) (now : ℕ) (m : Item)
    (t : TorrentMetadata) (category : Text) (l : Library) (c : Checked TorrentMetadata)
    → AreConsistent l.items
    → AreConsistent ((after_save o w p first m t l (save_checked now m.id category l c)).0).items
unfolding run
save_kept o w p first now m t category l (valid v) h =
    run-kept now (save_source m.id v category) l.items h
save_kept o w p first now m t category l recovery h = h
save_kept o w p first now m t category l rejected h = h

after_resolve-kept :
    (o : Options) (w : Environment) (p : Probes) (first : Bool) (now : ℕ) (m : Item)
    (found : Library × Resolved)
    → AreConsistent (found.0).items
    → AreConsistent ((after_resolve o w p first now m found).0).items
unfolding save_torrent_metadata
after_resolve-kept o w p first now m (l, source_lost) h = h
after_resolve-kept o w p first now m (l, unresolved_error error) h = h
after_resolve-kept o w p first now m (l, found_source t) h =
    save_kept o w p first now m t (category_for o m.media_type) l
      (validate_source w.sha1_hex w.parse_url w.read_xml t) h

decide_rearm-kept :
    (o : Options) (w : Environment) (p : Probes) (first : Bool) (now : ℕ) (m : Item) (l : Library)
    → AreConsistent l.items
    → AreConsistent ((decide_rearm o w p first now m l).0).items
unfolding decide_rearm resolve_rearm_torrent run
decide_rearm-kept o w p first now m l h = elim (Bool-cases (item_rearmable m)) [
  | inl e ↦
      let k : Library = record l { items = mark_rearming now m.id l.items } in
      let marked : AreConsistent k.items = run-kept now (rearm_start m.id) l.items h in
      rw e (
        after_resolve-kept o w p first now m (resolve_rearm_torrent w now m k)
          (or_kept w now m k (gateway_source w.gateway (ready_id m (or_empty m.info_hash))) marked))
  | inr e ↦ rw e h
]

-- Handling a row for a rearm keeps every row consistent, whatever the gateway and the probes
-- answer and whichever branch is taken: a title that is requested or available is not being
-- rearmed, a row that waits for its file is, and a failed row has no time of a next try.
pub handle_rearm-IsConsistent :
    (o : Options) (w : Environment) (p : Probes) (first : Bool) (now later : ℕ) (m : Item)
    (l : Library)
    → All IsConsistent l.items
    → All IsConsistent (handle_rearm o w p first now later m l).items
unfolding handle_rearm AreConsistent
handle_rearm-IsConsistent o w p first now later m l h =
    let done = decide_rearm o w p first now m l in
    outcome_kept o later m.id (done.1) (done.0).items (decide_rearm-kept o w p first now m l h)
