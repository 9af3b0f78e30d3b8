-- ===== src/Controller/Rearm.antt =====
-- handleRearm of internal/controller/controller.go, with resolveRearmTorrent of rearm.go.
use rehydrator.Controller.{
  Fault, Options, Gateway, category_for, item_has_usable_path, item_rearmable,
  is_missing_history_error, ready_id, rearm_ready,
}
use rehydrator.Base.{
  ℕ, ◌⊎◌, inl, inr, Bool, true, false, not, ◌&&◌, ◌||◌, Option, none, some, List, [], ◌∷◌,
  if◌then◌else◌, Text, codes, text_eq,
}
use rehydrator.Base.Strings.{trim_space, equal_fold}
use rehydrator.Model.Types.{TorrentMetadata, SourceKind, recovery_required}
use rehydrator.Model.Source.{Checked, valid, recovery, rejected, Url, Token, validate_source}
use rehydrator.Db.Media.{Item, or_empty}
use rehydrator.Db.Media.Marks.{mark_rearming}
use rehydrator.Db.Media.Requests.{get_state}
use rehydrator.Db.Media.Sources.{Library, saved_torrent_source, save_torrent_metadata}
use rehydrator.Db.Media.NzbJobs.{UsenetJob}
use rehydrator.Db.Grabs.{GrabRow}
use rehydrator.Db.Grabs.Links.{link_grab_sources, current_grab_source_pending}
use rehydrator.Controller.Outcome.{
  Verdict, metadata_pending, failure, waiting, settled, record_outcome, after_status_error,
}
use rehydrator.Controller.Wait.{Probes, wait_for_csi}

-- the result of resolveRearmTorrent
pub data Resolved : Type 0 where
  found_source : TorrentMetadata → Resolved
  source_lost : Resolved
  unresolved_error : Text → Resolved

-- The functions outside of the program, the texts of the error of `ValidateSource` and of the
-- timeout, and the tables of grabs and of Usenet jobs, which are only read.
pub record Environment : Type 0 where
  pub sha1_hex : Text → Text
  pub parse_url : Text → Option Url
  pub read_xml : Text → List Token × Bool
  pub gateway : Gateway
  pub source_error : Text
  pub timeout_text : Text
  pub grabs : List GrabRow
  pub usenet_jobs : List UsenetJob

abbrev pub is_recovery_kind : SourceKind → Bool
is_recovery_kind recovery_required = true
is_recovery_kind _ = false

abbrev pub is_usenet : Text → Bool
is_usenet protocol = text_eq protocol (codes "usenet")

-- the saved source belongs to the row
unfoldable pub is_source_of : TorrentMetadata → Item → Bool
unfolding equal_fold trim_space
is_source_of s m =
    not (is_recovery_kind s.kind)
    && ((is_usenet s.protocol && is_usenet m.source_protocol)
        || (not (is_usenet s.protocol)
            && equal_fold s.info_hash (trim_space (or_empty m.info_hash))))

abbrev pub as_resolved : Environment → Checked TorrentMetadata → Resolved
as_resolved w (valid t) = found_source t
as_resolved w recovery = source_lost
as_resolved w rejected = unresolved_error w.source_error

abbrev pub resolve_saved : Environment → Item → Option TorrentMetadata → Resolved
resolve_saved w m none = source_lost
resolve_saved w m (some s) =
    if is_source_of s m
    then as_resolved w (
        validate_source w.sha1_hex w.parse_url w.read_xml
          (record s { source_title = or_empty m.source_title }))
    else source_lost

-- the row as it is after the link
abbrev pub refreshed : Item → List Item → Item
refreshed m rows = found_or m (get_state m.tenant m.media_type m.arr_id rows)
  where
    found_or : Item → Option Item → Item
    found_or m none = m
    found_or m (some n) = n

-- after LinkGrabSourceForItem, with the answer of CurrentGrabSourcePending
abbrev pub resolve_linked : Environment → Item → Library → Bool → Library × Resolved
resolve_linked w m l true =
    (l, unresolved_error (codes "source capture pending for current import"))
resolve_linked w m l false = (
  l,
  resolve_saved w (refreshed m l.items) (saved_torrent_source (refreshed m l.items).id l.sources),
)

-- LinkGrabSourceForItem and what follows
abbrev pub resolve_grabbed : Environment → ℕ → Item → Library → Library × Resolved
resolve_grabbed w now m l =
    let k = link_grab_sources now m.tenant m.id w.grabs w.usenet_jobs l in
    resolve_linked w m k (current_grab_source_pending m.id w.grabs k.items)

-- `Gateway.Source`, which is not asked for an empty ID
abbrev pub gateway_source : Gateway → Text → Option TorrentMetadata
gateway_source g [] = none
gateway_source g (c ∷ t) = g.source (c ∷ t)

abbrev pub or_linked :
    Environment → ℕ → Item → Library → Option TorrentMetadata → Library × Resolved
or_linked w now m l (some t) = (l, found_source t)
or_linked w now m l none = resolve_grabbed w now m l

-- resolveRearmTorrent, with the tables after it
unfoldable pub resolve_rearm_torrent : Environment → ℕ → Item → Library → Library × Resolved
unfolding link_grab_sources current_grab_source_pending
resolve_rearm_torrent w now m l =
    or_linked w now m l (gateway_source w.gateway (ready_id m (or_empty m.info_hash)))

-- the row in memory once the gateway has taken the source
abbrev pub with_job : TorrentMetadata → Text → Item → Item
with_job t hash m =
    if is_usenet t.protocol
    then record m {
      source_protocol = t.protocol;
      download_job_id = hash;
      source_download_id = some hash;
    }
    else record m { source_protocol = t.protocol }

abbrev pub after_wait : Text → Text → Option Bool → Verdict
after_wait timeout hash (some true) = settled hash
after_wait timeout hash _ =
    waiting
      (codes "CSI path did not appear in time after provider add; waiting for mount visibility")

-- the wait for the file of a row that is ready
unfoldable pub await_file : Options → Environment → Probes → Item → Text → Verdict
await_file o w p m hash =
    if item_has_usable_path m
    then after_wait w.timeout_text hash
        (wait_for_csi p o.visibility_timeout o.visibility_poll m.symlink_path)
    else metadata_pending

abbrev pub after_ready : Options → Environment → Probes → Item → Text → Bool ⊎ Fault → Verdict
after_ready o w p m hash (inr fault) = after_status_error fault
after_ready o w p m hash (inl false) =
    waiting (codes "waiting for provider completion before mount visibility")
after_ready o w p m hash (inl true) = await_file o w p m hash

-- after `Gateway.Ensure`; `first` is the answer of the probe with the check of readiness
abbrev pub after_ensure :
    Options → Environment → Probes → Bool → Item → TorrentMetadata → Text ⊎ Text → Verdict
after_ensure o w p first m t (inr error) = failure error
after_ensure o w p first m t (inl hash) =
    after_ready o w p (with_job t hash m) hash
      (rearm_ready w.gateway first (with_job t hash m) hash)

-- the tables after the source is saved, and the outcome
abbrev pub after_save :
    Options
    → Environment
    → Probes
    → Bool
    → Item
    → TorrentMetadata
    → Library
    → Checked Library
    → Library × Verdict
after_save o w p first m t l (valid saved) =
    (saved, after_ensure o w p first m t (w.gateway.ensure t (category_for o m.media_type)))
after_save o w p first m t l _ = (l, failure w.source_error)

-- after the source is resolved; a missing history keeps the row REQUESTED
abbrev pub after_resolve :
    Options → Environment → Probes → Bool → ℕ → Item → Library × Resolved → Library × Verdict
after_resolve o w p first now m (l, source_lost) = (l, Verdict.recovery [])
after_resolve o w p first now m (l, unresolved_error error) =
    (l, if is_missing_history_error error then metadata_pending else failure error)
after_resolve o w p first now m (l, found_source t) = after_save o w p first m t l (
    save_torrent_metadata w.sha1_hex w.parse_url w.read_xml now m.id t (category_for o m.media_type)
      l)

-- the tables before the outcome is recorded, and the outcome
unfoldable pub decide_rearm :
    Options → Environment → Probes → Bool → ℕ → Item → Library → Library × Verdict
decide_rearm o w p first now m l =
    if item_rearmable m
    then after_resolve o w p first now m
        (resolve_rearm_torrent w now m (record l { items = mark_rearming now m.id l.items }))
    else (l, metadata_pending)

-- handleRearm, which begins at `now` and ends at `later`
unfoldable pub handle_rearm :
    Options → Environment → Probes → Bool → ℕ → ℕ → Item → Library → Library
handle_rearm o w p first now later m l =
    let done : Library × Verdict = decide_rearm o w p first now m l in
    record (done.0) { items = record_outcome o later m.id (done.1) (done.0).items }
