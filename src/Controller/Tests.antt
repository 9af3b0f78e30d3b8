-- ===== src/Controller/Tests.antt =====
-- The handlers of a row at concrete inputs.
use rehydrator.Controller.Refresh.{is_reserved}
use rehydrator.Controller.Refresh.{purge}
use rehydrator.Controller.Refresh.{put_key}
use rehydrator.Controller.Refresh.{delete_key}
use rehydrator.Base.{
  ℕ, ◌≡◌, refl, ◌⊎◌, inl, true, false, Option, none, some, List, [], ◌∷◌, ◌++◌, map, arith, ltb,
  All, pos, Text, codes,
}
use rehydrator.Base.Strings.{
  equal_fold, has_prefix, to_lower, lower_rune, drop_bytes, trim_space, trim, trim_left, trim_right,
}
use rehydrator.Model.Source.{validate_source, validate_magnet, resolve_magnet, btih}
use rehydrator.Db.Rows.{update}
use rehydrator.Db.Media.Sources.{save_torrent_metadata, adopt_source, put_source, Library}
use rehydrator.Db.Media.Marks.{mark_rearming, mark_available}
use rehydrator.Db.Grabs.{GrabRow, new_grab}
use rehydrator.Db.Grabs.Links.{
  link_grab_sources, current_grab, put_linked, current_grab_source_pending,
}
use rehydrator.Db.Media.Requests.{get_state}
use rehydrator.Db.Rows.{find, first_by}
use rehydrator.Db.Media.Sources.{saved_torrent_source}
use rehydrator.Controller.Rearm.{is_source_of}
use rehydrator.Db.Media.Marks.{mark_failed}
use rehydrator.Db.Media.{broken, State}
use rehydrator.Db.Media.Lifecycle.{IsConsistent}
use rehydrator.Controller.Consistent.{handle_rearm-IsConsistent}
use rehydrator.Controller.Refresh.{refresh_key, reserve_refresh}
use rehydrator.Controller.Refresh.Once.{Call, answers, once_in_window}
use rehydrator.Controller.Rearm.{
  decide_rearm, resolve_rearm_torrent, await_file, Environment, handle_rearm,
}
use rehydrator.Controller.Wait.{wait_loop, Probes, wait_for_csi, wait_ends}
use rehydrator.Controller.Outcome.{record_outcome}
use rehydrator.Controller.Visibility.{decide_visibility, handle_visibility}
use rehydrator.Controller.{
  is_missing_history_error, rearm_ready, Options, Gateway, item_has_usable_path, item_rearmable,
  ready_id,
}
use rehydrator.Db.Media.{set_items, is_in, Item, movie, archived, available, waiting_for_visibility}
use rehydrator.Model.Types.{TorrentMetadata, magnet_link}
use rehydrator.Db.Media.Imports.{new_item}
use rehydrator.Controller.Available.{visible_before_available}
use rehydrator.Controller.Rearmed.{IsBack, ready_before_available}

abbrev options : Options
options = record {
  max_retries = 10;
  max_rearms_per_run = 4;
  concurrent_workers = 4;
  interval = 30;
  visibility_timeout = 20;
  visibility_poll = 10;
  visibility_retry = 60;
  cache_grace = 86400;
  radarr_category = codes "radarr";
  sonarr_category = codes "sonarr";
}

abbrev path : Text
path = codes "/media/film.mkv"

-- the path is readable from the second probe on
abbrev late : Probes
late = record { probe = λ i. ltb 0 i; took = λ i. 1; stopped = λ i. false }

found_late : wait_for_csi late 20 10 path ≡ some true
unfolding wait_for_csi wait_loop trim_space trim trim_left trim_right
found_late = refl

too_late : wait_for_csi (record late { probe = λ i. ltb 5 i }) 20 10 path ≡ some false
unfolding wait_for_csi wait_loop trim_space trim trim_left trim_right
too_late = refl

wait_ends_example :
    (wait_for_csi late 20 10 path ≡ some false)
    ⊎ ((wait_for_csi late 20 10 path ≡ some true) × (i : ℕ) × (late.probe i ≡ true))
wait_ends_example = wait_ends late 20 10 path (omega arith)

abbrev hash : Text
hash = codes "0123456789abcdef0123456789abcdef01234567"

abbrev a_magnet : TorrentMetadata
a_magnet = record {
  protocol = codes "torrent";
  nzb = [];
  nzb_filename = [];
  kind = magnet_link;
  torrent = [];
  torrent_filename = [];
  info_hash = hash;
  magnet = codes "magnet:?xt=urn:btih:0123456789abcdef0123456789abcdef01234567";
  torrent_url = [];
  source = [];
  source_title = [];
  download_id = [];
}

abbrev gateway : Gateway
gateway = record {
  source = λ id. some a_magnet;
  ensure = λ t category. inl hash;
  ready = λ id. inl true;
}

abbrev waiting_item : Item
waiting_item =
    record (new_item 100 (codes "a") (codes "home") movie (pos 1) path waiting_for_visibility
      none) { rearm_requested = true; info_hash = some hash }

abbrev lost_item : Item
lost_item = record waiting_item { state = archived }

visible_before_available_example :
    (item_has_usable_path waiting_item ≡ true)
    × ((gateway.ready (ready_id waiting_item hash) ≡ inl true) × ((true ≡ true) × (true ≡ true)))
unfolding handle_visibility record_outcome decide_visibility item_has_usable_path new_item
    rearm_ready mark_available set_items is_in
visible_before_available_example =
    visible_before_available options gateway true true 500 waiting_item (waiting_item ∷ [])
      (omega arith) refl

abbrev world : Environment
world = record {
  sha1_hex = λ s. hash;
  parse_url = λ s. some (record { scheme = codes "magnet"; xt = (codes "urn:btih:" ++ hash) ∷ [] });
  read_xml = λ s. ([], true);
  gateway = gateway;
  source_error = codes "invalid source";
  timeout_text = codes "20s";
  grabs = [];
  usenet_jobs = [];
}

abbrev tables : Library
tables = record { items = lost_item ∷ []; sources = [] }

rearmed :
    map (λ m. m.state) (handle_rearm options world late true 500 540 lost_item tables).items
    ≡ available ∷ []
unfolding handle_rearm decide_rearm item_rearmable item_has_usable_path resolve_rearm_torrent
    save_torrent_metadata validate_source validate_magnet resolve_magnet equal_fold btih has_prefix
    to_lower lower_rune drop_bytes trim_space trim trim_left trim_right rearm_ready await_file
    wait_for_csi wait_loop record_outcome mark_available mark_rearming adopt_source put_source
    set_items update is_in new_item
rearmed = refl

ready_before_available_example :
    (item_rearmable lost_item ≡ true) × IsBack options world late true lost_item
unfolding handle_rearm decide_rearm item_rearmable item_has_usable_path resolve_rearm_torrent
    save_torrent_metadata validate_source validate_magnet resolve_magnet equal_fold btih has_prefix
    to_lower lower_rune drop_bytes trim_space trim trim_left trim_right rearm_ready await_file
    wait_for_csi wait_loop record_outcome mark_available mark_rearming adopt_source put_source
    set_items update is_in new_item
ready_before_available_example =
    ready_before_available options world late true 500 540 lost_item tables (omega arith)
      (omega arith) refl

-- the newest import of the path, which the row has not got yet
abbrev a_grab : GrabRow
a_grab =
    record (new_grab 50
      (record { tenant = codes "home"; arr = codes "radarr"; owner_id = pos 1; download_id = hash })
      a_magnet) { ready = true; imported_paths = path ∷ []; imported_at = some 60 }

-- the gateway has not got the source any more
abbrev forgetful_world : Environment
forgetful_world = record world {
  gateway = record gateway { source = λ id. none };
  grabs = a_grab ∷ [];
}

relinked :
    map {B = State × Option Text}
      (λ m. (m.state, m.source_download_id))
      (handle_rearm options forgetful_world late true 500 540 lost_item tables).items
    ≡ (available, some hash) ∷ []
unfolding handle_rearm decide_rearm item_rearmable item_has_usable_path resolve_rearm_torrent
    link_grab_sources current_grab put_linked current_grab_source_pending get_state find first_by
    saved_torrent_source is_source_of mark_failed save_torrent_metadata validate_source
    validate_magnet resolve_magnet equal_fold btih has_prefix to_lower lower_rune drop_bytes
    trim_space trim trim_left trim_right rearm_ready await_file wait_for_csi wait_loop
    record_outcome mark_available mark_rearming adopt_source put_source set_items update is_in
    new_item
relinked = refl

-- its source is still to be captured
still_pending :
    map {B = State × Option Text}
      (λ m. (m.state, m.source_download_id))
      (handle_rearm options
        (record forgetful_world { grabs = record a_grab { ready = false } ∷ [] })
        late
        true
        500
        540
        lost_item
        tables).items
    ≡ (broken, none) ∷ []
unfolding handle_rearm decide_rearm item_rearmable item_has_usable_path resolve_rearm_torrent
    link_grab_sources current_grab put_linked current_grab_source_pending get_state find first_by
    saved_torrent_source is_source_of mark_failed is_missing_history_error save_torrent_metadata
    validate_source validate_magnet resolve_magnet equal_fold btih has_prefix to_lower lower_rune
    drop_bytes trim_space trim trim_left trim_right rearm_ready await_file wait_for_csi wait_loop
    record_outcome mark_available mark_rearming adopt_source put_source set_items update is_in
    new_item
still_pending = refl

handle_rearm-IsConsistent_example :
    All IsConsistent (handle_rearm options forgetful_world late true 500 540 lost_item tables).items
unfolding new_item
handle_rearm-IsConsistent_example =
    handle_rearm-IsConsistent options forgetful_world late true 500 540 lost_item tables (tt, tt)

abbrev a_key : Text
a_key = refresh_key (codes "home") movie path

abbrev another_key : Text
another_key = refresh_key (codes "home") movie (codes "/media/other.mkv")

abbrev calls : List Call
calls =
    record { time = 600; key = another_key; recent = none }
    ∷ record { time = 900; key = a_key; recent = some false }
    ∷ []

refused_again : answers 10 a_key calls ((reserve_refresh 500 10 a_key none []).0) ≡ false ∷ []
unfolding answers reserve_refresh is_reserved purge put_key delete_key
refused_again = refl

once_in_window_example :
    All (λ b. b ≡ false) (answers 10 a_key calls ((reserve_refresh 500 10 a_key none []).0))
unfolding reserve_refresh is_reserved purge
once_in_window_example =
    once_in_window 500 10 a_key none [] calls (omega arith) refl (omega arith, (omega arith, tt))
