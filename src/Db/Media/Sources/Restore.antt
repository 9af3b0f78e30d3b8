-- ===== src/Db/Media/Sources/Restore.antt =====
-- A source that is saved and read again.
use rehydrator.Base.{
  ℕ, ◌≡◌, refl, ap, subst, inl, inr, Bool, true, false, ◌||◌, Option, some, List, [], ◌∷◌, ◌++◌,
  Bool-cases, ||-eq-false, any, Text, codes, text_eq_refl,
}
use rehydrator.Model.Types.{TorrentMetadata}
use rehydrator.Model.Source.{Checked, valid, recovery, rejected, Url, Token, validate_source}
use rehydrator.Db.Rows.{update, find}
use rehydrator.Db.Media.{SavedSource}
use rehydrator.Db.Media.Sources.{
  Library, belongs, kind_text, stored, put_source, save_checked, save_torrent_metadata,
  saved_torrent_source, with_source,
}

-- what is read back of a source
abbrev pub as_saved : TorrentMetadata → TorrentMetadata
as_saved t = record t {
  source = codes "database_" ++ kind_text t.kind;
  source_title = [];
  torrent_url = [];
}

found_update :
    (id : Text) (t : TorrentMetadata) (ss : List SavedSource)
    → any (belongs id) ss ≡ true
    → with_source (find (belongs id) (update (belongs id) (λ s. record s { source = stored t }) ss))
      ≡ some (as_saved t)
unfolding find update
found_update id t [] h = absurd (cc h)
found_update id t (s ∷ ss) h = elim (Bool-cases (belongs id s)) [
  | inl e ↦ rw (e, e) refl
  | inr e ↦ rw (e, e) (found_update id t ss (subst (λ b. b || any (belongs id) ss ≡ true) e h))
]

found_append :
    (id : Text) (t : TorrentMetadata) (ss : List SavedSource)
    → any (belongs id) ss ≡ false
    → with_source (find (belongs id) (ss ++ (record { media_id = id; source = stored t } ∷ [])))
      ≡ some (as_saved t)
unfolding find
found_append id t [] h = rw (text_eq_refl id) refl
found_append id t (s ∷ ss) h =
    let both = ||-eq-false (belongs id s) (any (belongs id) ss) h in
    rw (both.0) (found_append id t ss both.1)

saved-put :
    (id : Text) (t : TorrentMetadata) (ss : List SavedSource)
    → saved_torrent_source id (put_source id t ss) ≡ some (as_saved t)
unfolding saved_torrent_source put_source
saved-put id t ss = elim (Bool-cases (any (belongs id) ss)) [
  | inl e ↦ rw e (found_update id t ss e)
  | inr e ↦ rw e (found_append id t ss e)
]

sources_of : Checked Library → List SavedSource
sources_of (valid l) = l.sources
sources_of c = []

saved_checked :
    (now : ℕ) (id category : Text) (l saved : Library) (c : Checked TorrentMetadata)
    → save_checked now id category l c ≡ valid saved
    → (v : TorrentMetadata) × (c ≡ valid v)
      × (saved_torrent_source id saved.sources ≡ some (as_saved v))
unfolding sources_of
saved_checked now id category l saved (valid v) h = (
  v,
  refl,
  subst (λ ss. saved_torrent_source id ss ≡ some (as_saved v)) (ap sources_of h)
      (saved-put id v l.sources),
)
saved_checked now id category l saved recovery h = absurd (cc h)
saved_checked now id category l saved rejected h = absurd (cc h)

-- When a source is saved for a row, it was found valid, and reading the saved source of that row
-- gives the validated fields back: all but the URL and the title, and with the origin "database_"
-- followed by the kind.
pub save-saved :
    (sha1_hex : Text → Text) (parse_url : Text → Option Url) (read_xml : Text → List Token × Bool)
    (now : ℕ) (id : Text) (t : TorrentMetadata) (category : Text) (l saved : Library)
    → save_torrent_metadata sha1_hex parse_url read_xml now id t category l ≡ valid saved
    → (v : TorrentMetadata) × (validate_source sha1_hex parse_url read_xml t ≡ valid v)
      × (saved_torrent_source id saved.sources ≡ some (as_saved v))
unfolding save_torrent_metadata
save-saved sha1_hex parse_url read_xml now id t category l saved h =
    saved_checked now id category l saved (validate_source sha1_hex parse_url read_xml t) h
