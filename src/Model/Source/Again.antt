-- ===== src/Model/Source/Again.antt =====
-- A source that was validated and stored validates again to itself: `Source` of
-- internal/gateway/service.go validates the stored fields before every submission.
use rehydrator.Model.Source.Parts.{
  filename_or_again, trim_space-hash, validate_nzb_again, or_true, hash_of_file, resolve_url_again,
  with_file_again, equal_fold_hash, passed,
}
use rehydrator.Base.{
  ◌≡◌, refl, sym, ap, ◌∙◌, subst, inl, inr, Bool, true, false, not, ◌||◌, Option, List, [], arith,
  ltb, if◌then◌else◌, Bool-cases, length, Text, codes, text_eq,
}
use rehydrator.Model.Source.{
  misfits_torrent, speaks, Checked, valid, recovery, rejected, Url, Token, blank, max_file,
  resolve_url, resolve_magnet, with_file_hash, validate_file, with_magnet, validate_magnet,
  validate_torrent, is_nzb, validate_source,
}
use rehydrator.Base.Strings.{to_lower, trim_space}
use rehydrator.Base.Strings.Trim.{trim_space_again}
use rehydrator.Model.Types.{
  SourceKind, nzb_file, torrent_file, magnet_link, unresolved, recovery_required, unset, other,
  TorrentMetadata,
}
use rehydrator.Model.InfoHash.{is_hash}
use rehydrator.Model.Bencode.{Scan, torrent_info, torrent_file_info_hash}

-- what the second validation needs of a stored torrent source
abbrev Stable :
    (TorrentMetadata → Checked TorrentMetadata) → TorrentMetadata → TorrentMetadata → Type 0
Stable validate t u =
    (validate u ≡ valid u)
    × (u.kind ≡ t.kind)
    × (u.nzb ≡ t.nzb)
    × (u.nzb_filename ≡ t.nzb_filename)
    × (u.torrent_url ≡ t.torrent_url)
    × (u.protocol ≡ t.protocol)

validate_file_again :
    (sha1_hex : Text → Text)
    → ((s : Text) → is_hash (sha1_hex s) ≡ true)
    → (t t' : TorrentMetadata) → validate_file sha1_hex t ≡ valid t'
    → Stable (validate_file sha1_hex) t t'
unfolding validate_file torrent_file_info_hash
validate_file_again sha1_hex hex t t' e =
    let scanned : Scan Text = torrent_file_info_hash sha1_hex t.torrent in
    let unfit : Bool =
      text_eq t.torrent [] || not (text_eq t.magnet []) || ltb max_file (length t.torrent) in
    let g = passed unfit (with_file_hash t scanned) t' e in
    let (h, scan, is, same) =
      with_file_again t t' scanned (hash_of_file sha1_hex hex (torrent_info t.torrent)) g.1 in
    subst (Stable (validate_file sha1_hex) t) same (
      rw g.0 (
          rw scan (
            rw (equal_fold_hash h is) (
              rw (or_true (text_eq h []))
                (rw (filename_or_again t.torrent_filename (codes "download.torrent")) refl)))),
      refl,
      refl,
      refl,
      refl,
      refl,
    )

no_magnet :
    {A : Type 0} (b : Bool) (p : Text × Text) → (if b then rejected else recovery) ≡ valid p → A
no_magnet true p e = absurd (cc e)
no_magnet false p e = absurd (cc e)

with_link :
    (parse_url : Text → Option Url) (u v x y : Text)
    → trim_space u ≡ u
    → (if not (text_eq u [])
        then resolve_url u v (parse_url u)
        else if text_eq v []
        then rejected
        else recovery)
      ≡ valid (x, y)
    → resolve_magnet parse_url x y ≡ valid (x, y)
unfolding resolve_magnet
with_link parse_url u v x y s = elim (Bool-cases (text_eq u [])) [
  | inl z ↦ rw z (λ e. no_magnet (text_eq v []) (x, y) e)
  | inr z ↦ rw z (λ e.
      let (again, mx, is, low) = resolve_url_again u v (parse_url u) x y e in
      rw mx (
        rw (s, trim_space-hash y is)
          (rw low
            (rw is (rw (or_true (text_eq y [])) (rw z (again ∙ ap (λ w. valid (w, y)) mx)))))))
]

resolve_magnet_again :
    (parse_url : Text → Option Url) (m h x y : Text)
    → resolve_magnet parse_url m h ≡ valid (x, y)
    → resolve_magnet parse_url x y ≡ valid (x, y)
unfolding resolve_magnet
resolve_magnet_again parse_url m h x y e =
    let m' : Text = trim_space m in
    let h' : Text = to_lower (trim_space h) in
    let rest : Checked (Text × Text) =
      if not (text_eq m' [])
      then resolve_url m' h' (parse_url m')
      else if text_eq h' []
      then rejected
      else recovery in
    let g = passed (not (text_eq h' [] || is_hash h')) rest (x, y) e in
    with_link parse_url m' h' x y (trim_space_again m) g.1

with_magnet_again :
    (t t' : TorrentMetadata) (r : Checked (Text × Text))
    → with_magnet t r ≡ valid t'
    → (p : Text × Text) × (r ≡ valid p) × (record t { magnet = p.0; info_hash = p.1 } ≡ t')
with_magnet_again t t' (valid p) e = (p, refl, cc e)
with_magnet_again t t' recovery e = absurd (cc e)
with_magnet_again t t' rejected e = absurd (cc e)

validate_magnet_again :
    (parse_url : Text → Option Url) (t t' : TorrentMetadata)
    → validate_magnet parse_url t ≡ valid t'
    → Stable (validate_magnet parse_url) t t'
unfolding validate_magnet
validate_magnet_again parse_url t t' e =
    let unfit : Bool = not (text_eq t.torrent []) || not (text_eq t.torrent_filename []) in
    let found : Checked (Text × Text) = resolve_magnet parse_url t.magnet t.info_hash in
    let g = passed unfit (with_magnet t found) t' e in
    let (p, r, same) = with_magnet_again t t' found g.1 in
    let again = resolve_magnet_again parse_url t.magnet t.info_hash p.0 p.1 r in
    subst (Stable (validate_magnet parse_url) t) same
      (rw g.0 (rw again refl), refl, refl, refl, refl, refl)

misfits_stable :
    (t u : TorrentMetadata)
    → misfits_torrent t ≡ false
    → u.nzb ≡ t.nzb
    → u.nzb_filename ≡ t.nzb_filename
    → u.torrent_url ≡ t.torrent_url
    → u.protocol ≡ codes "torrent"
    → misfits_torrent u ≡ false
misfits_stable t u m n f l p =
    rw (n, f, l, p)
      (drop_first (not (speaks t.protocol (codes "torrent"))) (not (text_eq t.nzb []))
        (not (text_eq t.nzb_filename [])) (not (blank t.torrent_url)) m)
  where
    drop_first : (a b c d : Bool) → (a || b || c || d) ≡ false → (false || b || c || d) ≡ false
    drop_first a b c d h = ground arith

module _ (sha1_hex : Text → Text) (parse_url : Text → Option Url) where
  validate_torrent_again :
      ((s : Text) → is_hash (sha1_hex s) ≡ true)
      → (k : SourceKind) (t t' : TorrentMetadata)
      → validate_torrent sha1_hex parse_url t k ≡ valid t'
      → Stable (λ u. validate_torrent sha1_hex parse_url u k) t t'
  validate_torrent_again hex nzb_file t t' e = absurd (cc e)
  validate_torrent_again hex torrent_file t t' e = validate_file_again sha1_hex hex t t' e
  validate_torrent_again hex magnet_link t t' e = validate_magnet_again parse_url t t' e
  validate_torrent_again hex unresolved t t' e = absurd (cc e)
  validate_torrent_again hex recovery_required t t' e = absurd (cc e)
  validate_torrent_again hex unset t t' e = absurd (cc e)
  validate_torrent_again hex (other k) t t' e = absurd (cc e)

-- A source that validation accepted, stored as it came out, is accepted again with no change, so
-- the submission of a saved job repeats what the client was told. The digest function yields 40
-- hexadecimal digits.
pub validate_source_again :
    (sha1_hex : Text → Text) (parse_url : Text → Option Url) (read_xml : Text → List Token × Bool)
    (t t' : TorrentMetadata)
    → ((s : Text) → is_hash (sha1_hex s) ≡ true)
    → validate_source sha1_hex parse_url read_xml t ≡ valid t'
    → validate_source sha1_hex parse_url read_xml t' ≡ valid t'
unfolding validate_source
validate_source_again sha1_hex parse_url read_xml t t' hex = elim (Bool-cases (is_nzb t.kind)) [
  | inl k ↦
      rw k (λ e.
        let (again, kind) = validate_nzb_again read_xml t t' e in rw (ap is_nzb kind ∙ k) again)
  | inr k ↦ rw k (λ e.
      let typed : TorrentMetadata = record t { protocol = codes "torrent" } in
      let g = passed (misfits_torrent t) (validate_torrent sha1_hex parse_url typed t.kind) t' e in
      let (again, kind, n, f, l, p) =
        validate_torrent_again sha1_hex parse_url hex t.kind typed t' g.1 in
      let same : record t' { protocol = codes "torrent" } ≡ t' =
        ap (λ q. record t' { protocol = q }) (sym p) in
      rw (ap is_nzb kind ∙ k, misfits_stable t t' g.0 n f l p)
        (ap (λ u. validate_torrent sha1_hex parse_url u t'.kind) same
          ∙ ap (λ k. validate_torrent sha1_hex parse_url t' k) kind
          ∙ again))
]
