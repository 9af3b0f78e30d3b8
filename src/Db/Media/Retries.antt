-- ===== src/Db/Media/Retries.antt =====
-- internal/db/provider_retries.go: the shared reservations of retries at the provider, one row for
-- every tenant and infohash.
pub mod Bounds
use rehydrator.Base.{
  ◌^◌, is_positive, All-map, max, ℕ, is_some, zero, suc, ◌+◌, ◌-◌, ◌*◌, ◌%◌, ◌≤◌, ◌<◌, min, ◌≡◌,
  refl, sym, ap, ◌∙◌, subst, ◌≢◌, ◌↔◌, ◌⊎◌, inl, inr, Bool, true, false, not, ◌&&◌, ◌||◌, Option,
  none, some, List, [], ◌∷◌, ◌++◌, map, append-nil, append_assoc, arith, ltb, leb, ◌==◌,
  if◌then◌else◌, ==_iff, ==_refl, leb→le, le→leb, lt→ltb, Bool-cases, Option-cases, &&-eq-true,
  ||-eq-false, length, take, drop, all, any, length-append, length-drop, take-append, String,
  drop-append, All, All-append, ℤ, pos, negsuc, is_negative, int_eq, eq_of_int_eq, Text, codes,
  text_eq, eq_of_text_eq, text_eq_refl, text_eq_iff, text_eq_swap,
}
use rehydrator.Db.Rows.{update}
use rehydrator.Db.Media.{
  Item, SavedSource, State, waiting_for_visibility, is_in, equals_text, named,
}
use rehydrator.Db.Media.Marks.{is_torrent_row}
use rehydrator.Db.Media.Sources.{has_torrent_source}

-- a row of media_cache_provider_retries
pub record Retry : Type 0 where
  pub tenant : Text
  pub info_hash : Text
  pub attempts : ℕ
  pub next_attempt_at : ℕ
  pub last_error : Text

abbrev pub max_retry_attempts : ℕ
max_retry_attempts = 3

abbrev pub retry_of : Text → Text → Retry → Bool
retry_of tenant hash r = text_eq r.tenant tenant && text_eq r.info_hash hash

-- the row that the EXISTS of the statement asks for
unfoldable pub waits_for_retry : Text → Text → Text → Text → List SavedSource → Item → Bool
unfolding has_torrent_source
waits_for_retry tenant id hash path sources m =
    text_eq m.tenant tenant
    && named id m
    && equals_text m.info_hash hash
    && text_eq m.symlink_path path
    && is_in waiting_for_visibility m.state
    && m.rearm_requested
    && is_torrent_row m
    && has_torrent_source sources m

unfoldable pub is_due_retry : ℕ → Text → Text → Retry → Bool
is_due_retry now tenant hash r =
    retry_of tenant hash r && ltb r.attempts max_retry_attempts && leb r.next_attempt_at now

-- 15 minutes, doubled for every attempt that was made
unfoldable pub reserve : ℕ → Retry → Retry
reserve now r = record r {
  attempts = r.attempts + 1;
  next_attempt_at = now + 900 * 2 ^ r.attempts;
  last_error = codes "retry reserved";
}

-- a new reservation, with the defaults of the table: the first attempt is due in 15 minutes
abbrev pub new_retry : ℕ → Text → Text → Retry
new_retry now tenant hash = record {
  tenant = tenant;
  info_hash = hash;
  attempts = 0;
  next_attempt_at = now + 900;
  last_error = [];
}

-- ClaimProviderRetry: the table, and whether an attempt was granted (`attempts > 0` of RETURNING)
unfoldable pub claim_provider_retry :
    ℕ → Text → Text → Text → Text → List SavedSource → List Item → List Retry → List Retry × Bool
unfolding update waits_for_retry is_due_retry reserve
claim_provider_retry now tenant id hash path sources items retries =
    if not (any (waits_for_retry tenant id hash path sources) items)
    then (retries, false)
    else if any (retry_of tenant hash) retries
    then (
      update (is_due_retry now tenant hash) (reserve now) retries,
      any (is_due_retry now tenant hash) retries,
    )
    else (retries ++ (new_retry now tenant hash ∷ []), false)

-- RecordProviderRetry
unfoldable pub record_provider_retry : Text → Text → Text → List Retry → List Retry
unfolding update
record_provider_retry tenant hash detail =
    update (retry_of tenant hash) (λ r. record r { last_error = detail })
