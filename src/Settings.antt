-- ===== src/Settings.antt =====
-- `validate` of internal/config/config.go, with `Validate` of internal/dashboardauth/oidc.go. The
-- records have the fields that it reads. `parse_url` stands for url.Parse.
pub mod Tests
use rehydrator.Base.{
  is_positive, All-map, max, ℕ, is_some, zero, suc, ◌+◌, ◌-◌, ◌*◌, ◌%◌, ◌≤◌, ◌<◌, min, ◌≡◌, refl,
  sym, ap, ◌∙◌, subst, ◌≢◌, ◌↔◌, ◌⊎◌, inl, inr, Bool, true, false, not, ◌&&◌, ◌||◌, Option, none,
  some, List, [], ◌∷◌, ◌++◌, map, append-nil, append_assoc, arith, ltb, leb, ◌==◌, if◌then◌else◌,
  ==_iff, ==_refl, leb→le, le→leb, lt→ltb, Bool-cases, Option-cases, &&-eq-true, ||-eq-false,
  length, take, drop, all, any, length-append, length-drop, take-append, String, drop-append, All,
  All-append, ℤ, pos, negsuc, is_negative, int_eq, eq_of_int_eq, Text, codes, text_eq,
  eq_of_text_eq, text_eq_refl, text_eq_iff, text_eq_swap,
}
use rehydrator.Base.Strings.{trim_space, has_prefix}
use rehydrator.Base.Paths.{clean, dot, dotdot, slash}
pub mod Values
pub mod Accepted

-- the fields of `url.URL` that are read; `has_user` tells that User is not nil
pub record WebUrl : Type 0 where
  pub scheme : Text
  pub host : Text
  pub has_user : Bool
  pub path : Text
  pub raw_query : Text
  pub fragment : Text

pub record OidcConfig : Type 0 where
  pub enabled : Bool
  pub issuer_url : Text
  pub client_id : Text
  pub client_secret : Text
  pub redirect_url : Text

pub record GatewayConfig : Type 0 where
  pub enabled : Bool
  pub dashboard_external_auth : Bool
  pub oidc : OidcConfig
  pub active_poll_interval_seconds : ℤ
  pub qb_username : Text
  pub qb_password : Text
  pub sonarr_category : Text
  pub radarr_category : Text
  pub api_key : Text
  pub sab_api_key : Text
  pub dav_username : Text
  pub dav_password : Text
  pub mount_path : Text
  pub download_path : Text
  pub submit_interval_seconds : ℤ

pub record JellyfinConfig : Type 0 where
  pub enabled : Bool
  pub url : Text
  pub api_key : Text
  pub refresh_mode : Text
  pub refresh_delay_seconds : ℤ
  pub timeout_seconds : ℤ
  pub inventory_enabled : Bool
  pub inventory_interval_seconds : ℤ
  pub inventory_max_refreshes : ℤ
  pub inventory_cooldown_minutes : ℤ

-- a client of an application: its synchronisation is enabled, its URL and its key
pub record AppConfig : Type 0 where
  pub sync_enabled : Bool
  pub url : Text
  pub api_key : Text

pub record AppSettings : Type 0 where
  pub role : Text
  pub gateway : GatewayConfig
  pub jellyfin : JellyfinConfig
  pub postgres_url : Text
  pub tenant : Text
  pub radarr : AppConfig
  pub sonarr : AppConfig
  pub seerr : AppConfig
  pub csi_path : Text
  pub health_addr : Text
  pub api_enabled : Bool
  pub api_require_token : Bool
  pub api_token : Text
  pub rclone_enabled : Bool
  pub rclone_url : Text

abbrev pub is_empty : Text → Bool
is_empty t = text_eq t []

-- i < n and i > n, for a limit that is not negative
abbrev pub less_than : ℕ → ℤ → Bool
less_than n (pos i) = ltb i n
less_than n (negsuc i) = true

abbrev pub more_than : ℕ → ℤ → Bool
more_than n (pos i) = ltb n i
more_than n (negsuc i) = false

abbrev pub is_role : Text → AppSettings → Bool
is_role role c = text_eq c.role role

-- cfg.Role != RoleController and cfg.Role != RoleGateway
abbrev pub serves_gateway : AppSettings → Bool
serves_gateway c = not (is_role (codes "controller") c)

abbrev pub controls : AppSettings → Bool
controls c = not (is_role (codes "gateway") c)

-- the tests of a URL that is no HTTPS URL of a host
abbrev pub is_bad_url : Option WebUrl → Bool
is_bad_url none = true
is_bad_url (some u) =
    not (text_eq u.scheme (codes "https"))
    || is_empty u.host
    || u.has_user
    || not (is_empty u.raw_query)
    || not (is_empty u.fragment)

abbrev pub has_other_path : Text → Option WebUrl → Bool
has_other_path path none = true
has_other_path path (some u) = not (text_eq u.path path)

-- Validate of the OIDC settings: false where it returns an error
unfoldable pub validate_oidc : (Text → Option WebUrl) → OidcConfig → Bool
validate_oidc parse_url c =
    not c.enabled
    || (not (is_bad_url (parse_url c.issuer_url))
        && not (is_bad_url (parse_url c.redirect_url))
        && not (has_other_path (codes "/auth/callback") (parse_url c.redirect_url))
        && not (is_empty c.client_id)
        && not (is_empty c.client_secret))

-- strings.ContainsAny(category, "/\\") and the names that are no path component
unfoldable pub is_bad_category : Text → Bool
is_bad_category category =
    is_empty category
    || text_eq category dot
    || text_eq category dotdot
    || any (λ c. c == slash || c == 92) category

-- strings.HasPrefix(filepath.Clean(inner), filepath.Clean(outer)+"/")
unfoldable pub is_inside : Text → Text → Bool
unfolding has_prefix clean
is_inside inner outer = has_prefix (clean inner) (clean outer ++ (slash ∷ []))

unfoldable pub is_bad_storage : AppSettings → Bool
unfolding has_prefix is_inside
is_bad_storage c =
    let g : GatewayConfig = c.gateway in
    not c.api_enabled
    || (serves_gateway c
        && (is_empty g.api_key
            || is_empty g.sab_api_key
            || is_empty g.dav_username
            || is_empty g.dav_password))
    || less_than 60 g.submit_interval_seconds
    || not (has_prefix g.mount_path (slash ∷ []))
    || not (has_prefix g.download_path (slash ∷ []))
    || text_eq g.mount_path (slash ∷ [])
    || text_eq g.download_path (slash ∷ [])
    || text_eq g.download_path g.mount_path
    || is_inside g.download_path g.mount_path
    || is_inside g.mount_path g.download_path

abbrev pub has_bad_app : AppConfig → Bool
has_bad_app a = is_empty a.url || is_empty a.api_key

unfoldable pub is_bad_jellyfin : JellyfinConfig → Bool
unfolding trim_space
is_bad_jellyfin j = j.enabled && (is_empty (trim_space j.url) || is_empty (trim_space j.api_key))

unfoldable pub is_bad_inventory : JellyfinConfig → Bool
is_bad_inventory j =
    j.inventory_enabled
    && (less_than 60 j.inventory_interval_seconds
        || less_than 1 j.inventory_max_refreshes
        || more_than 100 j.inventory_max_refreshes
        || less_than 1 j.inventory_cooldown_minutes)

abbrev pub is_bad_mode : Text → Bool
is_bad_mode mode =
    not (is_empty mode)
    && not (text_eq mode (codes "notification"))
    && not (text_eq mode (codes "targeted_scan"))

-- The statements `if … { return err }` of validate, in their order. The tests of `gateway.enabled`
-- after the second one are left out: it returns where that is false.
unfoldable pub rejections : (Text → Option WebUrl) → AppSettings → List Bool
unfolding validate_oidc is_bad_category is_bad_storage is_bad_jellyfin is_bad_inventory
rejections parse_url c =
    let g : GatewayConfig = c.gateway in
    let j : JellyfinConfig = c.jellyfin in
    (not (is_empty c.role)
      && not (is_role (codes "combined") c)
      && not (is_role (codes "gateway") c)
      && not (is_role (codes "controller") c))
    ∷ not g.enabled
    ∷ (controls c && is_bad_mode j.refresh_mode)
    ∷ not (validate_oidc parse_url g.oidc)
    ∷ (g.oidc.enabled && g.dashboard_external_auth)
    ∷ (less_than 15 g.active_poll_interval_seconds || more_than 3600 g.active_poll_interval_seconds)
    ∷ (serves_gateway c && (is_empty g.qb_username || is_empty g.qb_password))
    ∷ is_bad_category g.sonarr_category
    ∷ is_bad_category g.radarr_category
    ∷ is_bad_storage c
    ∷ (controls c && is_bad_jellyfin j)
    ∷ (controls c && is_bad_inventory j)
    ∷ (controls c && (is_negative j.refresh_delay_seconds || not (is_positive j.timeout_seconds)))
    ∷ is_empty c.postgres_url
    ∷ is_empty c.tenant
    ∷ (controls c && has_bad_app c.radarr)
    ∷ (controls c && c.sonarr.sync_enabled && has_bad_app c.sonarr)
    ∷ (controls c && c.seerr.sync_enabled && has_bad_app c.seerr)
    ∷ (controls c && is_empty c.csi_path)
    ∷ is_empty c.health_addr
    ∷ (controls c && c.api_enabled && c.api_require_token && is_empty c.api_token)
    ∷ (controls c && c.rclone_enabled && is_empty c.rclone_url)
    ∷ []

-- the number of the statement that returns an error, if one does
unfoldable pub first_failure : ℕ → List Bool → Option ℕ
first_failure n [] = none
first_failure n (b ∷ bs) = let rest = first_failure (n + 1) bs in if b then some n else rest

unfoldable pub validate : (Text → Option WebUrl) → AppSettings → Option ℕ
unfolding rejections first_failure
validate parse_url c = first_failure 0 (rejections parse_url c)
