-- ===== src/Settings/Tests.antt =====
-- Configurations and lists of texts at concrete inputs.
use rehydrator.Base.Strings.{lower_rune, trim, trim_left, trim_right}
use rehydrator.Settings.Values.{normalize_from, list_key}
use rehydrator.Base.Paths.{clean, clean_parts, back_up, join}
use rehydrator.Base.Strings.{split}
use rehydrator.Settings.{
  rejections, first_failure, validate_oidc, is_bad_storage, is_bad_jellyfin, is_bad_inventory,
}
use rehydrator.Base.{
  ◌≡◌, refl, true, false, Option, none, some, List, [], ◌∷◌, All, pos, Text, codes, text_eq,
}
use rehydrator.Base.Strings.{has_prefix, trim_space, to_lower}
use rehydrator.Settings.{
  WebUrl, OidcConfig, GatewayConfig, JellyfinConfig, AppConfig, AppSettings, is_bad_category,
  is_inside, validate,
}
use rehydrator.Settings.Values.{normalize_string_list}
use rehydrator.Settings.Values.Distinct.{distinct, normalize-distinct}

abbrev app : AppConfig
app = record { sync_enabled = true; url = codes "http://app:1"; api_key = codes "key" }

abbrev no_oidc : OidcConfig
no_oidc = record {
  enabled = false;
  issuer_url = [];
  client_id = [];
  client_secret = [];
  redirect_url = [];
}

abbrev gateway_at : Text → Text → GatewayConfig
gateway_at mount download = record {
  enabled = true;
  dashboard_external_auth = false;
  oidc = no_oidc;
  active_poll_interval_seconds = pos 30;
  qb_username = codes "user";
  qb_password = codes "password";
  sonarr_category = codes "sonarr";
  radarr_category = codes "radarr";
  api_key = codes "key";
  sab_api_key = codes "key";
  dav_username = codes "user";
  dav_password = codes "password";
  mount_path = mount;
  download_path = download;
  submit_interval_seconds = pos 60;
}

abbrev jellyfin : JellyfinConfig
jellyfin = record {
  enabled = false;
  url = [];
  api_key = [];
  refresh_mode = codes "notification";
  refresh_delay_seconds = pos 45;
  timeout_seconds = pos 20;
  inventory_enabled = true;
  inventory_interval_seconds = pos 1800;
  inventory_max_refreshes = pos 5;
  inventory_cooldown_minutes = pos 360;
}

abbrev config_at : Text → Text → AppSettings
config_at mount download = record {
  role = codes "combined";
  gateway = gateway_at mount download;
  jellyfin = jellyfin;
  postgres_url = codes "postgres://db";
  tenant = codes "home";
  radarr = app;
  sonarr = app;
  seerr = app;
  csi_path = codes "/storage/media";
  health_addr = codes ":8080";
  api_enabled = true;
  api_require_token = true;
  api_token = codes "token";
  rclone_enabled = false;
  rclone_url = [];
}

abbrev no_url : Text → Option WebUrl
no_url s = none

abbrev config : AppSettings
config = config_at (codes "/mnt/cloud") (codes "/downloads")

nested_refused : validate no_url (config_at (codes "/mnt") (codes "/mnt/../mnt/a")) ≡ some 9
unfolding validate rejections first_failure validate_oidc is_bad_category is_bad_storage
    is_bad_jellyfin is_bad_inventory is_inside has_prefix clean split clean_parts back_up join
    trim_space
nested_refused = refl

-- two spellings of one directory are accepted
same_directory_accepted : validate no_url (config_at (codes "/mnt/a/") (codes "/mnt/a")) ≡ none
unfolding validate rejections first_failure validate_oidc is_bad_category is_bad_storage
    is_bad_jellyfin is_bad_inventory is_inside has_prefix clean split clean_parts back_up join
    trim_space
same_directory_accepted = refl

abbrev titles : List Text
titles = codes " Trailer " ∷ codes "" ∷ codes "trailer" ∷ codes "Intro" ∷ []

normalized : normalize_string_list titles ≡ codes "trailer" ∷ codes "intro" ∷ []
unfolding normalize_string_list normalize_from list_key to_lower lower_rune trim_space trim
    trim_left trim_right
normalized = refl

normalize-distinct_example :
    All (λ k. text_eq k [] ≡ false) (normalize_string_list titles)
    × (distinct (normalize_string_list titles) ≡ true)
normalize-distinct_example = normalize-distinct titles
