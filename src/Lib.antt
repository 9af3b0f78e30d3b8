-- ===== src/Lib.antt =====
-- Rehydrator keeps a media library whose files live at a cloud provider: it saves the source of
-- every download (a magnet, a torrent file or an NZB), submits it to the provider, polls the
-- placement, publishes the provider's file catalog below a WebDAV mount and hands the result to the
-- Arr programs.
--
-- Parts of the program and the files here:
--   Base, Base/Tests, Base/Lists, Base/Int, Base/Texts — library names, Boolean tests, list lemmas
--     over the native numbers, 64-bit file sizes as integers, texts as lists of runes or bytes.
--   Base/Strings, Base/Paths — what the code uses of Go's `strings`, `path` and `filepath`.
--   Model/Types — `TorrentMetadata`, `SourceKind` and the protocols (internal/model).
--   Model/Bencode — `TorrentFileInfoHash`, `ValidateGatewayTorrent` and their `bencodeReader`
--     (internal/model/torrent_file.go). The reader's position is the rest of the input. The
--     recursive `skip` runs on fuel, `fuel_for` the input, and Model/Bencode/Fuel shows it enough.
--     SHA-1 with its hex digits is a parameter. Model/Bencode/Grammar describes the values.
--   Model/InfoHash, Model/Source — `NormalizeInfoHash`, `DownloadKey`, `DownloadProtocol`,
--     `ValidateSource`, `validateNZB` and `ResolveMagnet` (internal/model/torrent.go, nzb.go). The
--     URL and XML parsers and the digest are parameters.
--   Torbox/Listing — `availability`, `LookupTorrent` and `FindActive` (internal/torbox/health.go,
--     torrent_gateway.go). The answers of the requests are a parameter; the loop runs over the
--     source's limit of 100 pages.
--   Torbox/Types, Torbox/Failure, Torbox/Catalog — `UsenetDownload`, `FailureMessage`, `Ready` and
--     `ValidateUsenetFiles` (internal/torbox/usenet.go, failure.go).
--   Db/Rows — UPDATE … WHERE and SELECT … ORDER BY … LIMIT 1 on a table as a list of rows.
--   Db/Jobs and its modules — the table gateway_jobs of one tenant and every statement that changes
--     it (internal/db/gateway_jobs.go, gateway.go, gateway_mount.go, gateway_release_folder.go,
--     gateway_diagnostics.go, provider_status.go). A transaction is one function on the tables; the
--     clock is an argument, in seconds.
--   Db/Media and its modules — the table media_cache_state, its claims and every statement of
--     internal/db/repo.go that changes it, with its saved sources and tombstones; stale_pruning.go,
--     archived_recovery.go, provider_retries.go and the passes of file_health.go. Db/Media/Lifecycle
--     lists these statements as values that run one after the other.
--   Db/Media/NzbJobs, Db/Media/Seerr — `EnsureNZBJob` (internal/db/usenet.go) and `RequestSeerrTV`
--     (seerr_tv.go), without the events that the latter writes. Season numbers are in range.
--   Db/Grabs — the table media_cache_grab_sources with the statements of internal/db/grab_sources.go
--     on it and the checks of internal/db/schema.sql. Db/Grabs/Links — `linkGrabSources` and
--     `CurrentGrabSourcePending`, which join it with the media.
--   Controller — `handleRearm`, `handleVisibility`, `waitForCSI` (internal/controller/controller.go)
--     with rearm.go and readiness.go. The gateway and the probes are arguments. `waitForCSI` runs on
--     fuel, a turn for every second of its timeout and one more, which Controller/Wait shows enough.
--     Controller/Refresh — `reserveJellyfinRefresh`, with the answer of the database as an argument.
--   Arr — `RemoveMissingImportedFile` (internal/arr/missing_file.go), with the answers of Radarr or
--     Sonarr to its requests as an argument, which reading requests leave as they are.
--   Settings — `validate`, the readers of environment values (internal/config/config.go) and the
--     OIDC rules (internal/dashboardauth/oidc.go).
--   Gateway/Release, Gateway/Catalog — `releaseFolder`, `validReleaseFolder` and `sameCatalog`
--     (internal/gateway/release_folder.go, service.go).
--   Gateway/Reconcile — `Reconcile` of internal/gateway/service.go: the outcome of a submission and
--     every branch of a poll. Provider calls are arguments.
--   Gateway/Staging — `createLinks`, `safeStagingParents`, `removeStagedLinks` and the paths they
--     use (service.go and internal/gateway/qbit.go), on a file system as a list of paths. The
--     configured download root exists and is trusted.
--   Gateway/Mount — `verifyMount` and `ReconcileMount` of service.go. Whether a byte of a path
--     could be read is an argument.
--   Gateway/Pass — a whole call of `Reconcile`: the lookup of unknown outcomes, the claim, the
--     submission or the poll, and the verification behind a publication.
--   Csi/Probe — `ReadProbe` of internal/csi/probe.go as a step relation: a step starts a check or
--     ends a read.
--   Gateway/Budget — any number of replicas on one table, as a step relation: every transaction
--     and every add request is a step, in any order, and a worker may stop between any two.
--
-- Not modelled: the HTTP clients and handlers and the YAML decoding of the configuration; how Seerr
-- requests are recorded and matched (internal/db/repo.go, seerr_tv.go); the calls of Jellyfin; the
-- library syncers; the web dashboard. Errors of the database connection end an operation without
-- effect and are not values.
pub mod Base
pub mod Model
pub mod Db
pub mod Arr
pub mod Controller
pub mod Settings
pub mod Torbox
pub mod Csi
pub mod Gateway
