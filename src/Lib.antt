-- ===== src/Lib.antt =====
-- Verification of the web interface of Haul, a BitTorrent client: the TypeScript under web/ui/src.
-- The server, written in Go, is outside; its replies are inputs.
--
-- How the program is put together. The hooks of web/ui/src/api fetch the server's state through
-- apiFetch and keep it in a cache by query keys; a mutation, or a message on the socket, makes keys
-- stale, and the cache fetches them again. The dashboard filters, sorts and reorders the torrents
-- of that cache; the detail page shows a torrent's pieces, peers and trackers; dialogs add torrents,
-- confirm deletions and clean up; the settings pages edit a copy of the stored settings; the shell
-- holds the pages and adapts to the width of the window.
--
-- Which file models what:
--   Base        tests, lists, integers and texts that all parts share
--   Geometry    lib/pieceBarGeometry.ts: runsToColumns, computeFileSegments, findSegmentAt,
--               diffNewCompletions, pieceIndexToX; the loops are recursions on the rounds left
--   PieceBar    components/torrent/PieceBar.tsx: snapshots, the layers that draw paints, the
--               animation loop as a list of frames (Raf, run_frame, unmount), the tooltip;
--               View is what stands around the canvas
--   Torrents    TorrentInfo of api/torrents.ts and lib/torrentStatus.ts
--   Dashboard   pages/torrents/TorrentList.tsx: matchesStatus, sortTorrents, the filters (View,
--               passing, arranged, filtered), the pills, handleDragEnd, the queue line; Page has the
--               state of the page, its events and the chips, Cards the row of a torrent and the
--               cards of the list, Listing what else is shown, Submodals the dialogs for
--               category, tags and location
--   Upload      pages/torrents/torrentFile.ts and AddModal of TorrentList.tsx (Modal, Step;
--               View is what it shows)
--   Theme       theme.ts with all its presets; the storage and the CSS properties are maps
--   Api         shared/api.ts (Fetch) and the hooks of api/*.ts: each is the request, the key, the
--               polling interval and the keys that its success makes stale (Query, Mutation); Cache
--               lists the changes and the views of torrents
--   Connection  api/websocket.ts: useWebSocket as a state and its events
--   Sync        how the hooks, the socket and the query cache work together: the cache is an
--               interface (QueryCache), a run is a sequence of changes, messages, requests and
--               replies that arrive in any order
--   Confirm     shared/ConfirmDialog.tsx: the promises of confirm and their answers
--   History     pages/activity/ActivityPage.tsx: filters, sorting and paging; Rows has the table,
--               View the rest of what is shown
--   Timeline    pages/activity/ActivityDetailPage.tsx: title, facts, events, link to the requester; View
--               is what is shown
--   Logs        shared/LogViewer.tsx: fetchLogs and the level filter; Live has the live tail, the
--               requests under way and the effects, View what is shown
--   Cleanup     pages/system/Diagnostics.tsx: the state of a DiagnosticCard; Page has the page, the
--               tables and the dialog, History the notices and the undo, and
--               pages/system/CleanupHistory.tsx
--   App         App.tsx: the routes, and the links that lead to them
--   Categories  pages/categories/CategoriesPage.tsx: the form, the deletion and the list
--   Menu        components/torrent/TorrentContextMenu.tsx: the place of the menu; Items has its
--               items and what each sends or asks, Listeners what closes it
--   Detail      pages/torrents/TorrentDetail.tsx and components/torrent/CollapsibleSection.tsx;
--               Peers, Trackers and Stall are PeerList.tsx, TrackerList.tsx and StallCallout.tsx, View and Tables
--               are what is shown
--   Settings    components/settings/SettingsForm.tsx; Fields and Appearance are the cards and the
--               theme section of pages/settings/SettingsPage.tsx, Grid its buttons, Media is
--               pages/media-management/MediaManagementPage.tsx, Health the cards that print reports
--   Formats     shared/utils.ts, lib/format.ts and the local formats of the pages
--   Shell       shared/Shell.tsx with the links of layouts/Shell.tsx, ErrorBoundary, Modal, Pill
-- (paths from web/ui/src). Functions keep their names, written with underscores.
--
-- What stands for other code. Scaling (Geometry) is the division and rounding in floating point,
-- with its values at both ends and its monotony; Geometry.Exact is its instance for exact
-- arithmetic. Platform and the drag kit (Dashboard), Browser (Upload), JSON.parse (Api.Fetch),
-- URLSearchParams (Api), encodeURIComponent, trim, toUpperCase and startsWith are parameters.
-- Logarithm (Formats) is the logarithm and the rounding of formatBytes, Urls (Timeline) the URL class,
-- Clipboard (Detail) what the browser copies.
-- Matching (Api.Cache) is the rule of the query cache that a key matches every key it begins with;
-- QueryCache (Sync) is the cache with its invalidation and its entries, and tells which requests under
-- way an invalidation cancels; Router (App) is the matching of addresses.
--
-- Numbers. Sizes, counts and times are natural numbers; pixels and levels that may fall below 0
-- are integers. The typed arrays of runsToColumns wrap around at 2^32 and are read as signed. The
-- one loop on fuel, binary_from of Upload, has the number of bytes as its fuel, and each round
-- takes 32768 of them.
--
-- Not modelled: the rendering of pages and styles, the mounting of the application, the calls of the
-- platform that only print a date, and the server.
pub mod Base
pub mod Geometry
pub mod PieceBar
pub mod Torrents
pub mod Dashboard
pub mod Theme
pub mod Api
pub mod Upload
pub mod Connection
pub mod Confirm
pub mod History
pub mod Logs
pub mod Cleanup
pub mod Menu
pub mod Settings
pub mod Formats
pub mod Detail
pub mod Timeline
pub mod Shell
pub mod Categories
pub mod Sync
pub mod App
