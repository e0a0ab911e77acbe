-- ===== src/Lib.antt =====
-- Wiredraft, the browser editor of network diagrams: the parts of it that decide what a map holds
-- and who may change it.
--
-- The server stores one JSON document per map. The editor holds a copy of it in `AppState`
-- (web/static/js/state.js), which keeps the history for undo and redo, asks `EditorLock`
-- (web/static/js/editor-lock.js) before every change, and draws racks with the geometry of
-- web/static/js/rack.js. A drag becomes a list of placement changes that
-- web/static/js/placement-sync.js replays on the newest document.
--
-- - Topology: the document (internal/model/model.go).
-- - Rack, with Rack/Landings, Rack/Faces, Rack/Placement, Rack/Snapping, Rack/Layout and
--   Rack/Units: web/static/js/rack.js.
-- - Clearance: the loop of `layoutRackGroups`, `assignRoom` and `leaveRoom` that slides a box past
--   the boxes it meets.
-- - PlacementSync, with PlacementSync/Inventory, PlacementSync/Replay, PlacementSync/Refused,
--   PlacementSync/Queue and PlacementSync/Serial: web/static/js/placement-sync.js.
-- - Document, with Document/Cabling: the comparison of documents in web/static/js/editor-lock.js.
-- - EditorLock, with EditorLock/Idle and EditorLock/Requests: the lock in
--   web/static/js/editor-lock.js and its guard of requests. The clock is an argument of every call.
-- - AppState, with AppState/Changes, AppState/Displays, AppState/History, AppState/Undo and
--   AppState/Views: web/static/js/state.js.
-- - Collaboration, with Collaboration/Revisions and Collaboration/Connection:
--   web/static/js/collaboration.js, which brings the changes of others.
-- - Autosave, with Autosave/Settings and Autosave/Saves: web/static/js/autosave.js. A flush is two
--   calls, before and after the awaited save, so that other calls can come in between.
-- - DraftRecovery, with DraftRecovery/Drafts and DraftRecovery/Pending:
--   web/static/js/draft-recovery.js, the copies of unsaved work.
-- - Systems, with Systems/Clusters and Systems/Counting: web/static/js/switch-systems.js and
--   web/static/js/firewall-clusters.js, which group devices into one logical device.
-- - LinkConfiguration, with LinkConfiguration/Profiles and LinkConfiguration/Synchronized:
--   web/static/js/link-configuration.js, the VLAN profile of a link and of its two ports.
-- - LinkGroups, with LinkGroups/Members and LinkGroups/Plan: web/static/js/link-groups.js, the
--   bundles of links.
-- - Organizations, with Organizations/Scopes: web/static/js/organizations.js.
-- - PatchPanels, with PatchPanels/Channels, PatchPanels/Mapping, PatchPanels/Update and
--   PatchPanels/Paths: web/static/js/patch-panels.js, the rear cabling of panels. A search of the
--   paths has as much fuel as there are edges, and one round more.
-- - Rooms, with Rooms/Moves, Rooms/Placing, Rooms/Leaving, Rooms/Arranging, Rooms/Outlines and
--   Rooms/Connections: web/static/js/rooms.js. The size of a drawn device is a parameter.
-- - SceneTiles, with SceneTiles/Keys, SceneTiles/Buckets and SceneTiles/Query:
--   web/static/js/scene-tiles.js.
-- - Pdf, with Pdf/Single, Pdf/Objects, Pdf/Xref and Pdf/Tiles: web/static/js/pdf-tiles.js and
--   `buildPDFDocument` of web/static/js/export.js. The method of `TextEncoder` is an argument.
-- - Labels, with Labels/Bubbles, Labels/Separate and Labels/Pointer: web/static/js/label-layout.js.
--   The search below and above an anchor has the ten thousand steps of the source.
-- - Cables, with Cables/Swaps: web/static/js/link-repatch.js, `findPort` of web/static/js/state.js
--   and web/static/js/cable-defaults.js.
-- - RackPlacement, with RackPlacement/Mounted: web/static/js/rack-placement.js.
-- - Api, with Api/Endpoints, Api/Guarded and Api/Conditional: web/static/js/api.js, the client of
--   the server. `encodeURIComponent`, the answer of the network and the texts of JSON are arguments.
-- - Prelude: Boolean tests, lists, results and integers. Tests: runs on a sample map.
--
-- Functions keep the source's names in snake case. An absent text is the empty text, a number of
-- the document is a natural number or, for a coordinate, an integer; the source's coordinates may
-- have fractions, which the model does not have. `none` as the result of a loop means that its fuel
-- was too little: the slide takes one more step than there are boxes, since every step passes a
-- box for good. Comparison of texts by locale is a parameter.
--
-- Not modelled: the Go server, drawing on canvas and DOM, the tables of the device catalogue and of
-- faceplates, and timers as such, which appear as the calls that they make.
pub mod Prelude
pub mod Topology
pub mod Rack
pub mod PlacementSync
pub mod Clearance
pub mod Document
pub mod EditorLock
pub mod AppState
pub mod Collaboration
pub mod Autosave
pub mod DraftRecovery
pub mod Systems
pub mod LinkConfiguration
pub mod LinkGroups
pub mod Organizations
pub mod PatchPanels
pub mod Rooms
pub mod SceneTiles
pub mod Cables
pub mod RackPlacement
pub mod Api
pub mod Pdf
pub mod Labels
pub mod Tests
