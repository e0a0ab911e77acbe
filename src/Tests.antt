-- ===== src/Tests.antt =====
-- Runs of the model on small maps, and the theorems at inputs that meet their hypotheses.
mod Samples
mod RackTests
mod PlacementTests
mod LockTests
mod HistoryTests
mod UpdateTests
mod DraftTests
mod SystemTests
mod LinkTests
mod ScopeTests
mod PanelTests
mod RoomTests
mod TileTests
mod CableTests
mod ApiTests
mod ExportTests
