-- ===== src/Tests.antt =====
-- Runs of the models on concrete inputs, and the theorems at them.
mod Data
mod Decimal
mod Rows
mod Objects
mod Packs
mod Index
mod FormatFile
mod Catalogs
mod Manifest
mod Mirrors
mod Merges
mod Transition
mod Ignore
mod History
mod Caches
mod ParseState
mod StreamCatalogs
mod Extsort
