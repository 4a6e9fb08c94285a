-- ===== src/Format.antt =====
-- internal/format: the canonical on-disk metadata formats.
pub mod Errors
pub mod Decimal
pub mod Utf8
pub mod Rows
pub mod Patterns
pub mod Tables
pub mod Objects
pub mod Packs
pub mod Paths
pub mod Index
pub mod FormatFile
pub mod Catalogs
pub mod Manifest
pub mod Mirrors
pub mod Ignore
