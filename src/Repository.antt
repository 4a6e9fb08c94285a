-- ===== src/Repository.antt =====
-- internal/repository: what a commit may change of the catalogs of the commit before it.
pub mod DerivedRows
pub mod Sorting
pub mod AncestorEvents
pub mod Extension
pub mod PackRows
pub mod References
pub mod StreamCatalogs
pub mod NewPacks
pub mod PackDelta
pub mod Transition
pub mod History
pub mod ParseState
pub mod MirrorLedger
pub mod ValidationCache
