-- ===== src/Lib.antt =====
-- Verification library of the backup program: its canonical metadata formats, and what a commit
-- may change of them.
--
-- The program keeps a repository's metadata in text files of tab-separated rows, in a git
-- history, and the content of files in encrypted packs on object mirrors. internal/format reads
-- and writes every one of these files, and the other packages trust what it accepts.
-- internal/repository decides which state may follow which: a repair moves parts of packs, an
-- ordinary transition adds to the catalogs.
--
-- Parts
--   Base            shared names: Boolean tests, lists measured by native numbers, `Result` for Go's
--                   (value, error), and `Bytes`, lists of numbers below 256 in Go's string order.
--   Format.Errors   one constructor for each message of a Go error, without the values it prints.
--   Format.Decimal  internal/format/canonical.go: parseUint, parseInt64, canonicalUnsigned,
--                   canonicalSigned, uintText, intText. The printer's fuel is 20 digits; a uint64
--                   has no more.
--   Format.Utf8     utf8.Valid.
--   Format.Rows     canonical.go: Limits, trackedReader, splitLF, scanRows, readRows, marshalRows,
--                   validateRawField, requireFieldCount.
--   Format.Patterns metadata.go: the regular expressions.
--   Format.Tables   stream.go: the visitor that WalkIndex, WalkObjects and WalkPacks share.
--   Format.Objects, Format.Packs, Format.Index
--                   metadata.go and stream.go: the three catalogs, their writers, their streaming
--                   readers and their validators.
--   Format.Paths    metadata.go: ValidatePath, ValidateSymlinkTarget, with path.Clean.
--   Format.FormatFile
--                   metadata.go: RepositoryFormat.
--   Format.Catalogs metadata.go: ValidateCatalogs and ObjectKey, which tie the catalogs together.
--   Format.Manifest manifest.go: the manifest of an encrypted metadata bundle.
--   Format.Mirrors  metadata.go: MarshalMirrors, ParseMirrors, validateMirror; url.Parse is a
--                   parameter.
--   Format.Ignore   configtext.go: readConfigLines, ParseIgnore, Ignore.Match; the expressions of
--                   package regexp are a parameter.
--   Repository.DerivedRows
--                   internal/repository/stream_state.go: derivedRows, and the comparisons of
--                   stream_transition.go.
--   Repository.Extension, Repository.PackRows, Repository.NewPacks
--                   stream_transition.go: mergeCatalogExtension, the loop over the packs of
--                   validateStreamOrdinaryExtension, isStreamRepairTransition,
--                   requireNewPackReferences.
--   Repository.References
--                   stream_state.go: mergeIndexObjects and mergeObjectPacks.
--   Repository.PackDelta
--                   pack_delta.go: WalkChangedPacks, ValidateCatalogStateForSnapshot, FindPackPart.
--   Repository.Transition
--                   validateStreamTransition, with the parts of state.go that it calls. The tests of
--                   libsodium's key chains are parameters.
--   Extsort         internal/extsort/sort.go: SortFiles, with normalized, openLineReader, writeRecords
--                   and mergeRuns. A file is its bytes.
--   Repository.Sorting
--                   the calls of SortFiles in internal/repository, with the closures firstField and
--                   keyFirstField; `sort_rows` is what a reader of the sorted file gets.
--   Repository.AncestorEvents, Repository.StreamCatalogs
--                   stream_state.go: validateStreamCatalogs and validateAncestorEvents.
--   Repository.History
--                   history_validate.go: ValidateHistory and compactMirrorTopology, with
--                   ValidateGenesis of state.go and validationCache of cache.go. What they rely on, git
--                   and package libsodium among it, is one record `Environment`.
--   Repository.ValidationCache
--                   cache.go: validateValidationCache and writeValidationCache, with isGitOID and
--                   topologySnapshot; Runs is ValidateHistory run again and again as commits are added.
--   Repository.MirrorLedger
--                   history.go: ValidateMirrorTopology.
--   Repository.ParseState
--                   state.go and stream_state.go: ParseState, ParsePreparationState, parseMemoryState and
--                   parseStreamState. libsodium's ParseKeyChains, BLAKE2b, url.Parse and package regexp
--                   are one record `Libraries`.
--   Tests           runs on concrete inputs.
--
-- A method of a type is a function that takes the value. A streaming reader takes a visitor with
-- its state passed along; `ParseIndex` and the like are the streaming readers with a visitor that
-- collects. Machine integers are numbers with the wrap-around written out (`% 2 ^ 64`); a record of
-- widths says where a theorem needs that a field is a uint32, a uint64 or an int64. The loop over
-- the parents of a path runs on the length of the path as fuel, which is shown to be enough.
--
-- The external sort runs three loops on fuel: the loop of mergeRuns on the number of records still to
-- be written, a pass over the runs and the loop of passes on the number of runs; each is enough,
-- since a round writes a record, a group takes two runs or more (MaxOpenFiles is 2 at least) and a
-- pass leaves fewer runs. The heap of mergeRuns is a list of which a least node is taken, and a node
-- carries the reader of its run; records that compare equal are equal, so that it does not matter
-- which of them a heap pops. A limit of Options that is 0 stands for one that is not positive.
--
-- A history is walked over a list of identifiers, as `git rev-list` lists them; what validateCommit
-- reads of a commit is a function of its identifier, and a parameter. The identifiers of a commit's
-- blobs are a list in the order of RequiredBlobNames.
--
-- A merge of two sorted files is a recursion on the rows that their scanners deliver; that a scanner
-- fails in the end is a flag of the file.
--
-- Not modelled: the chunks in which a reader delivers its bytes; the texts of error messages; the
-- calls of git, of the file system and of mirrors; the files behind a History and of the validation
-- cache, with the JSON in it; states that stand in files (ParseFileState); compression and
-- encryption.
pub mod Base
pub mod Format
pub mod Extsort
pub mod Repository
pub mod Tests
