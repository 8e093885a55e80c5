-- ===== src/Lib.antt =====
-- Regal, a linter, fixer and language server for Rego: its fixer, its linter and configuration, the
-- handlers, the cache, the URIs and the semantic tokens of its language server, and the helpers that
-- these stand on.
--
-- A run of `regal fix` reads the files into memory (pkg/fixer/fileprovider/inmem.go), lints them,
-- applies one fix, and lints again until nothing is left that can be fixed (pkg/fixer/fixer.go). A fix
-- (pkg/fixer/fixes) returns new contents or a move; a move onto a path that is taken is a conflict,
-- which is reported or avoided by another name (pkg/fixer/rename.go). The report (pkg/fixer/report.go)
-- says what was done, and at the end cmd/fix.go removes and writes the files on the disk.
--
-- The linter (pkg/linter/linter.go) merges the configuration of the user into the default one
-- (pkg/config/config.go), refuses names of rules that it does not know, evaluates its rules for each
-- file in the policy engine, and joins the reports. The language server (internal/lsp/server.go) keeps
-- the files of the editor in a cache of concurrent maps, parses a file whenever its contents change, and
-- has a worker that lints what the cache holds and sends the diagnostics (internal/lsp/lint.go).
--
-- Which file models which code:
--   Base        what the files share: tests, lists and texts over native numbers, Go's `int`, maps as
--               association lists, and `Outcome`, the result of a call that may fail or panic
--   Go          what the code uses of Go: slices, `strings`, `path/filepath`, `strconv`
--   Util/Set    `Set` of internal/util/set.go
--   Util/Roots  `FindClosestMatchingRoot` of internal/util/util.go
--   Util/Lines  `Line`, `LineContents`, `NumLines` and `IndexByteNth` of internal/util/util.go
--   Util/Slices `Filter`, `FindFirst`, `Or`, `MapKeys` and `MapGetOr` of internal/util/util.go
--   Semver      internal/semver/semver.go: `Parse` and `String`; Semver/Order is `Compare`
--   Lsp/Tokens  `Full` of internal/lsp/semantictokens/semantictokens.go
--   Config/Filter    pkg/config/filter.go
--   Profile          profiles and the count of files of pkg/report/report.go
--   Config/Settings  pkg/config/config.go and pkg/config/bundle.go: the untyped values that the libraries
--                    decode (Values), the types, the reading of rules and capabilities (Rules, Source),
--                    and the levels of the merged configuration (Levels)
--   Linter           pkg/linter/linter.go: the linter and its options, `validate`, `GetConfig` and
--                    `Prepare`, the joining of reports (Merge), the notices, and `Lint` (Run)
--   Lsp/Concurrent   pkg/roast/util/concurrent/map.go: the operations, and the calls of several threads as
--                    sequences of steps
--   Lsp/Cache, Lsp/CachedFiles
--                    internal/lsp/cache/cache.go, and pkg/fixer/fileprovider/cache.go over it
--   Lsp/Uri          internal/lsp/uri/uri.go and internal/lsp/clients/clients.go
--   Lsp/Types, Lsp/Diagnostics
--                    positions and diagnostics of internal/lsp/types/types.go, and what
--                    internal/lsp/lint.go makes of errors and violations
--   Lsp/Server       internal/lsp/server.go and internal/lsp/lint.go: `updateParse`, the handlers of
--                    notifications on files (Handlers), the worker that lints (Linted), what a handler
--                    does that runs alone (Fresh), and the handlers and workers as threads whose calls
--                    on the cache follow one another in any order (Threads), as the goroutines of
--                    internal/lsp/connection/connection.go do
--   Fixer/Provider   the interface `FileProvider` of pkg/fixer/fileprovider/fp.go, and its laws
--   Fixer/InMemory   `InMemoryFileProvider` of pkg/fixer/fileprovider/inmem.go
--   Fixer/WriteBack  the end of `fix` in cmd/fix.go
--   Fixer/Fixes      pkg/fixer/fixes: NoWhitespaceComment (Whitespace), UseAssignmentOperator
--                    (Assignment), PreferEqualsComparison (Comparison), DirectoryPackageMismatch
--                    (Directory), RedundantExistenceCheck and ConstantCondition (Removal)
--   Fixer/Report     pkg/fixer/report.go
--   Fixer/Candidate  `renameCandidate` of pkg/fixer/rename.go
--   Fixer/Setup, Fixer/Renaming, Fixer/Run
--                    pkg/fixer/fixer.go: the fixer and its registration, `handleRename`, and the
--                    loops `Fix`, `applyLinterFixes`, `applyOneFix` and `FixViolations`
--
-- Texts are lists of bytes, and a method that changes its receiver returns the new state. The two loops
-- of the fixer that Go does not bound run on fuel: a round of linting takes one unit, and so does an
-- attempt to rename. The names that are tried differ, so that more attempts than there are files reach
-- one that is free; how many rounds are enough depends on the linter, so the theorems on a run speak of
-- runs that end. The loop of `Compare` takes one unit a round, of which there is one for each identifier
-- of the shorter pre-release, unless no identifier tells the two apart.
--
-- Handlers.antt has the handlers as functions on the state; a statement about them is one about a handler
-- that no other thread interrupts. The server is one with a workspace and a fixed configuration; its queues are the lists of the jobs that
-- were sent, and what it writes to its log is left out.
--
-- Parameters: for the fixer, the linter, which runs Rego in the policy engine; `filepath.Abs`; the
-- engine's `Atoi` and its parser of a package's path; the library of globs and the walk over a directory;
-- the fixes that a fixer is given; for the linter, the record `Engine` of the evaluation of queries, the
-- merging of objects, and the reading of inputs; for the configuration, the libraries of YAML, JSON and
-- merging, and the table of capabilities; for the server, the parser, the conversion of a module for the
-- store, and the references that a module defines. Not modelled: the formatter's fixes, which call the
-- policy engine; directories and file modes; the loading of a workspace, the commands and the requests
-- of the language server, which are calls of the policy engine over JSON-RPC; the reporters; the
-- conversions between syntax trees; the debug adapter; the command line.
pub mod Base
pub mod Go
pub mod Util
pub mod Fixer
pub mod Profile
pub mod Semver
pub mod Lsp
pub mod Config
pub mod Linter
