-- ===== src/Lib.antt =====
-- A model of aurhub: the indexer writes a snapshot of package metadata, the server maps it and
-- answers queries.
--
-- The parts and where they are modelled:
--
-- src/model.hpp: Model.antt, the structures. Bytes.antt is std::string and std::string_view, a
-- list of numbers below 256; Bytes/Case.antt says which texts differ only in the case of letters.
--
-- src/snapshot.cpp, the file format: Snapshot/Format.antt has the structures and the accessors of
-- `SnapshotView`. A snapshot file is kept as its regions, each the array that stands at the
-- offset which the header names.
--
-- src/snapshot.cpp, the writer: Snapshot/Block.antt has `SearchBlock` and `add_search_text`,
-- Snapshot/Builder.antt `write_search_blocks`, Snapshot/Writer.antt `write_snapshot`. What the
-- writer may throw is `WriteError`. The compression is a parameter, and so is the clock.
--
-- src/snapshot.cpp, the reader: Snapshot/Reader.antt has the checks of the constructor of
-- `SnapshotView`, with `ReadError` for what they throw.
--
-- src/search.cpp: Search/Query.antt has the test of a query against the bitmaps of a block,
-- Search/Scan.antt the search with its statistics, as one state that the loops pass on.
--
-- src/srcinfo.cpp: Srcinfo/Text.antt has `trim` and the lines, Srcinfo/Key.antt the keys,
-- Srcinfo/Fields.antt the values and the diagnostics, Srcinfo/Parse.antt the loop of
-- `parse_srcinfo` with its locals as the record `Parser`, Srcinfo/Output.antt the checks behind
-- the loop and the packages, Srcinfo/Report.antt the counts, names and the search text.
--
-- src/http.cpp: Http/Text.antt has the functions on header names, token lists and query strings,
-- Http/Response.antt the responses with a text as their body, and
-- Http/Request.antt `parse_http_request`, which is given `route_request`. A request has as many
-- bytes as its loop over the fields has fuel, and each field takes at least two.
--
-- src/connection.cpp: Connection.antt has the buffers of a connection and `prepare_next_response`,
-- which is given the answer to a request; Connection/Served.antt gives it `parse_http_request`.
--
-- src/generation.cpp and src/generation.hpp: Generation/Format.antt has the structures of an overlay
-- file, which is kept as its regions like a snapshot, and `GenerationError` for what may be thrown.
-- Generation/Ref.antt reads what a reference names, Generation/View.antt has the accessors of
-- `GenerationView`, Generation/Check.antt the checks of its constructor, Generation/Open.antt the
-- constructor with the tables that it fills, Generation/Find.antt `find_package`,
-- Generation/Search.antt `search`, Generation/Writer.antt `write_generation_overlay`. A view has an
-- overlay or none, as `header_` is null or not. Generation/Table.antt says what the tables are to
-- hold. The binary search runs on fuel, of which the number of packages is enough.
--
-- src/merge.cpp and src/merge.hpp: Merge/Names.antt has the table of the package names,
-- Merge/Candidate.antt the candidates, their order and the three streams, Merge/Inputs.antt
-- `merge_generation_inputs`, with the locals that its loop changes as the record `Merging`. The loop
-- runs on fuel, of which the number of all packages is enough.
--
-- Tests.antt has the theorems at concrete inputs. Base.antt and Bits.antt are shared helpers, and
-- Base/Result.antt is code that may throw.
--
-- The other loops are structural: over a list, or over the number of steps that are left. Numbers are
-- native; 16, 32 and 64 bit arithmetic wraps where the source can reach the bound, and is
-- exact where a guard keeps it below.
--
-- Not modelled: system calls and the loops that move bytes to a descriptor, zlib, libgit2, the
-- JSON of a package, the hard links of the
-- generations, the server, the HTTP routes and their results, and the indexer's driver.
pub mod Base
pub mod Bits
pub mod Bytes
pub mod Model
pub mod Snapshot
pub mod Search
pub mod Srcinfo
pub mod Http
pub mod Generation
pub mod Merge
pub mod Connection
pub mod Tests
