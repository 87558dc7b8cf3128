-- ===== src/Lib.antt =====
-- dindexer keeps an index of the files on removable media. `scan` walks a directory, fills a record
-- for each entry and sorts the records by level, kind and path; the sorted listing is browsed as a
-- tree, and its content type is guessed from it. A backend stores the set, and `navigate` walks through
-- what is stored by paths and commands.
--
-- The parts, and where the program has them:
--   * StringPool: src/machinery/stringpool.hpp and stringpool.inl. A pool holds source texts with reference
--     counts, and ranges into them. A `string_ref` is the range that it spans in its source; an address
--     of a source is its index.
--   * Split: src/core/split.cpp, include/dindexer-core/split_tags.hpp.
--   * PathName: src/machinery/pathname.cpp. The atoms of a path are the texts of a pool; a pool is
--     filled by `insert` of what `split_path` or `split` finds, and shortened by `pop`.
--   * RecordData: include/dindexer-machinery/recorddata.hpp and tiger.hpp.
--   * SetListing: src/machinery/set_listing.cpp, include/dindexer-machinery/set_listing_helpers.hpp.
--     An iterator stands for what is left of the list from `m_current` to `m_end`; it compares the
--     parent of a record's path with the base path as `PathName`s.
--   * ContentType: src/machinery/guess_content_type.cpp, on flattened views of a listing.
--   * FileSearcher: src/machinery/filesearcher.cpp. The entries that nftw() reports are a list.
--   * Scan: src/machinery/scantask/dirtree.cpp, which keeps the records of these entries sorted by
--     SetListing's `lower_bound`, and the lazy tasks of include/dindexer-machinery/scantask.
--     Scan.Hashing is src/machinery/scantask/hashing.cpp, with Reference as its description on records; a
--     file that cannot be opened ends it, since tiger_file then reads out of bounds.
--     Scan.Media is src/machinery/scantask/mediatype.cpp and contenttype.cpp, Scan.Files singlefile.cpp
--     and mime.cpp.
--   * RecordTree: src/machinery/make_filerecord_tree.cpp. Nodes are numbers.
--   * Redis.Delete, Redis.Tag: src/backends/redis/delete.cpp and tag.cpp. The result is the list of the
--     commands or scripts that are sent.
--   * Redis.Keys: the scripts src/backends/redis/tag_if_in_set.lua and dele_tag_if_in_set.lua, as steps
--     on the fields of files and the sets of tags; AnySet has the runs that tag.cpp makes of them.
--   * Postgres: src/backends/postgresql, as the queries that are sent. Tag, Navigate, Locate, Scan and
--     Delete are the files of these names; Prepared says what the text of a query asks of its parameters.
--   * DiscInfo: src/machinery/discinfo.cpp and mediatype.cpp. The lines of /proc/mounts are a list.
--   * Redis.Write: write_files of src/backends/redis/backend_redis.cpp, as the commands that it sends.
--   * Hashing: src/machinery/tiger.cpp, the hashes of a file and the text of a hash; the
--     block functions of the copied tiger.c are parameters.
--   * Redis.Find: src/backends/redis/find.cpp, with the replies of the server as functions of keys.
--   * Command, EntryPath, ListDirContent: src/navigate/commandprocessor.cpp, entrypath.cpp and
--     listdircontent.cpp. Exceptions are results.
--   * SearchPaths: src/core/searchpaths.cpp.
--   * Launcher: src/main. FindActions and CommandLine are findactions.c and main.c; Utf8 and Distance are
--     utf8_ops.c and damerau_levenshtein.c, on which the hint for a misspelled action stands.
-- Common has the shared names, lists over native numbers, and text as lists of bytes with an
-- independent description of splitting. Tests has instances of the interfaces, and concrete runs.
--
-- Parameters: what Boost does is an interface in Boost (`find` of a text in a text, `iter_split`,
-- `trim_copy`); fnmatch, directory listings, the entries that nftw() reports, the kinds of devices, replies of the servers, the answers
-- of a database to the navigator, conversions of numbers, and the grammar of commands, which stands on
-- Boost.Spirit, are functions. The grammar of entry paths is written out.
--
-- Bounds and fuel: sizes are unbounded, but levels and MIME offsets are cut to 16 bits where they are
-- converted, and argument counts to 32. A sum of ints in the text distance that overflows, which C leaves
-- open, is 0. `split_path` has the length of its text and one more round as
-- fuel, a loop over a view the length of its list, and flattening one level per record and one more; hash_dir has the length of
-- the list; the search for a mount point has the number of atoms and one more round.
--
-- Not modelled: what only talks to the outside (the servers, the file system, libblkid, libmagic,
-- option parsing), the block functions of the tiger hash, and the vendored libraries. `assert`s of the
-- source are no code; where one states a property, it is a hypothesis or a theorem.
pub mod Boost
pub mod Command
pub mod Common
pub mod ContentType
pub mod DiscInfo
pub mod EntryPath
pub mod FileSearcher
pub mod Hashing
pub mod Launcher
pub mod ListDirContent
pub mod PathName
pub mod Postgres
pub mod RecordData
pub mod RecordTree
pub mod Redis
pub mod Scan
pub mod SearchPaths
pub mod SetListing
pub mod Split
pub mod StringPool
pub mod Tests
