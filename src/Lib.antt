-- ===== src/Lib.antt =====
-- libgeodesk reads geographic object libraries (GOLs): files that hold tiles of features, reached
-- through a tile index, and kept in a store of pages. Its two layers are `clarisma` (files,
-- stores, encodings, containers) and `geodesk` (geometry, features, queries). This library models:
--
-- * Varint (include/clarisma/util/varint.h, varint_safe.h): the variable-length numbers in
--   which tiles keep coordinates, tags and members. Definitions are in Varint.antt;
--   Varint/Write, Read, SafeRead, Size, Zigzag, Skip and SkipBack hold the lemmas of each
--   family of operations. A byte pointer is the list of bytes from it on, and a read behind the
--   last byte gives `none`. 64-bit and 32-bit words keep their wrap-around. The loop of
--   writeVarint is recursion on the value by accessibility; the unrolled reads carry the number
--   of bytes that may follow.
-- * OrderedSet (the use of include/clarisma/data/BTreeSet.h): the interface of an ordered set
--   of keys, whose implementation is third-party; OrderedSet/ListSet fills it with lists.
-- * FreeStore (include/clarisma/libero/FreeStore.h, FreeStore_Transaction.h,
--   src/clarisma/libero/FreeStore_Transaction.cpp): the page allocator of a store.
--   `Transaction` is the part of the header and of the transaction that the allocator reads and
--   writes; allocPages is `alloc_pages` (with `take_range` and `alloc_virgin` for its two
--   halves), performFreePages is `perform_free_pages` (with `trim`, `coalesce_right`,
--   `coalesce_left` and `add_range` for its blocks), freePages is `free_pages`, the first loop
--   of commit is `free_staged`, and beginCreateStore with setMetaSectionSize are the creation
--   of a store. The fuel of `trim` is one more than the number of free ranges: each round takes
--   one away. FreeStore/Ranges says what keeps the two sets in step, FreeStore/Valid is the
--   invariant, FreeStore/Allocated what an allocation promises; Take and Virgin prove it for
--   the two halves of allocPages, Trim, Coalesce and Free treat the blocks of performFreePages,
--   and Alloc, Perform, Commit and Create the whole operations. FreeStore/Index models the
--   free-range index, which commit writes into the file and begin reads: Index/Words is about
--   its numbers, Index/Count about the slots that it needs, Index/SameRanges and
--   Index/RoundTrip about reading what was written.
-- * DiskFile (the use of include/clarisma/io/FileHandle.h): the interface of a file of bytes,
--   whose calls the operating system answers; DiskFile/ListFile fills it with lists, and
--   DiskFile/Overwrite holds the lemmas on writes inside a file.
-- * Crc32C (include/clarisma/util/Crc32C.h, src/clarisma/util/Crc32C.cpp): the checksum of the
--   store, by its table. Crc32C/Table compares the table with the polynomial, Crc32C/Chunks is
--   about sums over parts.
-- * Journal (include/clarisma/libero/FreeStore_Journal.h,
--   src/clarisma/libero/FreeStore_Journal.cpp, and verifyHeader, verifyJournal and applyJournal
--   of src/clarisma/libero/FreeStore.cpp): the rollback journal. A transaction copies a block
--   to it before it edits the block, and seals it before it writes to the store. Journal/Stream
--   says what the writer has put into the file, Journal/Verify and Journal/Recover what the
--   reader makes of it, Journal/Header treats the header, Journal/Buffer the bounds of the
--   buffer, Journal/Unreset a journal that was not reset, and Journal/Fuel the rounds of the
--   check. The fuel of the reader's loops is one more than the length of the journal: each
--   round takes 4104 bytes. The buffer's size is at least 8192, as `open` asserts, and a
--   multiple of 4096, as a comment in addBlock says; with other sizes the source could write
--   behind its buffer, which the model does not show. A number behind the end of a journal
--   reads as if zeros followed.
-- * Recovery (stageBlock and the writes of commit in
--   src/clarisma/libero/FreeStore_Transaction.cpp, ensureIntegrity of
--   src/clarisma/libero/FreeStore.cpp): what a commit and a crash leave, and what the next
--   opening does. `commit` is the part behind freeing pages and behind writing the index of
--   free ranges; the order in which the hash map of edited blocks is read is an argument.
--   Recovery/Example holds a store for tests, Recovery/Staged says what the journal holds of
--   staged blocks, Recovery/Crash treats a crash among the writes of a commit, Recovery/Written
--   the bytes of written blocks, Recovery/Commit a commit that ends, Recovery/Verdicts the
--   results of a check.
-- * Opening (FreeStore::open in src/clarisma/libero/FreeStore.cpp): the rounds in which a store
--   is opened. An `Answer` is what one round finds: whether a lock is granted, and the store
--   and the journal by then; the loop has as many rounds as there are answers. Opening/Rollback
--   treats a store whose last commit crashed, Opening/Stale a reader that a commit overtakes.
-- * Tile (include/geodesk/geom/Tile.h): tile numbers, which pack a column, a row and a zoom
--   level into 28 bits. Tile/Fields is about the packing, Tile/Bounds about the edges against
--   coordinates, Tile/Pyramid about zoom levels and neighbors, Tile/Twins about the twin codes.
--   An `int` is its 32-bit pattern; shifts by 32 or more, which the source avoids above zoom
--   level 0, are left aside.
-- * TileIndex (src/query/TileIndexWalker.cpp, include/geodesk/query/TileIndexWalker.h,
--   include/clarisma/util/Bits.h): the levels of the tile index, which startLevel sets up, and
--   the entries on them. The index is its 32-bit words by their number; an `int16_t` n is n +
--   2^15. TileIndex/Entries is about the bits of a level's mask.
-- * TileIndexWalker (the same files): the walk over the tiles that a box meets. `levels_` is
--   the level at `currentLevel_` with the levels in front of it and behind it; `advance` is one
--   round of the loop of next. Its fuel is the number of cells that the open levels have left,
--   and one for each level: a round takes a cell or a level away. acceptTile and the hash set
--   of accepted tiles are arguments. TileIndexWalker/Tour has the walk as a recursion over the
--   tree of tiles, TileIndexWalker/Ranges the columns and rows of a box on a level, Cells the
--   counters of a level, Placed what startLevel sets up, Stack the open levels together; Enter,
--   Look and Advance treat the parts of a round, Next a call of next and a whole walk, Start
--   the constructor.
-- * TilePair (include/geodesk/geom/TilePair.h): a tile, or two tiles side by side.
--   TilePair/Codes is about the codes under which a pair covers a tile, TilePair/Cover about
--   the loop of operator+=. The loop has a fuel of 16, above every zoom level that a tile
--   number can hold: each round goes up one level, and on level 0 there is one tile.
-- * ZoomLevels (include/geodesk/feature/ZoomLevels.h): the zoom levels of a pyramid as a set of
--   bits; ZoomLevels/Members is about the levels that a set holds.
-- * Decimal (include/clarisma/math/Decimal.h, src/clarisma/math/Decimal.cpp, and
--   unsignedIntegerReverse of include/clarisma/text/Format.h): decimal numbers, read from
--   strings and printed. An `int64_t` is its 64-bit pattern. The loop that prints digits has a
--   fuel of 20, the number of digits that a 64-bit number has at most. Digits is about the
--   digits of a number, Loops about the loops of the reader, Format about what the printer
--   writes, RoundTrip about a number that is printed and read, Range about what the reader
--   holds, Reading about a string.
-- * Box (include/geodesk/geom/Box.h): boxes of signed 32-bit coordinates, as patterns; `flip`
--   counts them from the lowest, so that the order is that of natural numbers. Box/Order is
--   about that, Box/Contains about points and boxes in a box, Box/Combine about intersection
--   and union, Box/Around about the bounding box of coordinates, Box/Trimmed about the
--   arithmetic that stops at the ends, and Box/Buffer about growing and shrinking.
--
-- The modules share Common: Boolean tests, lists, bit operations and the order of the native
-- numbers.
--
-- Not modelled: failing reads and writes, syncing and locks of files, addBlob, the checksum by
-- processor instructions, the checks and searches of ZoomLevels, coordinates in degrees,
-- conversions of decimal numbers, and the parts of `geodesk` above tiles and boxes (features,
-- filters, the matcher, output formats). The operating system, third-party containers and
-- floating-point geometry are outside the model. The source's `assert`s are compiled out in its
-- release builds and have no counterpart in the definitions.
pub mod Common
pub mod Varint
pub mod OrderedSet
pub mod FreeStore
pub mod Tile
pub mod TilePair
pub mod ZoomLevels
pub mod DiskFile
pub mod Crc32C
pub mod Journal
pub mod Recovery
pub mod Decimal
pub mod Box
pub mod Opening
pub mod TileIndex
pub mod TileIndexWalker
