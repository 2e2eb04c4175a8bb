-- ===== src/Lib.antt =====
-- Verification of the storage formats, the log and the metadata records of modern-level-db, an LSM
-- key-value store.
--
-- The parts and how they meet. A write is a batch of puts and deletes. The batch is encoded to one
-- byte string, which the write-ahead log stores as one logical record, cut into checksummed
-- fragments that never cross a block. Replay reads the fragments, puts the records together, and
-- iterates each batch. Every operation becomes an internal key: the user key, a 56-bit sequence and
-- a kind. A lookup seeks the internal key of its snapshot under an order that puts newer versions
-- first. Tables hold sorted blocks, whose entries share the fronts of their keys between restarts,
-- each stored compressed or plain with a checksum in its trailer, in front of a footer with two
-- handles. A change of the set of tables is a version edit, which the MANIFEST stores as a logical
-- record of the same log format.
--
-- Which file models which part:
--   Prelude              shared lists over the native numbers, Boolean tests, bit operations
--   Base.Error           include/modern_leveldb/base/result.h: `Error`, `Result`, `Status`
--   Base.Bytes           src/base/bytes_internal.h: `SharedPrefixLength`, byte views
--   Base.Coding          src/base/coding.cc, src/base/coding_internal.h: fixed words, varints and
--                        length-prefixed values; Fixed, Varint, VarintRoundTrip and Prefixed prove
--   Base.Crc32c          src/base/crc32c.cc: masking; the crc32c package is the parameter `Crc`
--   Base.Hash            src/base/hash.cc: `Hash32`, with vectors of the unit tests in Tests.Hashes
--   Base.Comparator      include/modern_leveldb/base/comparator.h, src/base/comparator.cc: the
--                        interface, its promises (Laws), the bytewise comparator
--   Format.InternalKey   src/format/internal_key.h and .cc: trailers, `ParseInternalKey`,
--                        `InternalKey`
--   Format.KeyComparator the same files: `InternalKeyComparator` over any user comparator; Laws says what
--                        it promises of keys with a trailer
--   Format.LookupKey     the same files: `LookupKey`; Storage is its inline and heap storage
--   Format.WriteBatch    src/format/write_batch.h and .cc: `EncodedWriteBatch`, `WriteBatchReader`;
--                        Contents says which bytes hold a list of operations
--   Format.WalFormat     src/format/wal_format.h and .cc: headers and `DecodeWalFragment`; Cursor is
--                        `WalFragmenter::Cursor`, Places a fragment in its block, Blocks the
--                        fragments of a record
--   Wal.Reader           src/wal/wal_io.h and .cc: how `WalReader` treats a physical fragment;
--                        Assembly puts fragments together
--   Wal.Reader.Stream    the same files: `ReadNext`, `ReadPhysical` and `FillBlock` over a file;
--                        Position says where a reader stands in its log, Arrival and Deliveries
--                        follow it over a fragment and over a record
--   Wal.Writer           the same files: `WalWriter` over a file; Appends and Adds say what is
--                        written, Alignment where the next fragment goes
--   Wal.Replay           writer and reader together
--   Metadata.VersionEdit src/metadata/version_edit.h and .cc: the mutators, Encode and Decode; Fields
--                        sees an edit as the sequence of its fields, Decoded what decoding accepts
--   Table.Compression    src/table/compression.h and .cc over the parameters `Snappy` and `Zstd`
--   Table.BlockFormat    src/table/block_format.h and .cc: handles, footers, stored blocks
--   Table.BlockBuilder   src/table/block_builder.h and .cc; Adding says what `Add` adds, Built what a
--                        builder holds, Finished what `Finish` makes of it, Visited reads it back
--   Table.Block          src/table/block.h and .cc: layouts, entries, `Create`, `ValidateEntries`;
--                        Items and Shape say what a block holds, apart from how it is read
--   Table.Block.Iterator the same files: the iterator; Standing and Stepping say where it is among the
--                        items, Seek is its search, Reached the states that its calls lead to
--   Table.Block.Prev     the same files: `Prev` and the reverse cache
--   Table.Blocks         builder, storage and iterator together
--   Table.BloomFilter    src/table/bloom_filter.h and .cc: the filter of a set of keys; Bits says which
--                        of its bits are set
--   Table.TableBuilder   src/table/table_builder.cc: the stored form of a block
--   Tests                concrete inputs
--
-- How code corresponds to definitions. A byte is a number below 256, and a view, vector or string
-- of bytes is a list of numbers. An object is a record; an operation that changes it returns it. A
-- consumer that advances a view returns what is left. `std::expected` is `Result`, and an unchecked
-- read past the end of a view is `none`, so that a theorem has to exclude it. So is a write past the
-- end of the storage of a lookup key or of the room made for a batch record, and the comparison of a
-- key that is too short for its trailer. Unsigned arithmetic
-- is written modulo its width where the source can wrap. File offsets do not wrap. An enum that the
-- source casts from any byte (`ValueKind`, `WalRecordType`) is that byte. `int` results of
-- comparisons are orderings.
--
-- Parameters and their laws. `Crc` gives 32-bit values; `IsStreaming` says that extending by two
-- strings is extending by both, joined. `IsSnappy` and `IsZstd` say that decompression restores
-- what was compressed, with its size. `SequentialFile` and `WritableFile` are the interfaces of
-- include/modern_leveldb/file_system.h: `IsSequential` says that reads give the bytes of the file
-- in order, at most as many as asked for, and none only at the end; `IsAppending` that an append
-- that is answered ok puts its bytes behind the contents, and a flush changes none. Of failing
-- calls nothing is assumed.
--
-- Bounds and fuel. The varint decoder makes five or ten rounds, the source's `MaxBytes`. The loops
-- of the varint encoder are recursion on the value. The iteration of a batch has one round for each
-- record, which is enough for what `Open` accepts; cutting a record of n bytes has n + 3 rounds,
-- which is enough from every block offset. A version edit is decoded in a round for each byte and
-- one more. A block is filled in 32,769 rounds: every read but the last gives a byte. A physical
-- read needs two rounds in a log without damage, one of them for a tail that is too short for a
-- header, and `ReadNext` a round for each fragment of the record. A `size_t` is taken to hold every
-- length.
--
-- The walk that validates a block, its scans to the last entry, to a lower bound and up to an entry
-- have a round for each byte of the entries and one more: an entry takes three bytes at least. The
-- search among the restarts halves its range, and has a round for each restart and one more. The
-- entries of the reverse cache are charged with 64 bytes each, their size where pointers have
-- eight.
--
-- Not modelled: the state of a table under construction and the reading of tables, filter blocks,
-- caches, memtables, the version set and the engine. The treatment of damage is modelled in the
-- reader; what it answers on a damaged log is not stated, and neither is the reading of a log that
-- was reopened in the middle of a block. What an iterator answers on a damaged block is modelled
-- and not stated; that borrowed keys and values stay in memory is not modelled. Platform code,
-- tools and tests are input and output only.
pub mod Prelude
pub mod Base
pub mod Format
pub mod Wal
pub mod Metadata
pub mod Table
pub mod Tests
