-- ===== src/Lib.antt =====
-- Verification of the Peergos Rust client.
--
-- The client keeps a user's files as content-addressed CBOR blocks. The parts modelled here, from the
-- bytes up, and the files that model them:
--
-- * Common, Common/*: shared notation, Rust's `Result` and `?`, lists and bytes, signed integers
--   (`i64` as a sign and a magnitude), `|` of shifted numbers, and `str` as its UTF-8 bytes
--   (`from_utf8`, `encode_utf16`).
-- * Cbor, Cbor/*: crates/peergos-cbor. Object.antt and BtreeMap.antt are src/lib.rs (`CborObject`,
--   `CborString`, the accessors, `CborMapBuilder`), Encode.antt is src/encode.rs and Decode.antt is
--   src/decode.rs, function by function; a `&mut Vec<u8>` that is appended to is the bytes appended,
--   and a reader is the rest of the buffer with its position. Valid.antt says which values the Rust
--   types can hold. The decoder takes one unit of fuel for each byte of the buffer and one more, which
--   is enough since each call reads a byte before it recurs.
-- * Multiformats, Multiformats/*: crates/peergos-multiformats. Varint.antt (`put_uvarint`,
--   `read_uvarint`), Multihash.antt and Cid.antt are src/lib.rs in byte form and Text.antt its texts;
--   Bases.antt (base 58) and Multibase.antt are src/bases.rs. The cursor `&mut usize` is the rest of the
--   buffer. The buffer that base 58 fills from its end is what is written of it, with the places that
--   are left, which bound the rounds of the loop: they are enough.
-- * Messaging, Messaging/*: crates/peergos-fs/src/messaging. MemberId.antt is id.rs (its `Id`) and
--   TreeClock.antt is tree_clock.rs, method by method. A `BTreeMap` is the list of its entries in the
--   order of its iterator (Common/SortedMap.antt); `IsClock` says that the entries are sorted. Counters
--   wrap at `i64`, as in a release build.
-- * Champ, Champ/*: crates/peergos-core/src/champ.rs, the hash tree that maps paths to capabilities.
--   Bitmap.antt has the bitmaps and `mask`, Node.antt the changes of a node, NodeCbor.antt its CBOR form,
--   Equal.antt the derived `==`, Tree.antt `get`, `size` and `collect_mappings`, Write.antt `put` and
--   `remove`, and Wrapper.antt `ChampWrapper`. The block store is a parameter (`Storage`) whose state is
--   passed on. The fuel of a call bounds the levels that it goes down: the source has no such bound.
-- * Sync, Sync/*: crates/peergos-sync. State.antt and Marks.antt are src/state.rs and
--   src/file_state.rs (`RamTreeState` with every operation), and StateCbor.antt the CBOR form of a
--   `FileState`; a `HashMap` is an association list and a `HashSet` a list. The rest is
--   src/sync.rs: Passes.antt has `build_dir_state` and the first pass of `sync_dir`, Plan.antt the
--   second, Uploads.antt, Deletes.antt and Directories.antt its other steps, Engine.antt
--   `sync_dir`, Renames.antt the detection of a rename, Handlers.antt `sync_file` and its
--   handlers, Paths.antt and Conflict.antt `rename_on_conflict`. A side is a record of operations
--   on its state (FileSystem.antt, src/filesystem.rs), and what the theorems need of one is in
--   Lawful.antt, where a write of the local side leaves what src/local_fs.rs leaves. Paths are
--   those of files below the root: relative, without `.`, `..` or empty components. The fuel of
--   `rename_on_conflict` is the number of names that it tries; the source tries them without a
--   bound. An error ends a synchronisation, and the state that it leaves is not modelled.
--   RamSide.antt is a side in memory.
-- * Buffered, Buffered/*: crates/peergos-core/src/buffered.rs. Storage.antt is `BufferedStorage` with its
--   read cache (Cache.antt); the hash function and the reads of the target are parameters. Reachable.antt
--   finds the blocks that a commit keeps; its fuel is the number of roots and of links of buffered blocks,
--   which is enough since a block's links are pushed once. Batches.antt and Flush.antt are `commit_blocks`,
--   whose uploads are a parameter, and `partition_by_root`. Order.antt is `from_root_first`,
--   with fuel as for the blocks to keep, and Groups.antt and Split.antt are `split`, with what it needs
--   of src/bulk.rs; the hash function and the signatures are parameters. Pointers.antt is
--   `BufferedPointers` without automatic commits.
-- * Mime, Mime/*: crates/peergos-fs/src/mimetype.rs. Magic.antt has the first bytes of the formats,
--   Detect.antt and Chain.antt the tests in their order, Utf8.antt the check of a text.
--
-- Machine integers are natural numbers with the wrap-around written out, buffers are lists of numbers
-- below 256, and a buffer in memory has fewer than 2 ^ 63 bytes, as Rust guarantees. A panic is `none`, or an
-- error `panicked` of the component.
-- Error messages are constructors without their formatted text. The stack of a recursive call is not
-- bounded in the model. Block stores, file systems, hash functions and signatures are parameters of the
-- definitions that use them. Other cryptography, the network, the command line and the asynchronous
-- runtime are not modelled.
pub mod Common
pub mod Cbor
pub mod Multiformats
pub mod Messaging
pub mod Champ
pub mod Sync
pub mod Buffered
pub mod Mime
