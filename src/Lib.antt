-- ===== src/Lib.antt =====
-- bbolt-rs keeps a database in one file of pages: a B+ tree of buckets, two meta pages of which one
-- is current, and a freelist of the pages that are not in use. A write transaction copies the pages
-- that it changes, so that readers keep their snapshot; the pages that it replaces become pending
-- and return to the freelist when no reader can see them any more.
--
-- Files, with the code that they model:
--   Prelude: shared names, `u64` arithmetic with its wrap-around (Words), finite maps and sets for
--     `HashMap` and `HashSet` (Maps, Lists), `sort` (Sort) and panics (Panics).
--   Page: src/common/page.rs, the page header, its flags and types.
--   Freelist: src/freelist.rs, spans, `allocate` and the merging of spans. Its children prove
--     Spans and AddSpan (the three span maps agree), Merge, Allocate, Consistent (the invariant of
--     the whole freelist) and Booking (`allocate` keeps it).
--   Freelist/Pending: `free`, `release`, `release_range`, `rollback` and `freed`, with Free, Release,
--     Sweep and Range (the loop of `release_range`) and Rollback.
--   Freelist/Index: counting and listing the free pages, `init`, `reindex`, `read_ids`, `reload` and
--     `size`, with Listing, Build and Reload.
--   Freelist/Stored: the page that holds the list, with `write` and `read` (RoundTrip).
--   Node: src/node.rs, sizes and the split of a node (Split), the order of keys (Keys), and `put`,
--     `del` and `child_index` (Put, with Lookup and Del).
--   Tree: src/common/tree.rs, the elements of a page and where keys and values stand, with `write` of a
--     node; RoundTrip reads back what was written.
--   Store: what a bucket reads through, with `page_node`, `node` and `materialize_root` of
--     src/bucket.rs, `read_in` of src/node.rs and `read_inodes_in` of src/common/inode.rs.
--   Cursor: src/cursor.rs, all moves and `seek`. Its children are View (what the cursor sees of a page
--     or node), Path (the stack as a path in a tree, and the entries ahead), Next, First, Order (trees
--     with their keys in order), Seek (the search), Landing (what a seek shows), and for the last entry
--     End (the way down), Back (the way up) and Last.
--   Bucket: src/bucket.rs, `get`, `for_each`, `for_each_bucket`, `put`, `create_bucket`, `delete` and the
--     sequence, with `node` and `delete` of src/cursor.rs. Its children are Get, Visit and Delete,
--     Inline (`inlineable`), and for a bucket of one leaf Reach (the node to change), PutGet and DeleteGet.
--   Meta: src/common/meta.rs and the choice of the current meta page in src/db.rs (Current), with the
--     choice after one of the pages was written over (Commit).
--   Db: src/db.rs, `free_pages`, which reclaims pages before a write (Reclaim). State has the shared
--     state, begin and end of transactions, `allocate` and `commit_freelist`, with Stored (what
--     `commit_freelist` writes reads back), Readers (the open read transactions) and Ending (how a write transaction
--     begins and ends); Open has `init_page` and `new_db`, MmapSize the size of the memory map, and
--     Batch the batches, with Answers (what the callers hear) and Counted (how many transactions).
--   Tx: src/tx.rs, `write`, `write_meta`, `commit`, `rollback` and drop of a write transaction, with
--     Write (the loop over chunks), MetaWrite (the write of the meta page), Growth (a commit whose file
--     does not grow), Commit (how a commit ends) and Dropped (what such a commit leaves);
--     Check is `recursively_check_pages_internal` and `verify_key_order`, on fuel above the height of
--     the tree, with Leaf about the loop over a leaf.
--   System: the life of transactions as a step relation (Steps), from a new database on (Start).
--     Horizon says what the freelist owes to the snapshots; Reading, Writing, Fresh, Freeing and
--     Undoing keep it for each kind of step, Keeps and Writers carry this over to the steps (Invariant),
--     and Safety has what follows. The snapshots are no part of the program: they record which pages a
--     committed transaction reaches. A writer frees pages of its own snapshot, which starts as the
--     current one, and allocates only while it commits, so a rollback is one of a writer that has
--     allocated nothing; a commit that fails half way is not a step, since its rollback is not safe.
--   Tests: runs and the theorems at concrete states.
--
-- Modelling choices. Ids are the `u64` inside `PgId` and `TxId`; sums and differences wrap around as
-- in a release build. A hash map is the list of its entries in the order of iteration; a new entry
-- goes to the front, and where the source takes the first entry of an iteration, so does the model,
-- at every order that a state can have. A panic is `panic`, and a loop that does not end is
-- `diverge`; the loop of `release_range` runs on fuel one above the length of the list, since each
-- round either passes an entry or removes one. The split of a node runs on fuel two above the number
-- of its entries, since each piece takes some. Lengths and sizes of slices are numbers without a
-- bound. A tree page holds its header and the entries that its elements stand for, and the cursor's
-- stack has its top first. The ways of a cursor down a tree run on fuel above the height of the tree,
-- the ways over empty leaves on fuel above the number of leaves, and the loops of a visit on fuel
-- above the number of entries; a theorem about such a loop says that this is enough. A tree is what
-- `page_node` gives from the root on: a branch has a child or more, and leaves may be empty. The cache
-- of sub-buckets and the fill percentage of a bucket are left out. Nodes refer to each other by
-- numbers. The order of cells in memory, and borrowing, are left out. The hash of the crate `fnv_rs`
-- and `kmerge` of the crate `itertools` are parameters, and the threshold of a split, a product of
-- floating point numbers in the source, is given. What a meta page holds after a write of it has
-- failed is a parameter; a failed write of another page leaves no trace in the model.
--
-- Not modelled: the opening and deletion of nested buckets, the spilling and rebalancing of nodes,
-- the rest of the consistency check of a transaction (that each page is reached or free, and once
-- only), commit handlers, memory maps and file access (their results are parameters), locks and
-- threads, statistics, options and command line tools, the memory arena, and the formatting of debug
-- output.
pub mod Prelude
pub mod Page
pub mod Node
pub mod Meta
pub mod Tree
pub mod Store
pub mod System
pub mod Tx
pub mod Bucket
pub mod Cursor
pub mod Freelist
pub mod Db
pub mod Tests
