-- ===== src/Tests.antt =====
-- The theorems at inputs that meet their hypotheses, and runs of the code, one module to a part.
mod FreelistTests
mod StoredTests
mod NodeTests
mod CursorTests
mod BucketTests
mod TreeTests
mod LeafTests
mod MetaTests
mod SystemTests
mod TxTests
mod CheckTests
