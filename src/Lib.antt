-- ===== src/Lib.antt =====
-- bcache-tools: the user-space tools of bcachefs, with the file system's own code in libbcache/.
--
-- The program's parts that are modelled, by file:
--
-- * Six (libbcache/six.c, six.h): the shared/intent/exclusive lock in one 64-bit word. `*_word` are
--   the changes of the word in `__six_trylock_type`, `six_relock_type`, `six_unlock_type`,
--   `six_trylock_convert` and `six_lock_increment`; `trylock_type`, `unlock_type`, `lock_round` and
--   the others add the owner and the wait lists. Six/System is any number of threads over one lock.
-- * Buckets (libbcache/buckets.c, buckets.h, buckets_types.h): bucket marks and the counters of a
--   device, from `bucket_stats_update` to `bch_mark_metadata_bucket`; Buckets/Extent goes on from
--   `bch_mark_pointer` to `__bch_mark_key`.
-- * Reservation (libbcache/buckets.c): disk reservations and their use, over per-cpu counters.
-- * Inode (libbcache/inode.c, inode.h, include/linux/bcache.h): the coding of a field (Inode), and of a
--   whole inode (Inode/Record), where `before` is what the code reads ahead of its input.
-- * StrHash (libbcache/str_hash.h): the hash tables of directories and extended attributes. A table is
--   a function from the offsets of an inode to slots; loops recur on the offsets that are left.
-- * Bkey (libbcache/bkey.c, bkey.h, include/linux/bcache.h): packed keys on a little-endian machine.
--   Bkey writes and reads single fields, Bkey/Key whole keys, Bkey/Format chooses and validates the
--   format, Bkey/Order compares. The words of a key are listed from the high word down, as
--   `next_word` goes. Where x86 has generated code, the C version is modelled.
-- * Extents (libbcache/extents.c, extents.h, bset.h, include/linux/bcache.h): an extent as a list of
--   entries. Extents/Cut cuts and resizes, Extents/Squash does `extent_squash` with the storing of the
--   old key (in the format of its node, where it is packed), Extents/Merge merges, Extents/Cmpxchg
--   matches a replacement, and Extents/Crcs narrows and drops crcs. Extents/Reads says what the entries
--   mean to a reader. The sectors of the buckets of each device are a parameter.
-- * Heap (libbcache/util.h): the heaps, of any type and comparison. An array is a function of the index,
--   and two arrays hold the same elements where the sums of any weight of these agree.
-- * Clock (libbcache/clock.c, clock_types.h): the IO clocks, on Heap.
-- * Fifo (libbcache/fifo.h): the ring buffer of the allocator's free lists and the journal's pins.
--   Fifo/Queue is what it promises.
-- * Journal (libbcache/journal.h, journal_types.h, journal.c): reservations of space in the open
--   journal entry. Journal/System is any number of holders; each change of `j->reservations` is a step.
-- * Ranges (tools-util.c, tools-util.h): byte ranges sorted and merged, and the holes between them.
--
-- How they interact: a write takes a Reservation, marks the pointers of its key in Buckets, and pays
-- for the sectors by `stats_apply`; the btree nodes that hold the key are under Six locks.
--
-- Integers are native numbers with the wrap-around of their C type written out. A panic (`BUG_ON`) is
-- `none`, and `bug` in `journal_buf_switch`; `EBUG_ON` is compiled out of normal builds, and what it
-- asserts of the caller is a premise.
-- An atomic read-modify-write loop is one step, and in the journal what a thread does between two of
-- them is seen only through its reservation. Loops recur on the list or the offsets that they walk, so
-- no fuel is chosen but what is left of these; `fifo_move` has fuel, and one more than the source has
-- elements is enough; `sift` and `sift_down` have as much as the heap has elements, `fire` as many rounds
-- as there are timers, and the loops over crcs as many as there are entries.
--
-- Left out: tracepoints, time statistics, lockdep, wakeups of kernel threads, and memory allocation.
pub mod Base
pub mod Six
pub mod Inode
pub mod StrHash
pub mod Ranges
pub mod Bkey
pub mod Extents
pub mod Heap
pub mod Clock
pub mod Fifo
pub mod Journal
pub mod Buckets
pub mod Reservation
