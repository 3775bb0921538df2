-- ===== src/Lib.antt =====
-- destor, a platform for data deduplication (destor-master/src), modelled operation by operation.
--
-- A backup is a pipeline of phases that hand chunks to each other: chunks are found to be duplicates,
-- the rewrite phase marks those whose containers are fragmented, the rest is stored in containers of
-- 4 MB, and the container marker remembers for each container the last backup that refers to it, so
-- that the deletion of old backups can reclaim containers.
--
-- Prelude            lists, association lists and integers that all parts share
-- Chunk              `struct chunk`, its flag bits, and the sizes of containerstore.h
-- Lru                utils/lru_cache.c: the LRU cache
-- RestoreAware       restore_aware.c: the simulated restore cache over Lru, and its counters
-- Storage/Container  storage/containerstore.c: a container in memory
-- Storage/Serial     utils/serial.c: integers as bytes, as the container store uses them
-- Storage/Memory     areas of bytes and memcpy, which the buffers and the pool file are read as
-- Storage/Pool       storage/containerstore.c: containers in the file container.pool
-- Cma                cma.c: the container marker, over histories of backups and deletions
-- Rewrite/Buffer     rewrite_phase.c: the buffer of pending chunks and its container records
-- Rewrite/Har        har_rewrite.c: the history-aware check
-- Rewrite/Sparse     har_rewrite.c: the monitor of containers, and the sparse ones recorded at the end
-- Rewrite/Drain      the loops of cfl_rewrite.c and cap_rewrite.c that empty the buffer
-- Rewrite/Cfl        cfl_rewrite.c: CFL-based selective deduplication
-- Rewrite/Cap        cap_rewrite.c: capping
-- Rewrite/Phase      rewrite_phase.c: the phase without rewriting, and the choice of an algorithm
-- Handoff            dedup_phase.c and filter_phase.c: how a segment is sent between two markers and
--                    put together again behind the rewriting phase, on fuel of one
--                    round for each segment and one more, which is proved to be enough
-- Chunking           chunk_phase.c: the loop that cuts files into chunks
-- Chunking/Methods   chunk_phase.c: the choice of a method and the start of the phase
-- Chunking/Rabin     chunking/rabin_chunking.c: its three methods, over the polynomials of Chunking/Poly
-- Chunking/Extreme   chunking/ae_chunking.c: asymmetric extremum chunking
-- Recipe             recipe/recipestore.c: what a backup writes; Recipe/Read and Recipe/Open: what is read
-- Recipe/Filter      filter_phase.c: the loop that writes the recipe of a segment
-- Recipe/Open        do_restore.c: the thread that reads the recipe, too
-- Assembly           assembly_restore.c: the restore by forward assembly, with the chunks of the
--                    containers given by a function
-- Gc                 gc/gc_rtm.c: the bits that mark which chunks of old containers a backup refers to,
--                    and how index/index.c sets them
-- Index              index/index.c and index/index_buffer.h: the base lookup and the index buffer.
--                    Index/Behind is the interface to the fingerprint cache, the key-value store and the
--                    container store; Index/Cache fills it with index/fingerprint_cache.c, for physical
--                    locality, and Pipeline/Cached is about that cache
-- Judge              filter_phase.c: which chunks of a segment are written, and to which containers
-- Pipeline           dedup_phase.c and filter_phase.c together: Pipeline/Runs has the steps of the two
--                    phases and of the rewriting phase, which hold the index lock in turn, and
--                    Pipeline/Promises what the caches behind the index have to promise
-- Segment            index/segmenting_method.c and the loop of dedup_phase.c: segments of the stream
-- Kvstore            index/kvstore_htable.c: the hash table of the index and its dump
-- Queue, SyncQueue   utils/queue.c and utils/sync_queue.c: the queues between threads, whose calls are
--                    the steps of a relation. The condition variables and their broadcasts are not
--                    modelled: a thread that waits may go on as soon as its condition holds
--
-- A C function keeps its name. State that the code keeps in globals is a record that is passed on.
-- `none` is a failed assertion, an exit or the dereference of NULL, unless a comment says otherwise;
-- an id is `none` where the code has TEMPORARY_ID. GLib's containers are lists, its hash tables
-- association lists; the order in which a hash table is walked is a parameter (`HashOrder`), as is
-- the sort of a sequence. A phase is a function from the chunks it pops to the chunks it pushes. A
-- fingerprint is the number that its 20 bytes make. A file and a buffer are functions from offsets
-- to bytes, or the bytes themselves where they are only appended to. The host is little-endian.
-- Thresholds that the code has as doubles are fractions, compared
-- without rounding. The overflow of a signed integer in the rewrite buffer, in the reading of a
-- recipe and in the length of a segment of it is `none`, too; so is an id from 2 ^ 31 on in the rewrite
-- buffer, since `g_record_cmp_by_id` narrows the difference of two 64-bit ids to an int. A binary search finds nothing in a
-- sequence that is not sorted. Loops over lists are structural recursion; the loop that empties the rewrite
-- buffer runs on fuel, one more than the pending chunks, and the loops of the chunking phase on
-- fuel, one more than the bytes left to cut and one more than the files, which is proved to be enough; the
-- loop that reads chunk pointers and ignores the flags of segments runs on the bytes left, and the
-- loop that empties the assembly area on its chunks.
--
-- The words of `index_bit` are read as their bits. The function `sampling` of the filter phase is a
-- parameter; of the index only the base lookup is modelled, without similarity detection.
--
-- Not modelled: context-based rewriting, which decides by rounded doubles; the sampling methods and
-- similarity detection; the collector (gc/gc.c) and the container bit table and reference time map
-- of gc/gc_rtm.c; the restores with an LRU and with an optimal cache; the jobs and the
-- configuration; the copies of other projects (bloom_filter.c, sds.c, fsl); timers and log
-- messages; the levels of simulation in a restore; the threads of the phases, and how they share
-- the queues between them, of which SyncQueue models the calls; the allocation and release of
-- memory; the phases and the stores that the list above does not name.
pub mod Prelude
pub mod Chunk
pub mod Lru
pub mod RestoreAware
pub mod Storage
pub mod Cma
pub mod Rewrite
pub mod Segment
pub mod Kvstore
pub mod Queue
pub mod Recipe
pub mod Assembly
pub mod SyncQueue
pub mod Chunking
pub mod Gc
pub mod Index
pub mod Judge
pub mod Pipeline
pub mod Handoff
