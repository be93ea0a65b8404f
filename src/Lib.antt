-- ===== src/Lib.antt =====
-- The core of reiser4, a file system of the Linux kernel, modelled and verified.
--
-- Parts of the program, and the files here:
--   Space       block_alloc.c: how many blocks of the device are free, used, grabbed by a context,
--               given to a new node (fake allocated), reserved for a flush, or reserved for a cluster.
--               State (the counters, and the functions sub_from_* and add_to_*), Transfer (the moves
--               from counter to counter), Grab (reiser4_grab, reiser4_grab_space,
--               reiser4_grab_reserved), Alloc (reiser4_alloc_blocks, reiser4_dealloc_blocks,
--               apply_dset). The proofs: Invariant, Refine, Reserve, Stages, Allocation, Mutex.
--   Bitmap      plugin/space/bitmap.c: which blocks are free, one bit for each. Bits (searches for a
--               bit), Masks (reiser4_set_bits, reiser4_clear_bits), Checksum (reiser4_adler32,
--               adler32_recalc), Node (a bitmap block: its checksum, loading it, the forward search in
--               it), Backward (the backward search in it), Alloc (reiser4_alloc_blocks_bitmap and
--               reiser4_dealloc_blocks_bitmap over all bitmap blocks), Check
--               (reiser4_check_blocks_bitmap).
--               The proofs: Scan, ScanBack, Ranges, Adler, Forward, Search, BackwardLaws, NodeSearch,
--               Places, AllocLaws, Passes, Device, Dealloc, Says, CheckLaws, Bound,
--               Client (the bitmap as the allocator behind block_alloc.c).
--   Coord       coord.c and coord.h: a place in a node, at, before or after a unit or an item. State,
--               Init, Step, Compare and Walk hold the definitions; Valid, Moves, Items and Order the
--               proofs.
--   BlocknrSet  blocknrset.c: the sets that hold an atom's deleted blocks and its wandered map. Entry
--               and Ops hold the definitions; Contents, Add, Merge and Iterate the proofs.
--   Discard     blocknrlist.c and discard.c: the freed blocks of an atom, sorted and joined, and handed to
--               the device at a commit. Extents and Atom hold the definitions; Cover, Joined, Adding and
--               Commit the proofs.
--   Dscale      dscale.c: numbers stored in 1, 2, 4 or 9 bytes. Codec holds the definitions, RoundTrip the
--               proofs.
--   Lock        lock.c and lock.h: long term locks of the nodes of the tree. State (zlock, lock_handle,
--               lock_request, lock_stack), Primitives (what runs under the guard of one node, or over
--               the locks of a thread), Longterm (longterm_lock_znode in the pieces between its waits,
--               longterm_unlock_znode, move_lh, copy_lh). View is the state without handles and
--               signals, and Counting and ViewSteps are about it; Effects and Handles say what the
--               steps do to it; System, Copies, Asking, Queues and Unlocking keep the invariant; QueueSteps
--               and PrioritySteps are the rest of ViewSteps, Requests and Enqueue the lemmas of Asking.
--               Reach is the relation between the states of all threads; Exclusion, Answers and Signals
--               draw the conclusions.
--
--   Base        shared names, lists, Boolean tests, and the arithmetic of the C types.
--   Tests       runs on small inputs, and each theorem at an input that meets its hypotheses.
--
-- The parts meet as in the program: reiser4_alloc_blocks calls the space allocator behind the
-- interface Allocator (sa_alloc_blocks and sa_dealloc_blocks); a deferred deallocation goes into a
-- block number set, whose iterator hands its items to apply_dset. The bitmap is the allocator behind
-- that interface in the program. The kernel's find_next_zero_bit_le, which it calls, is a parameter, and
-- so is what prepare_bnode answers for each bitmap block (`prepared`).
--
-- Conventions. The build has no REISER4_DEBUG, so `assert` is empty, and what it asks is a hypothesis
-- of a theorem; a BUG_ON is the answer `none`. A function keeps the name of its C function, without the
-- prefix reiser4_. The locks make each function of block_alloc.c one step; what other tasks and a
-- commit do in between are parameters: `wait`, `commit_all`, and `meanwhile`, which is what the other
-- tasks do to the sets of an atom while its lock is free (between two rounds of add_loop, and while
-- discard_atom waits for the device). Of a commit, which grabs blocks in the context that asks for it
-- and moves them, it is assumed only that it leaves valid counters, the reserve, and a writable file
-- system. A `__u64` is a number with its operations modulo 2^64, a `__u32` or `unsigned` modulo 2^32, an
-- `unsigned short` modulo 2^16. Loops recur on what they count; add_loop and for_all_units take fuel, and
-- theorems say how much is enough (2 rounds, and one more than the units of the node); the searches in
-- a bitmap block take the number of bits that are left of it, and theorems show that this is enough.
--
-- For Discard, the kernel's list_sort is a parameter, and so is the device, which answers each request
-- in its own way.
--
-- For Lock, a node, a lock stack (one to a thread) and a lock handle is a number. longterm_lock_znode
-- is lock_begin, tryfast_captured, lock_recursive, first_test, lock_captured and lock_resume; the thread
-- may be interrupted between them, where the guard of the node is free, and the loop is a sequence of
-- steps of Reach. What reiser4_try_capture returns is a parameter (`captured`), and so are the flags
-- JNODE_IS_DYING and JNODE_HEARD_BANSHEE of a node at the start. The guards of the steps of Reach are
-- what the assertions of lock.c ask of a caller. A change of priority is one step, although the code
-- takes the guards of the nodes of the thread one after the other. The counters of locks count handles
-- and requests in memory, and are far from their bounds.
--
-- Not modelled: the bitmap allocator's hook before a commit and its setup, the tree and its balancing,
-- the plugins for nodes, items, files and directories, the transaction manager, the log writer,
-- flushing, and the glue to the kernel.
pub mod Base
pub mod Space
pub mod Bitmap
pub mod Coord
pub mod BlocknrSet
pub mod Discard
pub mod Dscale
pub mod Lock
pub mod Tests
