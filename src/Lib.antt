-- ===== src/Lib.antt =====
-- Verification of the EYN-OS kernel: the parts of it that keep state of their own behind a small
-- interface, as functions on that state.
--
-- Parts and files
--   Sched        src/cpu/sched.c: the deferred-work scheduler. `Sched` holds the static variables,
--                the arrays g_work and g_runq as functions on indices, a link of -1 as `none`.
--                sched_work_enqueue, sched_work_dequeue_prio: `enqueue`, `dequeue_prio` (Sched);
--                sched_work_init, _register, _set_ready, _unready, _update_budget, the boost and the
--                accounting: Sched/Ops; sched_work_on_timeslice_end: Sched/Timeslice.
--                Sched/Queues says which lists the linked queues hold; Sched/Invariant is the
--                invariant; Sched/History is any sequence of calls.
--   Capabilities src/misc/capabilities.c: the registry, `register`, `revoke`, `mint`, `validate`.
--                A result of 0 is `true`, -1 is `false`; an entry is its index.
--   FsTxn        src/fs/fs_txn.c: the transaction log of each drive.
--   ShellArgs    src/utilities/shell/shell_args.c: `parse` (shell_args_parse) and `rest_raw`. A line is
--                the list of its characters before the NUL; a pointer is an offset.
--                ShellArgs/Words says what the words of a line are.
--   Det          src/cpu/sched.c: the tick, the slice clock and the deterministic event queue
--                (sched_det_queue_irq, sched_det_step: `queue_irq`, `det_step`). Det/Ring says which
--                interrupts the ring holds.
--   UserAccess   src/mm/user_access.c: `user_access_ok` over the page tables, which `walk_page_tables`
--                (vmm_walk_page_tables of src/mm/vmm.c, without creating tables) reads. The address
--                space is the one in force.
--   Context      src/misc/context.c: the stack of command contexts. command_context_push, _pop, _set,
--                _clear, _get: `push`, `pop`, `set`, `clear`, `get`. g_ctx_top is `depth` - 1.
--   Frames       src/mm/vmm.c: frame_alloc and frame_free over the bitmap of physical frames. Where
--                frame_alloc calls clock_evict_page the result is `evicts`.
--                Frames/Reserve has vmm_reserve_phys_range, Frames/Contiguous
--                frame_alloc_contiguous.
--   KernelHeap   src/utilities/util.c, the build without the Rust allocator: `validate_block`,
--                `find_free_block`, `split_block`, `merge_loop` (merge_free_blocks), `heap_malloc`,
--                `heap_free`. Headers are kept by their offset. KernelHeap/Tiles says which list of
--                blocks a heap is, KernelHeap/Place and KernelHeap/Absorb what happens to the list.
--                KernelHeap/Setup has `init_memory_manager`, with the answers of the VMM as a record.
--                KernelHeap/Front has malloc, free, realloc and calloc.
--                The loops of the merge run on fuel; more fuel than there are blocks is enough.
--   ZeroCopy     src/utilities/zero_copy.c: the table of files held in memory. zero_copy_init, _open,
--                _close: `init`, `open_file`, `close` (ZeroCopy); _read, _write, _seek, _vmsplice:
--                ZeroCopy/Io; _mmap, _munmap, _msync: ZeroCopy/Maps; _splice, _tee, _truncate:
--                ZeroCopy/Move. What malloc, the capability check and the filesystem answer is the
--                record `Env`. ZeroCopy/Buffers has the buffers, ZeroCopy/InPlace
--                eynfs_zero_copy_write, whose loops run on fuel. ZeroCopy/Sound is the invariant,
--                ZeroCopy/History any calls.
--   Slab         src/mm/slab.c: `slab_alloc`, `slab_free`, `owns`, `init`, with a panic as a result
--                (Slab); size classes: Slab/Class. Slab/Page and Slab/Pool say which pages, free
--                objects and lists a state stands for, Slab/Pop, Slab/Grow and Slab/Push what a call
--                changes, Slab/Reach any history. The words of the objects are a function of the
--                address; vmm_kmalloc_page answers from a list in the state.
--   Partition    src/drivers/partition.c: `read_table`, `write_table`, `create`, `delete`,
--                `set_bootable` (Partition), over the bytes of the first sector of each drive. One
--                entry: Partition/Entry; the table and its reading: Partition/Table, Partition/Read;
--                tables whose partitions do not meet: Partition/Tidy; any calls: Partition/History.
--   Base         the shared names, Boolean tests, lists, arrays as functions, counting loops, bits.
--   Tests        the theorems at concrete states.
--
-- How the parts meet: the scheduler calls a work function through a pointer. That call is the
-- parameter `call` of Sched/Timeslice, and Sched/History names what it may do (`Lawful`).
-- The capability registry and the transaction log are called by the filesystem and the memory
-- manager and call nothing back.
-- malloc and free (KernelHeap/Front) ask the slab allocator first and take its answer as given; Slab
-- says which answers there are, and takes its pages from the VMM. KernelHeap/Foreign puts the two
-- together.
--
-- Machine: uint32 arithmetic is written out modulo 2 ^ 32, uint64 modulo 2 ^ 64; pointers are numbers
-- and have 32 bits. A call is one step: what an interrupt could do in the middle of it is not
-- modelled. The source masks interrupts while it registers or revokes a capability and while it adds
-- to or takes from the event queue, and guards the end of a time slice and the draining of the event
-- queue against nesting; for the other calls (registering and readying work, the frames, the slabs,
-- the heap, the transaction log and the rest) it is assumed that no interrupt changes the same state
-- meanwhile.
--
-- Fuel: the loop of sched_work_on_timeslice_end takes fuel. 97 is enough when every registered item
-- may run on this processor: each round but the last takes one of at most 64 items off a queue for
-- good, or clears one of the 32 bits of the bitmap. The loop of user_access_ok takes fuel for the
-- 2 ^ 20 pages of a 32-bit address space; the parser of a command line takes one round for each
-- character and one more. The merge of free blocks takes fuel, of which more than there are blocks is
-- enough, and so do the loops of eynfs_zero_copy_write, where more than the size and the offset is.
-- slab_bsr32 takes 32 rounds, one for each bit. The other loops have bounds that the code gives.
--
-- Parameters: the work functions; the hooks of a tick and the interrupt dispatch (Det, `Hooks`); the
-- time stamp and the addresses that seed the secret of the capability registry; what the VMM answers
-- when the heap is placed (KernelHeap/Setup, `Machine`) and the slab allocator to malloc
-- (KernelHeap/Front, `Answers`); the pages that vmm_kmalloc_page answers (Slab); what the disk
-- answers to a partition call (Partition, `Env`); what malloc and the filesystem answer to a
-- zero-copy call (ZeroCopy, `Env` and `Found`).
--
-- Not modelled: drawing, device I/O and the system-call dispatch; the rest of the memory
-- manager, the filesystems, the network stack and the shell beyond the parts named above.
pub mod Base
pub mod Capabilities
pub mod Context
pub mod Det
pub mod Frames
pub mod FsTxn
pub mod KernelHeap
pub mod Partition
pub mod Sched
pub mod ShellArgs
pub mod Slab
pub mod Tests
pub mod UserAccess
pub mod ZeroCopy
