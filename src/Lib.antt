-- ===== src/Lib.antt =====
-- Verification library of the kernel: the intrusive lists, the core of the buddy allocator, the
-- locks, the tasks, the switch between them, the fair scheduler, the system calls, the interrupts,
-- the start, and the string functions.
--
-- The parts of the program and how they meet. kernel/include/list.h holds the intrusive doubly
-- linked lists, with which the free lists of kernel/mm/buddy.c, the task list of
-- kernel/core/sched/sched.c and the run queues are made. kernel/include/spinlock.h has the spin lock
-- and the read-write lock that guard them. kernel/mm/buddy.c serves blocks of 2^order
-- pages of a zone from those free lists. src/kernel/main.c starts the kernel, dispatches system
-- calls, interrupts and exceptions, and defines the string functions that the others call.
--
-- Which file models which part:
--   ListHead.antt is kernel/include/list.h. A memory (record Mem) has the `next` and the `prev`
--     pointer of every address, each operation of list.h is a function of the same name from memory
--     to memory, write by write, and INIT_LIST_HEAD is init_list_head. ListHead/Ring.antt has the
--     abstract view, a head and the sequence of the entries; Chain and Distinct have the lemmas on
--     segments of a list; Transfer, Splice, Cut and Walk the operations on two lists and the walks.
--   Page.antt is the interface to the accessors of `struct page` that kernel/mm/buddy.c calls and
--     that no file defines: PageBuddy, set_page_private, page_zone_id and the others are the fields
--     of the record PageOps, with the laws that a setter changes what it names and nothing else.
--     Page/Flags.antt is the flag macros of kernel/include/mm.h over the bits of a word (BitOps).
--   Buddy.antt is kernel/mm/buddy.c: the zone (record Zone), page_is_buddy, __find_buddy_pfn, the two
--     free-list accounts, expand, __rmqueue_smallest and __free_one_page, under the names of the
--     source. A free list is the sequence of the frame numbers of its pages, the entries of a
--     ring of ListHead, on which list_add and list_del act. Buddy/Bits, Sum and Measure have the arithmetic,
--     Valid the well-formedness of a zone, Del and Add that the two accounts keep it, Cover what
--     frames the free blocks cover, Expand, Alloc, Free and Merge the two sides of the allocator, and Round
--     both together.
--   Spinlock.antt is spinlock_t of kernel/include/spinlock.h: spin_lock, spin_trylock and spin_unlock
--     as steps of threads, one shared access each (Move), over a state of the lock and a place for
--     every thread (System). Rwlock.antt is rwlock_t and its six functions in the same way; Count
--     has the number of readers. Under both, Invariant has what every step keeps and Safety what
--     follows. A thread calls an unlock only where it has the lock, and names of locks, which are
--     only printed, are left out.
--   Sched.antt is alloc_pid of kernel/core/sched/sched.c, and Sched/Pid the pids that it gives.
--   Buddy/Fallback.antt is __rmqueue_fallback, Buddy/Request alloc_pages down to the two searches, and
--     Buddy/Release __free_pages up to a free list; Found is a page, NULL, or a read out of range.
--     Steal, Search, Touch, Prep and Checked have the proofs. The locks of the zone, the accounting of
--     events and the checks of debugging have no part in them.
--   Sched/Rq.antt is struct rq and sched_init for the one CPU (NR_CPUS is 1), Sched/Clock
--     update_rq_clock, Sched/Switch activate_task, schedule and context_switch, with the scheduling
--     classes as parameters (SchedClass, SchedOps) that change their own state, the counts of tasks
--     included. The code behind switch_to runs at once, as the next task; `current`
--     stays, since arch/x86_64/cpu/switch.S writes no variable of sched.c. Ticks, Lazy, Choice and
--     Scheduled have the proofs. Locks, interrupts, statistics and the hooks of the architecture are
--     left out.
--   Buddy/Init is init_zone, with the proofs in Buddy/Ready, Buddy/Order get_order, and Buddy/Entry the
--     entry points that answer an address.
--   Hlist.antt is the hlist of kernel/include/list.h: a cell is a head's `first` or a node's `next`, at
--     the address of its struct, and pprev is the address of the cell that points to a node. Hlist/Seg
--     has the nodes behind a cell, Listed, Added and Behind the operations.
--   Task/Fields.antt is struct task_struct of kernel/include/sched.h; Task/New, Life and Fork are
--     alloc_task_struct, dup_task_struct, the reference count and sched_fork of
--     kernel/core/sched/sched.c, and create_init_process of src/kernel/main.c, over the tasks and the
--     blocks of the heap by address (record Kernel). Task/Outside.antt is the heap and the constants
--     that no file defines, as parameters; the kmalloc of src/kernel/main.c is its `kmalloc`, and its
--     kfree, which is empty, is a ledger here: `live` and `double_free` of Kernel record the calls.
--     The other children of Task have the proofs.
--   Fair/Load.antt, Timeline, Runtime, Pick and Queue are kernel/core/sched/sched_fair.c: the weighted
--     time, the tree, update_curr, the choice of the next entity, enqueue_entity and dequeue_entity.
--     The red-black tree, the scaling, max_vruntime and the load accounts are parameters (RbOps,
--     ScaleOps, VruntimeOps, PickOps, QueueOps) with what they are documented to do; statistics,
--     tracing and bandwidth control have no part in the model. Fair/Order, Sorted, Share, Clock and
--     Least have the proofs.
--   Syscall.antt is the table of the system calls, do_syscall and the calls of src/kernel/main.c, over
--     the tasks of Task/Life and the counts of pages of kernel/mm/buddy.c. Syscall/Outside.antt is the
--     state and the functions outside the sources, as parameters. An `int` argument is the low 32 bits
--     of the register. sys_sched_yield is the one that src/kernel/main.c defines, and its calls have
--     fuel, which they use up. Syscall/Unknown and Clones have the proofs.
--   Fair/Tasks.antt is enqueue_task_fair and dequeue_task_fair over the queues of the groups (Groups); the
--     walk up the parents is a list of entities. Fair/Numbers, Kept, Walks and Counts have the proofs.
--   Fair/Wake.antt is check_preempt_wakeup and yield_task_fair, where resched_curr is a parameter that
--     asks the current task to give up the CPU (WakeOps). Fair/Asked has the proofs.
--   Interrupt.antt is handle_interrupt, handle_exception and update_jiffies of src/kernel/main.c, over the
--     kernel, what is printed and the state of the functions outside (CpuState); a handler returns or is
--     in panic (Ending). The two counts of jiffies are `jiffies` of the kernel and `ticks`. Interrupts come
--     one after another. Interrupt/Count and Panics have the proofs.
--   Start.antt is kernel_init and kernel_main of src/kernel/main.c, with the buddy_init of
--     kernel/mm/buddy.c and the sched_init of kernel/core/sched/sched.c, over the functions outside
--     (StartOps). Halt is how and where kernel_main ends. Start/Halts has the proofs.
--   Console.antt is printk, console_write and serial_putc of src/kernel/main.c, over the ports (Ports) and
--     the vsnprintf that no file defines (FormatOps). A text is a list of bytes that the format makes, and
--     `stack` is what lies behind printk's buffer. Console/Sent has the proofs. The handlers of Interrupt
--     only list the lines that they print.
--   Strings.antt is strlen, strcpy, strcmp, memset and memcpy of src/kernel/main.c over a memory of
--     bytes; Strings/Text and Strings/Blocks have the proofs.
--   Prelude.antt and its children are the shared names, tests, and lemmas on lists and integers.
--
-- Numbers and bounds. `ulong` is `unsigned` in kernel/include/types.h, 32 bits: free_pages, nr_free
-- and the difference of two frame numbers wrap at 2^32, as `% 2 ^ 32` in the model. A pointer to a page
-- is the number of the page and does not wrap; there is a page for every number of an ulong, and a
-- read of one past them is `none` in free_loop. `if` evaluates both branches, so a model binds what
-- a loop does next before it tests.
--
-- Loops. `expand`, `smallest_loop` and `free_loop` recur on the rounds that are left, which are
-- exactly those of the source's loop: high - low, MAX_ORDER - order, and MAX_ORDER - 1 - order. The
-- walks of a list and the loops over a string take fuel and return none when it runs out; the
-- results ask for one round for each entry or byte, and one more. The wait for the port in
-- Console has fuel too, and the result asks for a port that is ready by then. The waiting
-- loops of the locks are steps that lead back to the same place.
--
-- Not modelled. show_mem of kernel/mm/buddy.c, which the file cuts off; the wake-ups and the
-- ticks of the scheduler under kernel/core/sched; the forms of the locks that also mask
-- interrupts; the text of panic of src/kernel/main.c.
-- Tracing, accounting hooks and guard debugging outside the sources have no effect on the state of the model.
-- The assembly under arch and kernel/interrupt, the build files and the user services, whose
-- functions are empty, are left out.
mod Prelude
pub mod ListHead
pub mod Page
pub mod Buddy
pub mod Strings
pub mod Spinlock
pub mod Rwlock
pub mod Sched
pub mod Task
pub mod Console
pub mod Fair
pub mod Hlist
pub mod Interrupt
pub mod Start
pub mod Syscall
