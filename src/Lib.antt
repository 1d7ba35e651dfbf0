-- ===== src/Lib.antt =====
-- A model of the Linux kernel module that gives a process fibers, of its user-space library, of
-- the directory /proc/<pid>/fibers that shows them, and of the simulator that runs on fibers.
--
-- The program. The module is SviluppoHashTable/Module/Fiber.c, with the structures of Strutture.h
-- and the command numbers of Ioctl_interface.h beside it. A process opens the device (fib_open),
-- and its threads make ioctl calls (fib_ioctl): a thread turns itself into a fiber (fib_convert),
-- creates fibers (fib_create), switches to one (fib_switch_to), and uses storage that belongs to
-- the fiber it runs (flsAlloc, flsFree, flsGetValue, flsSetValue). The library
-- SviluppoHashTable/Fiber_library/Fiber_interface.c wraps each command in a function. Probes on
-- functions of the kernel add the directory "fibers" to that of an open process, with a file of
-- statistics for each fiber (myread).
--
-- 2018-fibers is a library of fibers in user space (ult.c) with a simulator of telephone cells for
-- a load: each fiber has a cell (model.c, channel.c) and a calendar queue of its events
-- (calqueue.c), draws random numbers (numerical.c), and serves its events in a loop (main.c).
--
-- The files.
--   Common      names of the libraries passed on; arrays, signed integers and Boolean tests.
--   Kernel      the structures and the memory they stand in. Kernel/Store has the commands on it,
--               Kernel/Loops the loops over the hash tables; Kernel/Rounds, Kernel/Caller and
--               Kernel/Target have the lemmas on what these loops find.
--   Fls         the four functions on storage, and the map that they implement (Fls/Refine).
--   Entries     the entries of a listing, with the name of a fiber in decimal.
--   Fiber       do_thread_create, do_fib_create, fib_convert, fib_create and fib_switch_to.
--   Contention  fib_switch_to on several processors at the same time: the accesses to the shared
--               fields and the locks one by one, in any interleaving.
--   Process     fib_open and fib_release.
--   Ioctl       fib_ioctl.
--   Listing     the four probes on listing and looking up a directory of /proc.
--   Reading     myread.
--   Interface   the functions of the library over fib_ioctl; three of them have the names of
--               functions of the module, and are convert_thread, create_fiber and
--               switch_to_fiber here.
--   Ult         2018-fibers/src/ult.c, a library of fibers in user space with the same operations;
--               Ult/Machine has its state, Ult/Reach its histories.
--   Doubles     the operations on doubles that the simulator uses, and their laws.
--   Calendar    calqueue.c. Calendar/Machine has its state, Calendar/Buckets what goes on in the
--               buckets; Calendar/Valid has the invariant, Calendar/Bag the histories.
--   Random      numerical.c: Random; Expent is expent of Cell/Machine.
--   Cell        model.c and main_loop of main.c; Cell/Radio is channel.c, Cell/Start the whole run
--               of a fiber.
--   Threads     thread.c, as steps of any interleaving.
--   Invariant   what holds of the memory between two calls, and the histories of calls
--               (Invariant/Reach).
--   Tests       a sample memory and the theorems at concrete inputs.
-- A function of the source has the same name here, in snake_case (flsGetValue is fls_get_value).
-- What it does inside of a loop is a function of its own, named for what it does.
--
-- The memory. A thread and a fiber have an address, and the memory is a partial function from
-- addresses; kzalloc gives an address that was never used and does not fail. A process is reached
-- through the table alone and stands in it. A hash table is the list of its nodes, the one added
-- last in front: the loops test the id of each node, so the nodes of other buckets would be passed
-- over. Arrays that one fiber owns (registers, storage) stand in the fiber. Words are natural
-- numbers with their wrap-around written out; `long` and `long long` are signed.
--
-- Errors. A command ends with a result, or in a fault, or spins. A fault is an access through NULL,
-- to freed memory or outside of an array, and the use of an uninitialised pointer. Uninitialised
-- variables that hold numbers are parameters.
--
-- In the simulator a double is of any type with the operations of Doubles. What the theorems suppose
-- of these are laws that hold of the doubles of the machine: NaN is not left out of the laws of the
-- comparison, and a law for numbers says so. The casts to int and long are any functions; a cast
-- that gives a negative bucket number ends the run, and the theorems keep this end apart from
-- faults. A bucket, and the list of channels, is the list of its nodes. The operations of the queue
-- call one another through resize, which has fuel for the depth of the calls: one is enough, since
-- a resize puts into a calendar with room, and its samples are taken while resizing is disabled.
-- main_loop is run for any number of rounds. malloc does not fail, and a queue does not hold as many
-- events as an int can count.
--
-- Loops are structural recursion on the list they go over. `decimal` has fuel for the digits it
-- prints, ten for an int and twenty for a word, which is all that such a number has.
--
-- In ult.c a context is the place of the code where it goes on. A thread that creates a fiber jumps
-- to the new stack and back; the model runs these pieces in the order of the jumps, and is a fault
-- if a jump goes elsewhere.
--
-- Parameters: whether access_ok, copy_from_user and copy_to_user accept the address; kstrtol and
-- kstrtoul; what %p prints; the addresses of the listings; the size of a page and the block that
-- posix_memalign returns; the doubles; random() of the C library, and what malloc leaves in a
-- block of the simulator.
--
-- Not modelled: other calls of the module than the switch that run at the same time on two
-- processors, so outside of Contention the spin locks are taken and released but never contended,
-- and RCU has no effect (nor has synchronize_rcu, which fib_switch_to calls inside rcu_read_lock);
-- Pre_Handler_Exit, whose registration as a probe is commented out, so that nothing runs when a
-- thread exits; loading and unloading the module; the earlier versions of the module in the other
-- directories; the random switches between the fibers of the simulator, and its measurement of
-- time.
pub mod Calendar
pub mod Cell
pub mod Common
pub mod Contention
pub mod Doubles
pub mod Kernel
pub mod Fls
pub mod Entries
pub mod Fiber
pub mod Process
pub mod Random
pub mod Ioctl
pub mod Listing
pub mod Reading
pub mod Interface
pub mod Threads
pub mod Ult
pub mod Invariant
pub mod Tests
