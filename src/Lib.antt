-- ===== src/Lib.antt =====
-- Verification of the arbitrator of IP-Noise, the program of C/arbitrator that delays and drops packets
-- at random, so that a network can be tested under bad conditions.
--
-- The parts of the program. A client sends transactions over a connection (iface.c): a number that
-- names an operation, and its parameters. The handlers of the operations (iface_handlers.c) build a
-- configuration (iface.h): chains, each with a filter on packets and a Markov chain of states, each
-- with probabilities to drop or delay a packet. The bytes of the connection go through two queues
-- (text_queue_in.c and text_queue_out.c); the first lets a transaction that is not there whole be read
-- again. When the connection ends, its copy of the configuration takes the place of the one in use. The
-- packet logic (packet_logic.c) asks the chains of the configuration in use for a verdict on each
-- packet; a packet that is to be delayed waits in the delayer (delayer.c), a thread with a priority
-- queue (pqueue.c) that is ordered by time. The threads of main.c carry the packets from one part to the
-- next. The switcher (switcher.c) moves the chains from state to state, with a priority queue of its own.
-- A readers-writers lock (rwlock.c) keeps the configuration in use from the threads while it is replaced.
--
-- The files.
--   Model: the structs of C/arbitrator/iface.h; Model.Alloc: chain_alloc, state_alloc, the functions
--     that duplicate, and ip_noise_arbitrator_data_clear_all of iface.c.
--   TextQueue.In and TextQueue.Out: the two queues, on TextQueue.Memory, the byte operations memcpy and
--     memmove; a buffer is a function of the offset.
--   Iface.Monad: the state ip_noise_arbitrator_iface_t and how a call ends; Iface.Read: read_int,
--     read_uint16 and read_param_type; Iface.Handlers: the handlers, get_chain and get_state;
--     Iface.Operations: the table `operations` and the search of it; Iface.Transact: the function
--     ip_noise_arbitrator_iface_transact; Iface.Connection: the functions init_connection and
--     close_connection; Iface.Sound: the well-formed states, and the steps of a server.
--   Packet.Info: get_packet_info; Packet.Filter: is_in_ip_filter and is_in_chain_filter; Packet.Delay
--     and Packet.Decide: chain_decide, decide and the function that packet_logic.h exports;
--     Packet.Verdict: verdict.h and the sum of the verdicts.
--   Iface.Pipes: the threads poll_conn and write_poll_conn of iface.c.
--   MessagesQueue: queue.c, the list of packets that wait for a verdict; MessagesQueue.Wait: the waiting
--     of its reader, as a step relation.
--   Names: str2int_dict.c, the dictionaries of names, over a tree that is a parameter.
--   PQueue: pqueue.c, the heap, for any comparison, with its array as a function of the index.
--   Delayer: delay_packet and the loops of delayer.c; Delayer.Thread: its thread, next to the callers
--     and the clock, as a step relation.
--   Rwlock: rwlock.c, the calls of the lock, and any number of threads that use it as a step relation.
--   Switcher: the poll of switcher.c, with its start behind a change of the data, on the chains of Model.
--   Arbiter: the loop of main, and the threads of main.c that take a packet from the queue to the packet
--     logic, and from there to a verdict or to the delayer.
--   Kernel: the branches under __KERNEL__. Kernel.Delayer: delayer.c, with a timer of the kernel in place
--     of the thread; Kernel.Switcher: switcher.c, with a timer for each chain in place of the
--     queue; Kernel.Stable: the release times of packet_logic.c, in jiffies; Kernel.Device: the character
--     device of iface.c, in place of the pipes; Kernel.Mutex: the macros of k_pthread.h.
--   BinarySearch: SFO_bsearch of fcs_dm.c; Mask: the bit masks of a filter; Time: the arithmetic on
--     struct timeval, and ip_noise_timeval_cmp of delayer.c.
--   Common: helpers; Tests: runs on concrete inputs.
--
-- Outside of Kernel, the user-mode build is modelled, with USE_TEXT_QUEUE_IN and USE_TEXT_QUEUE_OUT. What
-- the code does not implement is a parameter, the record Externals of Model: the type `double` with its operations, the
-- dictionary of names on the red-black tree, and what an int that was never set holds. The numbers read
-- from /dev/urandom and the times of gettimeofday are sequences, the record Env.
--
-- Bounds. Undefined behaviour (a read outside of an array, a shift by 32 or more, the overflow of an
-- int, the use of an unset field) is `none`, or the outcome `faults`. A conversion to `int` wraps.
-- The lengths of the queues are taken without overflow. malloc is taken to succeed. Bytes that come
-- in during a transaction are taken to be there when it begins. The loops of read_param_type run on
-- fuel, one more than the length of the text, since each round reads a byte; the search runs on fuel
-- one more than the length of the array, since each round makes the interval shorter.
--
-- The loops of the heap run on fuel, the number of its elements, since each round halves or doubles the
-- index; the loop that releases runs on one more than that number, since each round takes one out, and
-- so does the loop of a poll, since an event is replaced by one that is not over yet.
--
-- Threads. The steps of a thread are what it does between taking a mutex and giving it up, so that a wait
-- on a condition is two steps; a wait can end for no reason, and a signal wakes a thread that waits. In
-- MessagesQueue.Wait a wait that ends for no reason is kept apart, since the code does not stand it. The
-- calls of the kernel's delayer are taken one at a time; its mutexes do not bring this about. So are those
-- of the kernel's switcher, whose timers wait for the lock of the data.
--
-- The loop that empties a dictionary runs on one more than the size of the tree, and the loop of the
-- kernel's delayer on one more than the size of its queue. In the kernel build jiffies has 32 bits, and
-- the number of jiffies in a second is a parameter.
--
-- Not modelled: the named pipes themselves, the loops that only begin a thread's next round, what the
-- main program does at its start, the other parts of the kernel build, and the imported red-black tree.
mod Common
pub mod Kernel
pub mod MessagesQueue
pub mod Names
pub mod PQueue
pub mod Delayer
pub mod Rwlock
pub mod Switcher
pub mod Arbiter
pub mod Model
pub mod Mask
pub mod TextQueue
pub mod Iface
pub mod Packet
pub mod BinarySearch
pub mod Time
mod Tests
