-- ===== src/Lib.antt =====
-- code-slices: small C programs, each one on its own, and three tools. There is one shared pair of
-- components, the list and the queue of c/multi-thread-queue, over which main.c runs a provider
-- and consumers; every other program stands alone. Each file below names its source in its first
-- line, and a definition has the name of the function, macro or variable that it models.
--
--   Base        Native numbers, lists, C strings, C's integers (Base/Int: an `int`, `short` or
--               `size_t` keeps its wrap-around or its overflow), partial steps as Option.
--   Memory      The heap under the list: a cell for each address, with faults for an access to
--               memory that is not allocated, and the state of the queue's mutex. Commands are
--               functions of the heap. Memory/Ends and Memory/Mutex carry what a command does
--               when it ends.
--   Ring        c/multi-thread-queue/list.c and list.h: list_init, list_new, list_free,
--               list_add, list_remove, list_dump. Ring/Shape is the predicate that the heap
--               holds a ring of nodes; Ring/Add, Ring/Remove and Ring/Dump are the operations on
--               it.
--   Queue       c/multi-thread-queue/queue.c: q_init, q_clean, q_enqueue, q_dequeue, as commands
--               that call those of Ring. Queue/Fifo relates sequences of calls to an abstract
--               list, Queue/Unique the memory to that list.
--   Atomic      c/multi-thread-queue/queue.c and list.c once more, each call cut into its single
--               accesses of the memory, with any number of threads interleaved access by access.
--               Atomic/Models says when such a script does what a command of Queue or Ring does,
--               Atomic/Listing that each routine does; Atomic/Calls is about a single call,
--               Atomic/Serial has the invariant of the interleavings and Atomic/Moves what
--               threads can do.
--   Runs        Runs of a step relation that end on every schedule.
--   Family      Families indexed by a thread's number, and sums over them.
--   QueueMain   c/multi-thread-queue/main.c: main, provider_thread and `n` consumers as a step
--               relation whose steps are the program's lock, wait, broadcast, count and queue
--               calls, on the heap of Queue. QueueMain/Stages has the invariant of places and
--               counts, QueueMain/Accounting that of nodes, QueueMain/Missed the wake-up that is
--               missed, QueueMain/Holding, QueueMain/Awake and QueueMain/Finish the runs in which
--               none is missed.
--   FineMain    c/multi-thread-queue/main.c with the consumers' calls of q_dequeue cut into the
--               accesses of Atomic, between which all threads may run. FineMain/View is the state
--               with each call as one step, FineMain/Coarse, FineMain/Simulation, FineMain/Hidden
--               and FineMain/Calls say which step of QueueMain each step is, FineMain/Refine and
--               FineMain/Moves what follows; FineMain/Goes, FineMain/Weights, FineMain/Ranks,
--               FineMain/Beside, FineMain/Called and FineMain/Finish are about the runs to the
--               end. Atomic/Span bounds the steps of a call.
--   ProducerConsumer
--               c/producer-consumer/main.c: the producer, `n` consumers and main over the shared
--               buffer, as a step relation, with signals, broadcasts and wake-ups without a
--               signal. ProducerConsumer/Invariant has its invariant in parts; Safety, Progress
--               and Return what follows from it; Stack and Values the values in the buffer and
--               those taken; Measure and Ending the runs to the end.
--   StringFind  c/string-find.c: string_len, string_compare, the macro TEST_CMP, string_find,
--               main. StringFind/Verdict compares string_compare with strncmp.
--   BitCounter  c/int-bit-counter.c: int_bit_counter over the values of an `int`, and main.
--   HexDec      c/hex-dec.c: hex_char_to_dec, bt_char2_to_byte, main with its loop over the
--               chunks of its argument (`hex_oct`, HexDec/Chunks).
--   FlexArray   c/flexible-string-array.c: helloworld_new, helloworld_dump, helloworld_free and
--               main.
--   Uevent      tools/uevent-view/main.c: dump_event, open_uevent_sock, the receiving loop of
--               monitor_kevents over an explicit sequence of arrivals, main.
--   Inotify     tools/inotify/inotify-watcher.c: event_to_str, dump_inotify_event, the walk over
--               the events of a read, the loop of watcher, main.
--   Seeker      c/seeker.c: main with its exits, the loop of random reads and the handler `done`, over
--               a sequence of rounds and alarms.
--   RotateString
--               c/online-test/rotate-string.cpp: rotate, with its two loops, and main.
--   QqwryIp     tools/qqwry-ip/main.cpp: the loop over the options, and the lookups through the
--               interface IpSeeker.
--
-- `none` is everywhere what C leaves undefined, a fault of the heap, or exhausted fuel; an error
-- that the code reports is a value. The loops with no measure in their state run on fuel: more
-- than the number of nodes is enough for clean_loop of Queue and dump_loop of Ring, more than
-- (strlen (str) + 1) * (strlen (dst) + 1) for string_find_recurse of StringFind, more than the
-- events of a read for walk of Inotify. The theorems about them say that this much fuel gives a
-- result; they are not conditional on one. Each other loop is recursion on a list or on a number
-- of rounds, or a loop of steps.
--
-- Code that is not in the repository is a parameter: malloc (a function of the heap or of the
-- size, with what it promises in Memory and in `Allocates` of FlexArray), the layout of inotify
-- events and its constants (`Kernel` of Inotify), strncmp (a function, with what it promises in
-- `IsStrncmp` of StringFind/Verdict), atoi, stat, random, lseek64, the sockets and descriptors, the
-- results of getopt_long. The class EvaIPSeeker is the interface IpSeeker of QqwryIp. A
-- mutex excludes, and a wait gives up its mutex and asks for it again, as POSIX has it. In
-- QueueMain a call of q_enqueue or q_dequeue is one step, since it holds the queue's mutex from
-- its first access to its last; FineMain has the calls of the consumers access by access. Those of
-- main (q_init, q_enqueue, q_clean) stay single steps there: no consumer runs then. g_thread_count
-- is read with no lock, as the code does, and an access to it is one step.
--
-- Not modelled: the texts of messages, perror and the log lines of the programs with threads, the start of
-- threads and the freeing of their ids, the registration of signal handlers; c/template.c,
-- c/ret-val-in-macro.c and c/multi-constant-char-to-int.c, which are demonstrations with no
-- logic; the EvaIP classes of tools/qqwry-ip, which are another project's code; and the programs
-- in other languages, but for the C++ of c/online-test/rotate-string.cpp and
-- tools/qqwry-ip/main.cpp.
pub mod Base
pub mod HexDec
pub mod Runs
pub mod Family
pub mod Memory
pub mod Ring
pub mod Queue
pub mod Atomic
pub mod ProducerConsumer
pub mod StringFind
pub mod BitCounter
pub mod QueueMain
pub mod FineMain
pub mod Uevent
pub mod Inotify
pub mod FlexArray
pub mod Seeker
pub mod RotateString
pub mod QqwryIp
