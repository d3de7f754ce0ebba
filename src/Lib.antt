-- ===== src/Lib.antt =====
-- Verification of the CS5600 computer systems assignments: the message cache (practicum1), the remote
-- file system (practicum2), the bounded buffer and the shared array (week7), the process queue (week5),
-- the block loader (week4), the ciphers, random numbers and child processes (week3 and week6), and the
-- first exercise with strings (01-28).
--
-- The parts and the files that model them, with paths from the repository's root:
-- - Common: lists over the native numbers, C ints (`ℤ`) and C strings as lists of byte codes
--   (Common/Lists, Common/Int, Common/Text; `strcmp`, `strcasecmp`, `toupper`, `tolower`), the loop
--   of `fgets` over a file (Common/Lines), and %d read and written (Common/Scan, Common/Decimal).
-- - CircularQueue (week7/queuep.c): `struct queue` is the record `Queue`, `queue_init`, `queue_put`,
--   `queue_get`, `queue_empty`, `queue_full` and `queue_size` keep their names. Fifo is the bounded
--   list that the queue is compared with, Bounds its well-formedness, Refine the comparison.
-- - BoundedBuffer (week7/pqueuep.c and pqueuepmain.c): `pput` and `pget` on the circular queue,
--   and in Threads the two producers and two consumers of `main` as program counters that take
--   turns. A turn is one critical section: the mutexes keep every other thread out of it.
--   `pthread_cond_wait` is the state `asleep`, left by a broadcast or for no reason. Accounts
--   counts the items, Sleep is about the condition variable, Outcome about what the consumers get,
--   Hang about an order of turns that ends in a wait for ever.
-- - Message (practicum1/message.c): the struct, `create_msg`, `store_msg` and `retrieve_msg`; the
--   directory messages/ is a function from ids to files. Strings is about the copied strings, Disk
--   about storing and loading.
-- - Cache (practicum1/cache.c): nodes on a heap in a doubly linked list between two dummy nodes,
--   and a hash table with linear probing that points into it. A command ends, faults where it
--   touches an address that holds no node, or hangs. Lru is the list of entries that the cache is
--   compared with; Links, Table and Slots are about the list and the table by themselves,
--   Invariant ties them together, Steps, Evict, Insert and Touch follow the operations, Refine and
--   Requests compare them. Consistent and Transparent compare the cache with the files alone.
--   Cache uses Message for its reads and its write-through stores.
-- - Server (practicum2/server.c): the permission table (Permissions), the handlers of WRITE, GET and
--   RM, and the splitting and dispatch of a command. Grants is about the table, Transfers about the
--   handlers, Protect about sequences of connections, Dispatch about the splitting.
-- - Client (practicum2/client.c): the three commands and the dispatch of `main`. Commands follows the
--   command lines into the server, Session puts client and server together.
-- - Cipher (week6/cipher.c, the same program as week3/cipher.c): Shift is about single bytes, Output
--   about what the program prints.
-- - Polybius (week3/polybius.c, the same file as week6/polybius.c): `pbEncode` and `pbDecode` over a
--   square that is a list of rows.
-- - GenRand (week3/genrand.c): `lcg`, `genRand` and the numbers that `main` prints, on ints as 32
--   bits; Main is `initSeed` and `main` over its arguments and its file.
-- - StringQueue (week6/queue.c): the linked queue of strings on a heap. Shape is about the heap, Fifo
--   compares the calls with a list.
-- - MultiProcess (week6/multi_process.c): uses StringQueue, and runs the model of Cipher in its child
--   processes. Generate, Load and Chunks are about its three stages, Encrypt puts them together.
-- - Demo (practicum1/main.c): the loop that stores the sample messages, and the cache test. Stored is
--   about the files, Statistics about the test.
-- - Arger (01-28/arger.c): Strings is about its string functions, Output about what it prints.
-- - ProcessQueue (week5/queue.c): the doubly linked queue of processes on a heap. Links and Shape
--   are about the list, Remove about taking a node out, Highest and Take about `remove_process`,
--   Destroy about `destroy_queue`, Calls compares the calls with a list. Main is
--   week5/queuetest.c. The loops have one round more fuel than there are nodes.
-- - Server.Threads (practicum2/server.c): the client threads turn by turn. `turn` is what a thread
--   does up to and with its next call that others can notice, on inodes with a lock each; `run`
--   takes the turns in any order. Start is `client_thread` up to the handler. A `recv` of a client
--   that stays silent has no turn. The threads start with any requests, since `strtok` may hand a
--   thread words of another's text; Words lets the words in use change between the turns. Files is
--   about `open` and `remove`, Cases lists the branches of a turn, Alone, Upload, Handlers and
--   Whole compare a thread that runs alone with the handlers in one piece, Locks, Exclusion and
--   Changes are about `flock`, Rank, Settle and Progress about waiting, Guard, ReadOnly and
--   Unprotected about read-only paths, Overlap about what `flock` does not cover.
-- - LoadMem (week4/loadmem.c): the dynamic blocks and `main`, with `sscanf` as far as it is used.
--   Rounds and Blocks are about the loops over a line; a round more than the line has bytes is
--   fuel enough, and a number that no int holds is an outcome, as C leaves it undefined. Reload is
--   about files written as blocks are printed.
-- - SharedArray (week7/thread_shared.c): the writer and the reader as turns in any order; Reads is
--   about what the reader may print.
-- The Tests modules run the definitions at concrete inputs.
--
-- Numbers: sizes, counters, ids and bytes are natural numbers, the values in the queues C ints without
-- a bound; the counters of these programs stay far below 2^31 (at most 30 items, 1000 accesses). The
-- probing loops of the cache run on fuel 103, the length of the table: the table does not change
-- while a loop runs, so a search that has seen every slot never ends, and that is the outcome `hangs`.
-- `freeQueue` and `processInChunks` run on fuel that their theorems choose from the number of strings.
-- The other loops on fuel are named with their parts.
--
-- Outside the model, as parameters: the outcomes of system calls (`Io` of the message store, `Os`
-- of a request on the server or of the multi-process driver, `Net` of a command of the client),
-- the contents of fresh memory, the values of `rand` and `time`, the file that the system finds
-- under a path (`resolve`), the order in which the threads take their turns, and how words of commands
-- change meanwhile. `malloc` succeeds
-- where the source does not test it. A message that a cache node points to stands in the node. The
-- model of the server in one piece handles one connection after another; the one by turns interleaves
-- them. Prints, delays, the accept loop
-- of the server and the setting up of sockets change no state that is modelled.
pub mod Common
pub mod CircularQueue
pub mod BoundedBuffer
pub mod Message
pub mod Cache
pub mod Server
pub mod Client
pub mod Cipher
pub mod Polybius
pub mod GenRand
pub mod StringQueue
pub mod MultiProcess
pub mod Demo
pub mod Arger
pub mod ProcessQueue
pub mod LoadMem
pub mod SharedArray
