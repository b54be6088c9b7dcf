-- ===== src/Lib.antt =====
-- Linux system programming in C: small programs, one to a file of the repository, in folders by topic.
--
-- The models are translations of the C functions: a program's variables are a record or arguments, a
-- loop is a recursive function, and a system call is an argument or a field of a record that the
-- function takes. The programs do not call one another, except through files, sockets and shared memory.
--
-- FileIo ("1_File IO": mycp.c, mycp2.c, merge.c, split.c): the files are a map from names to bytes, an
-- open file a name and an offset, and `main` a function of `argv`, of what the buffer held before and of
-- the files. A name stands for a file: hard and symbolic links are left out, and so are errors of `read`
-- and `write` on a file that has been opened. The loops take fuel; more fuel than the source has bytes
-- is enough, since each round reads at least one byte.
--
-- FileIo.Mapped ("5_Inter-Process Communication/mycp3.c") copies by way of mapped memory, over the same files.
--
-- Directories ("2_Files and Directories": mylsr.c in Directories.Walk, myrm.c in Directories.Removal): `visit` and
-- `descend` are `Doit` over a directory as a tree, and a name is its bytes. `remove` is an argument.
--
-- Chat ("9_Chatting server & client/chats.c"): the global variables are the record `Server`, a round of
-- `main`'s loop is `round`, and the system calls of a round are the record `Kernel`. `fault` is the
-- result where the code leaves what C defines. The fuel of the loop over descriptors is one more than
-- the length of `sockIdx`, which bounds them. What is printed is left out, as is the field `tid`.
--
-- ProdCons ("6_Synchronization/prodcons_s.c", prodcons.h): the two threads are program counters over
-- the record `System`; `producer_at` and `consumer_at` are their steps, `Step` lets either one go on, and
-- `Reach` holds what `main` can reach. One step is one access to shared memory or one semaphore call. The
-- number of rounds and the size of the buffer are those of prodcons.h, 20 and 2. The branches for a
-- semaphore call that fails, `ThreadUsleep` and the messages are left out.
--
-- Monitor ("6_Synchronization/prodcons_m.c"): as ProdCons, with a mutex and two condition variables;
-- `producer_step` and `consumer_step` are the threads' steps. A wait on a condition variable gives the
-- mutex up, sleeps, and takes the mutex again; `Reachable` also lets it wake without a signal. Calls that
-- fail, `ThreadUsleep` and the messages are left out.
--
-- Queue: the queue that the buffers of ProdCons and Monitor stand for. The items that wait are the slots of
-- the ring from the next one to be read up to the next one to be written.
--
-- Processes ("6_Synchronization": producer_s.c, consumer_s.c): the loops are those of ProdCons, in two processes
-- that start at any time, with the calls of `semInitValue` in the consumer. New semaphores are 0, as Linux
-- makes them. Processes.Removal adds the removal of the semaphores at the producer's end, and the calls of the
-- consumer that fail for it. `SEM_UNDO` changes nothing here: each exit comes when the other process waits no more
-- or the semaphores are gone.
--
-- Busy ("6_Synchronization": prodcons_t.c, producer.c, consumer.c): the same buffer with busy waiting and no
-- synchronisation, by threads or by processes. Each access reads what was written last; what a compiler
-- may make of a data race is left out.
--
-- SemLib ("6_Synchronization/semlib2.c", semlib2.h): `sem_t` is the record `SemT`, with what the calling
-- thread knows of the mutex in place of the mutex. What the pthread calls answer is the record `Calls`,
-- and `sem_wait` takes a list of the wake-ups, with the value that each finds.
--
-- ChatClient ("9_Chatting server & client/chatc.c"): `send_id`, `send_msg`, `receive_msg` and `start_client`
-- are `SendID`, `SendMsg`, `ReceiveMsg` and `main`, with what `send`, `recv` and the other calls answer as
-- arguments, one answer for each round of a loop. Delivery puts them together with the server of Chat.
--
-- Sipc ("6_Synchronization": sipc4.c, sipc3.c): the threads `Sipc1` and `Sipc2` as places in the code over
-- the records `Exchange` (semaphores) and `Talk` (mutex and condition variable); Prelude.Threads has the
-- runs of two such threads. Calls that fail are left out. Sipc.Started has sipc1.c and sipc2.c, the exchange of
-- sipc4.c in two processes of which one sets the semaphores; `Ending` adds the exit of sipc1.c, which takes back
-- what was done with `SEM_UNDO`.
--
-- SystemV ("6_Synchronization/semlib.c"): the functions over the record `SysV` of the kernel's calls; the
-- record `IsSysV` states what is documented of them, and a kernel that counts meets it. The flag `SEM_UNDO` is
-- part of a `SemOp`; what an exit undoes is in the models of the programs.
--
-- Signals ("4_Signals": alarm.c, mysleep.c): the alarm is the number of seconds until it goes off, and a step is
-- a call of the program or a second.
--
-- ThreadSleep: `ThreadUsleep` of "6_Synchronization/prodcons_s.c", with what its calls answer as the record
-- `PthreadCalls`.
--
-- ThreadSums ("3_Processes and Threads/tadd.c"): each thread is a record `Adder`, whose places in the code are
-- `Adding`; `sum50` and `sum100` are their steps, and `result` is what `main` prints.
--
-- Rpc ("8_Programs": app.c, rpc.c): `calc_step` is the client's `Calc`, `rpc_step` the server's loop, over the
-- record `Service`; the semaphores are their values. Rpc.Callers has any number of clients at once, over the
-- record `Callers`. `app_again` is the exit of a client, with what `SEM_UNDO` takes back, and the start of the next
-- one. The handler of SIGINT is left out.
--
-- Programs ("8_Programs": del.c, pattern.c): in del.c the array is a list and the pointers are indices into it;
-- the fuel is one more than its length, since each round reads one element further. Programs.Search has
-- pattern.c, with the file as the list of its bytes; the fuel is two more than its length, since the first
-- place is read twice and one round finds the end. What stands behind the array in memory is an argument.
--
-- Ipc ("5_Inter-Process Communication"): fifos.c and fifoc.c in Ipc.Fifo, a server and any number of clients over
-- the record `World`; sipc1.c and sipc2.c in Ipc.Flag, and msgq1.c and msgq2.c in Ipc.MessageQueue, each two
-- processes with the runs of Prelude.Threads. The texts are those of Sipc.
--
-- Mipc ("5_Inter-Process Communication/mipc.c", synclib.c): the two processes after `fork`, as places in
-- the code over the record `Family`; `parent_step` and `child_step` are their steps, and a pipe is the
-- list of its bytes. The loops' bound is `NLOOPS`, 10. Calls that fail are left out.
--
-- Servers ("7_Sockets": tcps.c, hw2.c, udps.c, tcpc.c, udpc.c in Servers.Stream, select.c and hw3.c in
-- Servers.Select, hw3.c with its threads in Servers.Pool, tcpc_dns.c in Servers.Named): a message is the record `MsgType`, and the other side of a connection is what `read`
-- brings and whether `write` succeeds. `blocked` is a call that waits for ever. The fuel of `decimal`, which
-- prints an `int` from 0, is 10, the most digits that one has. Signal handlers are left out.
--
-- Listing ("2_Files and Directories/mylsl.c"): `long_listing` is `main`, with the names in the directory
-- and the answers of `lstat`, `getpwuid`, `getgrgid` and `localtime` as the record `Machine`. The file type
-- and the permission bits are taken as the macros of sys/stat.h read them. A line of output is the record
-- of its fields. Listing.Number has `ch_int`, which nothing calls; its fuel is the digits of an `int`.
--
-- Not modelled: what PROJECT.json lists as such, with the reason.
pub mod Prelude
pub mod FileIo
pub mod Chat
pub mod ProdCons
pub mod SemLib
pub mod Monitor
pub mod Listing
pub mod Mipc
pub mod Sipc
pub mod ChatClient
pub mod Servers
pub mod SystemV
pub mod Rpc
pub mod Programs
pub mod Queue
pub mod Processes
pub mod Busy
pub mod Ipc
pub mod Directories
pub mod Signals
pub mod ThreadSleep
pub mod ThreadSums
