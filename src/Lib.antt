-- ===== src/Lib.antt =====
-- Verification of RIOT-CSP-MODULE, channels and processes in the style of CSP for RIOT OS
-- (modules/csp/csp.c and modules/csp/include/csp.h).
--
-- The program. A channel joins two threads. It has two files, ring buffers of CHANNEL_BUFSIZE
-- bytes, one for each direction: a thread sends on files[1] if it made the channel and on files[0]
-- if not, and receives from the other one. A message goes through a file as the bytes of its size
-- and then its data. The channel also has two slots, thread_read_blocked for a sender that sleeps
-- and thread_write_blocked for a receiver that sleeps. A call runs with interrupts off; where it
-- has to wait it registers in its slot, marks itself asleep and yields, and where it has moved
-- bytes it readies the thread in the other slot and switches to it. Without the buffered flag the
-- two sides first meet (channel_synchronize).
--
-- The files of this library.
--   Riot.antt          what the module calls of RIOT OS, as parameters: the records RingBuffer (rb_ names)
--                      and Kernel (threads, statuses, interrupt mask) with the documented behaviour as
--                      laws. Riot/Model.antt is a value of both, on which the tests run.
--   Channel.antt       struct channel and the operations on its fields; Channel/Flags.antt the flag bits,
--                      Channel/Size.antt the bytes of a size_t.
--   Sched.antt         channel_sched_self, channel_sched_other, channel_synchronize; Sched/Effects.antt
--                      what they change and what they leave.
--   Send.antt          channel_send, channel_send_msg, _channel_send_msg; Send/Refines.antt against the
--                      specification.
--   Recv.antt          channel_recv, channel_recv_msg, channel_recv_ptr, _channel_recv_msg; Recv/Refines.antt
--                      against the specification.
--   Drop.antt          channel_drop; Drop/Meeting.antt whom it waits for, Drop/Refines.antt and Drop/Whole.antt
--                      what it does beside channel_recv, and on a file of whole messages.
--   Try.antt           channel_try_send, channel_try_recv; Try/Contents.antt, Try/RoundTrip.antt.
--   Masks.antt         the interrupt mask of all these calls.
--   Irq.antt           the same calls in an interrupt.
--   Bounds.antt        how far sends and receives go in the memory of their callers: Bounds/Sends.antt,
--                      Bounds/Receives.antt.
--   Frame.antt         what they leave alone: flags, creator, sizes, the file of the other direction.
--   Select.antt        channel_send_select and channel_recv_select, for a number of turns;
--                      Select/First.antt, Select/Takes.antt.
--   Csp.antt           processes: _csp, csp_dispatch, csp_kill, csp_running, csp_wait, csp_ret, with the thread
--                      calls of RIOT as the parameter CspKernel; Csp/Lifecycle.antt. Csp/Macros.antt holds GO and the
--                      macros that place its arguments.
--   Examples.antt      programs over channels as lists of messages: Plexer (examples/packet_plexer; its Streams.antt
--                      is over the channels of the module), Worker
--                      (measurements/thread_dueling, examples/thread_duel_csp, measurements/simple_work), Jobs
--                      (examples/workergroups, as threads that call in any order over queues of at most
--                      four messages: Jobs/Network.antt, Jobs/Diamond.antt, Jobs/Runs.antt), PingPong (examples/ipc_pingpong_csp and
--                      measurements/ipc_pingpong_csp), Duel (the processes and main of
--                      measurements/thread_dueling), Dueling (main of examples/thread_duel_csp, over the channels
--                      of the module), Scripts (measurements/api, examples/readme/main.c),
--                      Arguments (examples/readme/simple.h), Simple
--                      (measurements/simple_work; Simple/Old.antt is its old_main.h), Prints (examples/goroutines, examples/hello_world).
--   Collisions.antt    two calls on the same side of an unbuffered channel, and a third on the other side.
--   Closing.antt       channel_close, channel_set_buffered and the calls on a closed channel; Closing/Waits.antt
--                      and Closing/Lost.antt the calls that are at a pause when it is closed.
--   Transfer.antt      the specification of a channel: a queue of bytes and two threads that sleep. Its
--                      modules hold the relation to the code (Shows), the invariant of one transfer
--                      (Link), the interleaved calls (System), what follows for every schedule
--                      (Delivery) and with a scheduler that can run any thread that does not sleep
--                      (Delivery/Completed), the queue of messages of a buffered channel (Fifo), any number of
--                      sends and receives over one, interleaved (Traffic: the account of the messages in Traffic/Order, who
--                      sleeps in Traffic/Alive, how the receives go on in Traffic/Drained; Traffic/Walk and Traffic/Unmet follow
--                      single runs, over an unbuffered channel too), messages in both directions, one
--                      after the other (Talk, Talk/Completed), calls with null pointers (Barrier), and a file
--                      with no room for a size (Overflow).
--   Tests.antt         runs of the definitions on concrete channels.
--   Common.antt        numbers, tests, lists.
--
-- How the code is modelled. A call of C that can give up the processor is cut at those points: it
-- is a function from the world (the channel and the kernel) to an outcome, which says that the call
-- has returned or that it stands at a program point, together with the world that it leaves. A
-- second function goes on from a point. Every turn of a loop of the code ends at such a point or
-- returns, so these functions need no fuel. csp_wait, the select operations and the worker of
-- measurements/thread_dueling loop until something outside happens or a count is met: they take a
-- number of turns, and the theorems say with which number they return or that none is enough. The
-- program points hold the local variables of the C function. Between two points of a call the world
-- may change in any way; Transfer/System.antt lets two calls run in any order, with a kernel that
-- may pick any thread that does not sleep and keeps the states of the threads, and its runs count
-- their steps. irq_restore followed by irq_disable is a point of its own, since an interrupt can
-- switch threads there.
--
-- Sizes. A size_t has four bytes, little end first (the 32-bit targets of RIOT), and a message has
-- less than 2 ^ 32 bytes where a theorem says so. CHANNEL_BUFSIZE is 32, its default. Bytes are
-- natural numbers, since the module moves them and does not compute with them. The flag word is a
-- natural number with its bit operations.
--
-- Not modelled. RIOT OS is a git submodule: the ring buffer (the default one, not TSRB), the
-- scheduler and the interrupt mask are the parameters above. channel_dump_buffer and
-- channel_dump_rb print. The accessors at the end of csp.h stand in a section that is not
-- compiled (#if 0). The loops of measurements/ipc_pingpong_csp over a channel need one of them. The
-- timers and the printing of the measurements are left out. DEBUG output and assertions on null pointers have
-- no counterpart. A thread is its process id, so that a thread_t pointer never dangles.
pub mod Common
pub mod Riot
pub mod Channel
pub mod Sched
pub mod Send
pub mod Recv
pub mod Drop
pub mod Try
pub mod Masks
pub mod Frame
pub mod Irq
pub mod Bounds
pub mod Closing
pub mod Collisions
pub mod Csp
pub mod Select
pub mod Examples
pub mod Transfer
pub mod Tests
