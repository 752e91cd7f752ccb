-- ===== src/Lib.antt =====
-- DiMMon, a monitoring system built of nodes in one process: nodes have types that modules
-- register, are connected by hooks along which data flows, and are driven by control messages and by
-- events. This library models the runtime, dmm_*.c and dmm_*.h at the root of the repository.
--
-- The parts, their files and their sources:
--   Timespec              timespec.h, times as seconds and nanoseconds
--   Memman                dmm_memman.h, reference counts
--   State                 the structs of dmm_base.h, dmm_event_types.h, dmm_timer.h, dmm_wave.h and
--                         dmm_sockevent_types.h, the static variables, and commands over them
--   Node, Graph           dmm_base.c and dmm_base.h: nodes, their list, names and connections
--   Hook                  dmm_base.c and dmm_base.h: hooks and their peers
--   Event                 dmm_event.c and dmm_event.h: events and the subscriptions of nodes
--   Timer                 dmm_timer.c: timers, which are events in a list in order of time
--   Wave                  dmm_wave.c: the event that ends a round of the main loop
--   Sockevent             dmm_sockevent.c: events of descriptors
--   Module                dmm_module.c: types, and the loading of modules
--   Message               dmm_message.h and dmm_base.c: control messages, the commands that the
--                         runtime acts on, and delivery; the fan-out of dmm_event.c
--   Data                  dmm_message.h and dmm_base.c: blocks of data nodes, the objects that hold
--                         them, and their sending to the peers of a hook
--   Mainloop              dmm_base.c, dmm_main_loop
--   Starter               modules/starter/starter.c: the node that sets up the others, by a queue of
--                         commands of which one at a time waits for its response
--   Wavebuf, Prepend      modules/wavebuf/wavebuf.c, modules/blackhole/blackhole.c and
--                         modules/prepend/prepend.c: nodes that buffer data, discard it, or put a data
--                         node in front
--   Netip                 modules/net/ip/common.c, send.c and recv.c: nodes that send data over a socket
--                         and that receive it, and the addresses of sockets
--   Sensors               modules/sensors: dummy and edac, memory with its reading of /proc/meminfo,
--                         ifdata with that of /proc/net/dev, and cpuload with that of /proc/stat
--   Main                  dmm_main.c, dmm_initialize and dmm_startup: the configuration file, the
--                         modules and the starter
--   Prelude, Tests        shared names and lemmas; a sample state with the theorems at work
-- A definition has the name of its C function without the prefix `dmm_`. The files below a part hold
-- what is proved about it, and what needs a later part, such as Timer/Trigger.
--
-- How they interact: the main loop waits for a descriptor or for the next timer, starts a wave,
-- delivers a message to the subscribers of the descriptor's event, triggers the timers that are due,
-- and ends the wave. A message to a node is a generic command, which the runtime carries out with the
-- operations of the other parts and answers by a response, or is passed to the receiver of the node's
-- type. An object is freed with its last reference: nodes are held by their hooks and subscriptions,
-- hooks by their peers, events by their subscriptions and their registration.
--
-- The state is one record of functions from addresses to structs. A command takes it and returns a
-- value with the next state, or a fault: a failed assertion, a use of freed memory, or a NULL that is
-- followed. `Returns r P` says that the run `r` does not fault, and that `P` holds of its end.
-- malloc, clock_gettime and epoll_ctl give the answers of three sequences in the state, any at all; the
-- error of each has its branch. Lists of queue.h are lists of addresses; a search by address and
-- LIST_REMOVE are `has` and `unlink`.
--
-- The starter and the nodes of modules have a state of their own. The starter's commands run over it, and
-- what the runtime does with a message of the starter is given as at most one response during the
-- sending. The other nodes run over the state of the runtime, with their own state and the contents of
-- data objects as arguments and results.
--
-- Bounds and fuel: counts of references stop below 2^32 - 1, numbers of nodes, events and waves
-- wrap at 2^32, and seconds are unbounded. The loops of dmm_timers_trigger,
-- dmm_event_sendsubscribed and dmm_data_send run on fuel, since a receiver may lengthen the list
-- that they walk; with receivers that do not, more fuel than cells of the list is enough for the
-- last two. The starter's queue has fuel for the commands that one call carries out: two are enough when
-- responses come at once. A walk over data nodes and the check of received data have fuel since nothing
-- bounds them but the end that they meet: a block is a memory that goes on behind its buffer, and a check
-- that meets no end is a fault. cpuload counts with fuel for the length of its file, of which each round
-- takes a byte, and reads again on fuel, since the file may differ each time. All other loops are over the
-- list as it is at their start, since each of their rounds unlinks the
-- current element of the list and no other.
--
-- Not modelled: constructors and `newhook` act on the runtime by their results only, destructors and
-- `rmhook` by nothing but their call, which is recorded; a receiver is any command. malloc never gives
-- an address again, and fields of freed objects keep their values, so that a use after free is found by
-- `live` where the runtime asserts or counts. Texts are lists of bytes without the NUL. sscanf takes no
-- sign and no space before a number, epoll_wait is given by its answers, and
-- descriptors are not negative. The calls on sockets are given by their results, and `fd` is none for the
-- descriptor -1. The length of a message is the constructor of its content. A file
-- is its bytes, read from its beginning at each message, and fscanf takes no sign; its results at the end
-- of a file are those of the C library of Linux. Output, debugging counters, avgprint and the modules in C++
-- and Lua are left out. cpuload divides floats by a function that gives the bytes of the quotient.
pub mod Prelude
pub mod Timespec
pub mod State
pub mod Memman
pub mod Node
pub mod Hook
pub mod Event
pub mod Timer
pub mod Wave
pub mod Sockevent
pub mod Module
pub mod Graph
pub mod Data
pub mod Message
pub mod Mainloop
pub mod Starter
pub mod Wavebuf
pub mod Prepend
pub mod Netip
pub mod Sensors
pub mod Main
pub mod Tests
