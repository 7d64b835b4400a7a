-- ===== src/Lib.antt =====
-- The kernel of a small teaching operating system, and its C sources as definitions with theorems.
--
-- The kernel is a set of C files that share global state. kmem.c hands out pages and slices of
-- memory. procs.c keeps the table of process control blocks and the queues that thread them, and
-- chooses the process that runs. syscalls.c has the handlers that a user process reaches by an
-- interrupt: they read their arguments from the saved context of the caller, work on the queues,
-- and call the scheduler. clock.c advances the time, wakes sleepers and ends time slices. klibc.c
-- has the routines on memory blocks, strings and numbers as text that the others use. sio.c drives
-- the serial line through two buffers, which its interrupt handler empties and fills. cio.c is the
-- console: it writes to the screen, copies what it writes to the serial line, and buffers the
-- characters that are typed. udp.c, ipv4.c and ethernet.c build packets, each as the payload of the
-- next, and dmx.c sends lighting data over a serial port. user.c builds the stack of a program that
-- is to be run, pci.c looks for devices, and vga_graphics.c draws.
--
-- Base: tests on native numbers, lists, and Outcome, the result of code that can fail an assertion
-- (panic) or run out of the fuel of a loop.
-- Kmem: kmem.c. A free list is the list of its blocks in link order, with their addresses. The
-- operations have the names of the C functions; a helper names the part of a function that its
-- comment quotes. Pool says when a free list is in order, and Alloc, Free, RoundTrip, Coalesce,
-- Init, Clip and Slices are about the operations.
-- Pcb: include/procs.h and the status codes of include/defs.h. A pointer to a PCB is the index of
-- its slot in ptable.
-- Queue: the queue operations of procs.c on the next pointers of that table. Chain says which
-- PCBs a queue holds; Insert, Order, Remove, Search and Unlink are about the operations.
-- Kernel: the globals of procs.c, kmem.c and clock.c as one record, commands over it, and the
-- macros REG, RET and ARG of include/kdefs.h.
-- Procs: the other functions of procs.c, and user_cleanup of user.c. Find, Ready and Free are
-- about the table searches, the scheduler and the free list.
-- Syscalls: the process system calls of syscalls.c; Sleep and Wait are about two of them.
-- Clock: clk_isr and clk_init of clock.c, without port output. Step and Wake are about the loop
-- that wakes sleepers.
-- Klib: the block routines (Blocks), number conversions (Numbers), and strings and sprint (Strings,
-- with Formats and Fields about them) of klibc.c.
-- Sio: sio.c, with a received character and an empty transmitter as two operations. Output, Drain
-- and Newline are about the way to the wire, Input about the way from it.
-- Cio: cio.c. Screen is video memory, the scrolling region and the cursor, with Region, Room,
-- Cursor and Scrolling about them, and Printf is formatted output, which Agrees compares with
-- sprint; Keyboard is the input buffer, with Lines and Reads.
-- Net: Ethernet, Ipv4 and Udp are ethernet.c, ipv4.c and udp.c, and Sent is about what
-- ipv4.c writes; Checksum has the loops that the last two share, and Folds is about them.
-- Dmx: dmx.c, and Frames about the stream of bits.
-- Devices: the handlers of read and write in syscalls.c, on the kernel, the console and the users'
-- buffers together; Serial and Terminal are about read from the two channels, and Blocked has the
-- part of sio_isr that serves a process which waits for input, with Served about it.
--
-- Sharing: the six queues of procs.c together, on one process table, through the commands that
-- move PCBs between them. Moves, Calls and Running are about one insertion or removal and about the
-- scheduler, Events and Blocking about the clock interrupt and system calls, Waking about a process
-- that is woken, and Reach has the kernel as a state machine.
-- Loader: stack_setup of user.c, on bytes. Words and Argv are about words, strings and pointers in
-- memory, Start about the stack that a program finds.
-- Vga: vga_graphics.c, with Paint and Outline about pictures and rectangles; Sprites has the back
-- buffer as a whole, sprites and text with the font of include/vga/font8x8.h, and Shown is about them.
-- Pci: the searches of pci.c, with Found about them.
-- Snake: the game of usercode/vga/snake.c, with Heading about its directions, Cells about the
-- snake's cells, and Rounds about rounds with their food.
--
-- Integers are natural numbers with their wrap-around written out; an int is its bit pattern, but
-- in Vga and Snake a coordinate or a direction is an integer of either sign.
-- Pointer arithmetic in the block routines does not wrap. Blocks of memory are reached through
-- functions from addresses to words (Kmem, Kernel) or to bytes (Klib.Blocks, Klib.Strings), and
-- video memory and the buffers of drivers through functions from an index; the link words that
-- kmem.c keeps inside free blocks are the list itself.
--
-- Fuel: a search of a queue has one round more than the length field of the queue, which is
-- enough when the field is right. schedule and pcb_zombify call each other; two levels are enough,
-- because pcb_zombify schedules only waiting processes. The wake loop of clk_isr has one round
-- more than the sleep queue is long. cvtdec0 has ten rounds, the digits of an int. A loop over
-- a string has fuel for its characters and the NUL. cio_getchar runs along the list of the scan
-- codes that the keyboard delivers, and comes to out_of_fuel where it would wait for ever; sprint
-- and do_printf run along their format, and the folding of a checksum has three rounds, enough for
-- 32 bits. The loop of sys_fork over saved frame pointers is cut off after as many links as a stack
-- has words. The class search of pci.c and place_food of snake.c have fuel
-- because they may not end.
--
-- Not modelled: network card and audio drivers, which only access device registers; of pci.c the
-- probing of a device that was found; of vga_graphics.c lines, circles and triangles, the palette and
-- waiting; the system calls exec and bogus, boot code, the other user programs and build tools. The
-- routines that only print are left out, of sio.c the set-up of the UART, and of snake.c the drawing
-- of a round and the waiting for keys. Sharing follows neither sys_exit nor sys_kill: what
-- pcb_zombify does to a waiting parent leaves the queues out of order.
pub mod Base
pub mod Kmem
pub mod Pcb
pub mod Queue
pub mod Kernel
pub mod Procs
pub mod Syscalls
pub mod Clock
pub mod Klib
pub mod Sio
pub mod Cio
pub mod Net
pub mod Dmx
pub mod Devices
pub mod Sharing
pub mod Loader
pub mod Vga
pub mod Pci
pub mod Snake
