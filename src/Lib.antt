-- ===== src/Lib.antt =====
-- VerkOS: the kernel stam (pkg/stam), with the archiver vcpio (pkg/vcpio) and the writer of
-- programs of the compiler savc (pkg/sav) that hand it its input, and the supervision of services
-- in urverk (pkg/urverk). This library models the parts that hold their logic and proves what they
-- promise to one another.
--
-- Parts. pkg/stam/sched.c keeps the table of threads and decides which of them each processor
-- runs; a thread that waits for a pipe, a child or a line sleeps there. pkg/stam/signal.c enters
-- and leaves the signal handlers of a program. pkg/stam/file.c keeps the open files and the pipes,
-- and sleeps and wakes through the scheduler. pkg/stam/tcp.c is the table of connections; a
-- segment reaches it from pkg/stam/net.c, whose checksum it uses. pkg/stam/net.c also keeps the
-- UDP sockets and the cache of hardware addresses. pkg/stam/mmu.c gives out pages and counts who
-- holds them, and pkg/stam/vm.c builds the spaces of programs from them. pkg/stam/cpio.c finds in
-- the archive that pkg/vcpio/vcpio.c wrote the program that pkg/stam/elf.c loads into such a
-- space, with the manifest that pkg/sav/src/elf.c put into it.
--
-- Files. Prelude and its children hold the lists, tests, integers and lemmas that all parts share:
-- the native numbers, ℤ for results, find_index for a loop that stops at the first match.
--
-- Net.Wire and Net.Checksum: put16 to get32 and the internet checksum of pkg/stam/net.c.
-- Net.Stack: the cache and the sockets. Net.Datagram: udp_send_from, handle_ipv4 and handle_udp.
-- Net.Arp and Net.Config: handle_arp and dhcp_option. Proofs: Delivered, Ports, Resolve, Options.
-- The fuel of dhcp_option is the length of the message, and Options proves it enough.
--
-- Tcp.State and Tcp.Segment: struct tcp_sock, the table, and the segments that send_seg writes and
-- tcp_input reads. Tcp.Input: tcp_input, with NetOps for what lies below (net_ip_send, net_poll,
-- timer_ticks). A send through it finds the hardware address in the cache: net_ip_send of
-- pkg/stam/net.c may otherwise ask for the address, poll the card while it waits and so enter
-- tcp_input again inside of a send, and that is not modelled. Tcp.Calls and Tcp.Transfer: tcp_open
-- to tcp_close. The other children hold the proofs: Sequence (seq_ge), RoundTrip, Invariant,
-- Delivery and Stream (the bytes a reader gets), Machine (the states), Handshake, Isolation,
-- Progress (the loops that wait).
--
-- Sched.State: thread_t, cpu_t and the table. Sched.Switch: next_runnable, schedule_locked,
-- schedule. Sched.Create: alloc_slot, slot_init, thread_create, thread_fork and the start of a
-- processor. Sched.Block: sleeping, waking and signals. Sched.Wait: thread_reap, thread_wait,
-- thread_exit. Proofs: Scan, Exclusive and Keep (no thread on two processors), Signals, Waking,
-- Stale, Collect.
--
-- Signal.Frame and Signal.Calls: the frame on the stack of the program, which is found by the
-- tables of Memory.Tables, and sig_action, sig_exec_reset, sig_deliver, sig_return; Signal.Resume
-- and Signal.Kill hold the proofs.
--
-- Files.State and Files.Objects: struct file, pipe_t and file_alloc, file_pipe, file_ref,
-- file_close. Files.Open and Files.Getdents: file_open and file_getdents, with Storage for the
-- disk and the archive. Files.Descriptors: fd_get, fd_alloc and the close, dup and dup3 of
-- pkg/stam/syscall.c. Files.Pipe and Files.Transfer: the rounds of file_read and file_write.
-- Proofs: Ring and Fifo (a pipe is a queue), Talk, Memory, Stuck, EndOfFile, Directory, Reading,
-- Entries. The fuel of the listing is one more than the bytes there is room for, and Entries
-- proves it enough.
--
-- Memory.Frames: alloc_page to page_count. Memory.Tables and Memory.Spaces: split, descend and
-- map_user_page_raw; vm_new_space, vm_cow_fault, vm_user_ok, vm_copy_space and vm_free_space.
-- Proofs: Weight, Pool, Mapped, Owned and Copied count the entries that map a page, Fork, Fault
-- and Fresh use the counts; Reachable holds the machines that new spaces, pages, copies and write
-- faults lead to from one without programs, Invariant what is true of them all, and Isolation what
-- that means for two programs (the end of a space is not among the calls); Access is about the
-- check of ranges. The fuel of that check is a page more than the range can touch, and Access
-- proves it enough.
--
-- Archive.Reader: cpio_find. Archive.Writer and Archive.Extract: write_entry, do_create and the
-- names that do_extract accepts. Proofs: Holds (bytes in the memory), Digits, Written, Find,
-- Bounds, Components. The fuel of cpio_find is one more than the headers that fit, and Bounds
-- proves it enough.
--
-- Urverk.Service: a service of pkg/urverk/urverk.c and what its supervision does; Urverk.Restarts
-- has the proofs.
--
-- Program.Manifest and Program.Loader: read_sav_note, sav_allows and elf_load. Program.Note:
-- build_note. Proofs: Little, Enforced, Room (the pages that are left), Segments.
--
-- How the code is read. A pointer into a table is an index. Words are native numbers, with the
-- wrap-around of their width written out; a word whose bits are used one by one is a function from
-- the bit. Functions under the scheduler's lock are whole steps, so that two processors are an
-- order of such steps; a function that sleeps in its middle is modelled by its rounds. Loops that
-- wait for the clock take fuel, and Tcp.Progress proves for each that enough fuel, counted from
-- the deadline, gives a result.
--
-- Not modelled: registers and devices, which stand behind the interfaces NetOps, Devices, Storage
-- and Uppers; the tables of the kernel itself and the instructions that switch tables and clean
-- caches; the messages that DHCP sends and its exchange, the echo of ICMP and the loops of
-- pkg/stam/net.c that wait for the card; the file system and the remaining tables (fat.c, gpt.c,
-- fdt.c); the system calls but those on descriptors; the other programs of user space, the boot
-- order, the mounts and the shutdown of urverk and the rest of the compiler in pkg/sav.
pub mod Prelude
pub mod Net
pub mod Tcp
pub mod Sched
pub mod Signal
pub mod Files
pub mod Memory
pub mod Archive
pub mod Program
pub mod Urverk
