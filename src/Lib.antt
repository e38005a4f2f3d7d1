-- ===== src/Lib.antt =====
-- LXOS: a small kernel for the x86 in C, with a file system on an IDE disk.
--
-- The parts and the files that model them, from the hardware up. Paths are from the repository's
-- root.
--   Boot              boot/start.c: the loader that reads the kernel's file from the disk
--   Libc/Memory       libc/string.c (memset, memmove) and libc/mem.c over a flat memory
--   Libc/Strings      the rest of libc/string.c; a string ends at its first zero byte
--   Kernel/Kalloc     kernel/kalloc.c: the free pages, a list threaded through their first words
--   Kernel/Vm         kernel/vm.c: page directories and tables in pages from kalloc, and the
--                     user's pages (Vm/User): inituvm, allocuvm, loaduvm, uva2ka, copyout
--   Kernel/Process    kernel/proc.c: allocproc, which takes its stack from kalloc, a pass of the
--                     scheduler up to its switch to a process (Process/Scheduler), and exit
--   Kernel/Syscall    kernel/syscall.c: the checks of system call arguments, the dispatcher
--   Kernel/Calls      kernel/calls.c: descriptors, create, and the system calls on files, which fetch
--                     their arguments through Kernel/Syscall and work on Fs/OpenFiles
--   Cpu/Segments      kernel/vm.c: seginit, switchuvm, with the descriptors of include/mmu.h
--   Cpu/Interrupts    cpu/isr.c, cpu/idt.c and cpu/timer.c: the gates, the handlers, trap_handler,
--                     which prints through Drivers/Screen; the hardware behind the ports is a
--                     parameter
--   Kernel/Loader     kernel/exec.c, on the file system, the address spaces and the segments, and
--                     sys_exec of kernel/calls.c (Loader/SystemCall)
--   Drivers/Screen    drivers/screen.c: print_char, the cursor, scrolling, kprintf; the display
--                     controller is a parameter (Screen/Controller)
--   Drivers/Keyboard  drivers/keyboard.c: the line, with append and backspace of libc/string.c, and
--                     the commands of kernel/sh.c
--   Drivers/Device    the disk controller: a parameter, with the laws of a disk that works
--   Drivers/Ide       drivers/ide.c: the queue of buffers, the interrupt, iderw
--   Fs/Bio            fs/bio.c: the cache of blocks, which reads and writes them with iderw
--   Fs/Volume         fs/fs.c: the superblock and the bitmap of free blocks
--   Fs/Inodes         fs/fs.c: the inode cache, and the images of inodes on the disk
--   Fs/Content        fs/fs.c: bmap, itrunc, iput, readi, writei
--   Fs/Directories    fs/fs.c: dirlookup, dirlink, and paths (skipelem, namex)
--   Fs/OpenFiles      fs/file.c: the table of open files
--   User/Printf       user/printf.c, with the numbers of Drivers/Screen/Numbers
--   Utils/Mkfs        utils/mkfs.c: the image that Fs/Volume and Fs/Inodes read
--   Base              names, tests and lemmas that the parts share
--   Tests             concrete inputs
-- A function of the source is a definition of the same name; a loop has a definition of its own,
-- named after its function. A name that a module's own comment does not explain is the source's.
--
-- How the state is modelled. Pointers are numbers, and null is 0. An array of structures is a
-- function from pointers, its element `i` at `i + 1`. The buffer cache and the disk driver share the
-- store of buffers (Machine). The file system above them sees a block as the cache shows it
-- (Volume.block): bread, stores to the data, bwrite and brelse are one `store`, and bread with brelse
-- is a read: Fs/Bio/Blocks/Edit has that sequence over the cache and the disk.
-- Machine integers are numbers below 2 ^ 32, with the wrap-around written out.
--
-- Fuel. Loops that count recur on the rounds that are left, and their bounds are those of the
-- source. Loops that walk to the end of a string, around the ring, along the disk's queue or that
-- poll the disk take fuel, and `none` says that it ran out. Enough is the length of the string, the
-- ring or the part of the path that is skipped, and the disk's patience, which is the number of polls
-- after which it is ready.
--
-- mappages and deallocuvm have a round for each page of their range. A result of filewrite, of a
-- path, of a line or of exec needs fuel as the loops that they run do; init_keyboard needs a read of
-- the port for each byte up to the keyboard's answer.
--
-- Faults. bread, iget, uva2ka and others go on with a null pointer when there is no buffer, no slot or
-- no page table: `none`, too.
--
-- Not modelled: the program user/init.c, the probe of the second disk (ideinit), uinit and
-- kernel_main, which call the other parts in order. Outside Drivers/Screen and Cpu/Interrupts, console
-- output is kept as the list of messages (`log`).
pub mod Base
pub mod Libc
pub mod Kernel
pub mod Drivers
pub mod Fs
pub mod Cpu
pub mod Boot
pub mod User
pub mod Utils
mod Tests
