-- ===== src/Lib.antt =====
-- fusefs-block, a FUSE file system whose files are lists of blocks that a store keeps once each.
--
-- The program, under cfs/src. bbfs.c has the callbacks that libfuse calls. They keep a table of
-- open files (cfs.c) and read and write files by blocks: a CFS file holds a magic string, its
-- size, its number of blocks, and pairs of a block index and the SHA-1 hash of the block. The
-- blocks lie in a store (storage.c), a directory with one file for each block, which is named by
-- the hexadecimal text of the hash (util.c) and begins with a reference counter. All of these
-- read and write by the loops of io.c, which continue after signals and short transfers.
--
-- The files. Base has the shared types: lists, integers and machine words over the native
-- numbers. Posix is the interface to the system: the record `Posix` of system calls, the monad
-- `M` of a process, the view of the system that a program can observe (Posix/View), the
-- documented behaviour of the calls on regular files as laws (Posix/Laws), total correctness of a
-- computation against views (Posix/Runs, Posix/Calls), and a system in memory that meets the laws
-- (Posix/Memory). Io models io.c, Util models util.c, Storage models storage.c, Cfs models cfs.c,
-- Fuse the callbacks and main of bbfs.c, and Cfscat the program cfscat.c, which prints the pairs
-- of a file. Log models log.c: the results of log_error and log_syscall as the callbacks use
-- them, and in the modules below it the functions themselves, with errno and what they print
-- through the C library (Log/Stdio); Fakelog models fakelog.c, the logger of cfscat. A request of
-- several blocks is a `Transfer` (Fuse/Many), and the abstract contents of a file are its blocks
-- by index (Fuse/Reading). Functions have the names of the source; a part of a long function has
-- a name of its own and a comment that says which part it is. Tests applies the theorems to
-- concrete inputs.
--
-- The state. A `Posix` has a state of its own type, which only its calls read and change, so that
-- the theorems hold for every system that meets the laws. `CfsState` is `cfs_state_t` without the
-- mutex and the root path, which nothing reads; `CfsFile` and `CfsBlock` are the structures of
-- the same names. The contents of a CFS file are an image (Cfs/Image), a size and a list of
-- pairs; the theorems on files relate the images before and after, and those on the table the map
-- from descriptors to paths (Cfs/Reach). The callbacks that pass a request on make calls that are
-- values (Fuse/Call), to any system. A function that changes the table returns the new one. What
-- C leaves undefined is the parameter `Garbage`: fresh memory, variables before they are
-- assigned, whether the argument of `load_block` that cfs.c:355 does not pass is the address of
-- memory that can be written, and whether the `int` offset that io.h gives to `s_lseek` of io.c
-- arrives with its sign. Theorems that need something of these say so (`IsReadable`; Cfs/Unread
-- has the other case of the missing argument). SHA-1 is a parameter of `calculate_hash`. Machine
-- integers are those of a 64-bit little-endian machine with an `int` of 32 bits, and conversions
-- between them are written out.
--
-- Bounds. The loops of io.c have no bound in C, since a call may be interrupted any number of
-- times; the model's take fuel and give `none` where it runs out. A law says that every
-- interruption uses up one of the pending signals. Each round either transfers a byte or uses up
-- a signal, so that fuel above the number of bytes and signals together is enough. The loops over
-- the blocks of a request and over the pairs of a file take the same fuel, one unit for a round;
-- it is enough if it is above their number as well.
--
-- Paths. The laws are about the paths that the process may use (`usable`): files there may be
-- opened for reading and for writing. A file that is made there stays so if its mode lets the
-- owner read and write (`owner_rw`), which the theorems on new files ask for; that a file can be
-- made with some mode is `creatable`. The buffers of `PATH_MAX` bytes have no bound in the model:
-- paths are those that fit.
--
-- Not modelled: the mutex and contention for file locks, the log messages within the callbacks
-- and those that cfscat prints before its own output, failing allocations in the table, files
-- that another process changes during a call, libfuse, and the functions that only free memory.
pub mod Base
pub mod Util
pub mod Posix
pub mod Io
pub mod Storage
pub mod Log
pub mod Fakelog
pub mod Cfs
pub mod Cfscat
pub mod Fuse
pub mod Tests
