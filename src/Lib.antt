-- ===== src/Lib.antt =====
-- The eXpOS repository: the XSM machine simulator (xsm/), which runs the programs that the
-- compilers (spl/, expl/) produce from a disk that the XFS interface (xfs-interface/) fills.
--
-- Xsm/Word.antt is xsm/word.c: a word is 16 bytes that hold a number or a text as a C string.
-- Xsm/Registers.antt is xsm/registers.c: names, codes, and what user mode may name.
-- Xsm/Memory.antt is xsm/memory.c: the bounds of the memory and the translation of logical
--   addresses.
-- Xsm/Lexer.antt is xsm/parse.l, as a function from a buffer to its next token.
-- Xsm/State.antt has the state: `_thecpu`, the tables of words behind memory.c, registers.c and
--   disk.c, the exception record of exception.c, the lookahead of tokenize.c, the lexer's buffer,
--   and the standard streams. A C function is a command on that state. Its outcome is a value
--   (`ok`), a longjmp to the exception point (`raised`), what C gives no meaning to
--   (`unspecified`), or a loop that does not end (`hang`).
-- Xsm/Machine/*.antt is xsm/machine.c with xsm/tokenize.c and xsm/disk.c, one module for each group
--   of functions; a function keeps its name, and the helpers beside it are the parts of its body.
--   Base: modes, exceptions, registers and addresses. Tokens: the token stream and its refill from
--   the memory. Stack, Data, Devices: the instructions. Opcode, Execute: the tables, the switch and
--   the interrupts. Cycle: the main loop. Open is one name for all of these, for the tests. The
--   modules Keeps, Boot, Privilege, Access, Interrupts, Faults, Comparison, Transfers and
--   Stack/Saved have theorems on them; the children of Word, Registers, Memory and Lexer have those
--   on their parents.
-- Xsm/Simulator.antt is simulator_parse_args of xsm/simulator.c; Settings has its theorem.
-- Spl/Label.antt is spl/label.c of the SPL compiler: the table of labels and the stack of loops.
-- Xfs/*.antt is xfs-interface/. State is disk.c: the memory copy `disk`, the disk file, the files
--   of the host and its environment; a C function is again a command with an outcome as a value,
--   where `thrown` is a longjmp. VirtualDisk is virtualDisk.c, Inode is inode.c, Labels is
--   labels.c, Layout has the constants of the headers. diskUtility.c is in Names (paths and file
--   names), Assembly (one line of a program as words), WriteFile (a block's worth of a file),
--   Programs with Load and Delete (the operating system's own blocks), Files (format, load and
--   delete of files) and Export (what is shown and written to the host). Shell is interface.c, with
--   files of commands that run each other to a depth that is an argument of the model. Text has the lines that fgets reads. Loops over
--   the two inode blocks and their entries are one loop over 64 places. The children of these
--   modules have the theorems on them; Keeps and Safety/ have rules and lemmas for what the
--   commands keep of a disk.
-- Libc.antt has what the program uses of the C library on strings and numbers (atoi, "%d", strcmp,
--   strcasecmp, fgets, strtok), and Prelude/ the lists, tests and 32-bit integers that all modules
--   share.
--
-- The machine is the simulator's, where it and the documentation differ: no Reference or Dirty bit
-- of a page table entry is set, the addresses of the interrupt handlers are computed and not read
-- from a table, and EIP is IP less 2 for every exception.
--
-- The loop of machine_run is a function of a number of rounds, since a program may run for ever;
-- the statements hold for every number of rounds, or name a number that is enough. The loops inside
-- a round run over a list or a fixed number of registers.
--
-- Not modelled: the debugger (xsm/debug.c) and a machine that runs with --debug; the messages on
-- stderr, and the newlines that the lexer echoes; the bytes behind a word that is not terminated
-- within its 16 bytes; allocation; in xfs-interface/ the messages, the completion of words at the
-- prompt, and the random name of the temporary file; files of the host that change while they are
-- read, and paths too long for their buffers; and the rest of the repository: expl/ and the other
-- files of spl/.
pub mod Prelude
pub mod Libc
pub mod Xsm
pub mod Spl
pub mod Xfs
