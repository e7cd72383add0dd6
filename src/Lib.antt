-- ===== src/Lib.antt =====
-- Models and theorems of the Gemini System, a Pick-style database system in C++. A session of a
-- user runs commands and programs over a file system of records; the sessions of one daemon share a
-- table of record locks, a set of port numbers and one execution token, and talk to their consoles
-- by frames on a socket.
--
-- The parts, and the files that model them:
--
-- Locking (src/core/locking/LockTable.cpp, LockTypes.h): the record locks. `LockTable` holds the
-- two maps, file to record to entry; `try_acquire`, `release`, `release_all_for_session`,
-- `release_all_for_file`, `lookup` and `clear_all` are the methods. The clock is an argument. The
-- table has no mutex of its own; Locking/History runs sequences of calls of any sessions, one after
-- another, and says nothing of calls that overlap.
--
-- Ports (src/core/daemon/PortManager.cpp): the allocator of session ports, with `allocate`,
-- `release` and the loop for the next free number. Port numbers are 32 bits wide and wrap around.
--
-- Scheduler (src/core/daemon/CooperativeSessionRunner.cpp): the execution token. Each method is a
-- step on `Runner`; a wait on the condition variable whose test fails is the outcome `blocked`, and
-- an exception the outcome `fails`. Scheduler/Exclusion has the invariant of the token, and
-- Scheduler/Sections `runExclusive`, whose function may return or throw; a worker of the daemon
-- that unwinds calls `retireSession` afterwards, which is a call of its own here.
-- Scheduler/Fairness has the turns of `acquire`, in which `acquireAfterInputWake` takes no part.
--
-- Ipc (src/core/daemon/DaemonIpcProtocol.cpp): frames, the payload encoders and decoders in
-- Ipc/Payloads, and the two readers of a stream in Ipc/Channel: `tryReadFrame`, which takes what
-- has arrived, and `readFrame`, which blocks. A byte is a natural number; a theorem says where it
-- must be below 256.
--
-- Records (src/core/filesystem/StructuredRecord.cpp, RecordAttribute.cpp): the attributes of a
-- record's text, and the values of an attribute.
--
-- Files (src/core/filesystem/FileSystem.cpp, Catalog.cpp, Record.cpp): the file system. Files/Host
-- is what the code uses of the operating system: directories below a root, with regular files in
-- them, and `faults`, which says what call fails on what path and of which nothing is assumed but
-- where a theorem names it. Files/State has the state and the errors, Files/Locks the lock context,
-- for which it calls Locking, Files/Handles files and listings, Files/Items records, and
-- Files/Attributes attributes and values, for which it calls Records. A method that throws gives
-- the error beside the state that it leaves. A record's entry in its directory is its name with one
-- of three extensions.
--
-- Vm (src/core/vm/Runtime.cpp, Runtime.h): the stack machine that runs compiled BASIC. Vm/Values
-- has the values and their coercions, Vm/Machine the state `Runtime` and the sequence of steps that
-- may throw, and Vm/Arithmetic, Console, Control, Arrays, FileOps and FieldOps one function for
-- each `case` of `step`, which Vm/Step puts together. The opcodes on files call Files, and with it
-- Locking and Records. What is undefined in C++, a signed overflow or a cast out of range, is the
-- error `undefined_behaviour`. `Callees` is what the machine calls and the model leaves open:
-- `double` and `strtod` (`Numerics`), the reader of system variables, the builtins, the language
-- registry, and the dictionaries; a theorem that needs numbers to be exact as doubles says so by
-- `IntsAreExact`. Vm/LoopNumbers, LoopStates and LoopSteps follow a run through a FOR loop instruction by
-- instruction. Vm/Reasoning and Vm/Stability carry a property of the state through every opcode.
--
-- Bytecode (src/core/vm/BytecodeText.cpp, Parser.cpp, InstructionPrint.cpp): programs as text.
-- Bytecode/Names and Table have the opcodes, Bytecode/Printing writes a program, Bytecode/Lines
-- reads a line and the operands, Bytecode/Parser is the parser with its two passes, and
-- Bytecode/Listing the line that is shown to people. How a stream writes a `double` is a parameter
-- of the writer.
--
-- English (src/core/english/EnglishParser.cpp, EnglishTypes.h): the parser of ENGLISH queries.
-- English holds the query and the keyword tests, English/Parser the parser, and English/Printing
-- the tokens that a query is written with, which are a definition of the development.
--
-- Prelude holds what the parts share: tests on numbers, byte strings as lists of bytes, lists,
-- association lists that stand for the maps, and sorting. Tests holds runs at concrete inputs.
--
-- Bounds and fuel: `allocate` searches with fuel one more than the number of ports in use, and
-- Ports/Allocation proves it enough; `run` of the machine is on fuel, since a program need not
-- end; the digits of a number are written on fuel one more than the number; the readers of a stream
-- recur on the chunks that arrive; every other loop is structural. Lengths in a frame are 32 bits
-- wide and are written with the wrap-around that the casts have.
--
-- Not modelled: the builtins and the language registry, the BASIC compiler, PROC, the TCL shell,
-- the vocabulary and login, dictionaries, the execution and formatting of queries, conversions, the
-- daemon's sockets and threads, and start-up. Of the file system, a write that fails half way,
-- entries of a directory that are no regular files, and changes that another process makes between
-- two calls of the host are left out, and so is an exception of the removal of the temporary file
-- that follows a failed rename; the memory of the process is taken to be enough.
mod Prelude
pub mod Locking
pub mod Ports
pub mod Scheduler
pub mod Ipc
pub mod Records
pub mod Files
pub mod English
pub mod Vm
pub mod Bytecode
mod Tests
