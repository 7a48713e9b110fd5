-- ===== src/Lib.antt =====
-- Verification of four programs: lsof (hw1), the library call logger (hw2), the small C library libmini
-- (hw3), and the ptrace debugger sdb (hw4). They share no code; Debugger, Libmini, Logger and Lsof are
-- independent and stand on Base.
--
-- sdb. main (hw4/hw4.cpp) reads lines, cuts them into words (dbgcmd_parser of
-- hw4/parser.hpp) and calls one handler of class debugger (hw4/command.hpp) for each. The handlers
-- share the fields of the class: the state (NOLOAD, LOADED, RUNNING), the tracee's process number, the
-- text range that elf64_parser found, a flag that the last command has set rip, and the table of
-- breakpoints (hw4/breakpoint.hpp). A breakpoint is the byte 0xcc in the tracee's memory and an entry
-- with the word that stood there before. Everything else is in the kernel.
--
-- Session (Debugger/Session) is the record of these fields, of the world outside (a type S that the
-- kernel's functions act on) and of the messages printed so far. A handler is a function from sessions
-- to outcomes: it comes back to the prompt (`next`), or it stops, by a failed assert, by execvp or
-- exit, by a read outside a vector or buffer (`undefined`), or by a file that its parser cannot take
-- (`bad_file`): an ELF file that is too short or whose sizes do not fit the buffers, or a line of maps
-- without the fields that are read.
--
-- libmini. A value of Mini is errno and the world of the kernel; a function takes it and gives its
-- result and the next one. The system calls are a parameter there. The assembly stands beside it: its
-- routines are lists of instructions, run on a processor (Cpu) whose memory is one of quadwords and
-- whose kernel is a parameter.
--
-- The logger. The launcher (hw2/hw2.cpp) sets OUT_FD and LD_PRELOAD and starts a program; the wrappers
-- (hw2/inject_glibc.cpp) then stand in front of libc and write to the descriptor in OUT_FD. libc and
-- the linker are parameters; `none` is undefined behaviour.
--
-- lsof. main (hw1/hw1.cpp) reads the options and the users and constructs a process for each number in
-- /proc, which collects its files (hw1/process.hpp) and prints those that the filters find. The
-- answers of the system about /proc and std::regex are parameters; `none` is undefined behaviour.
--
-- The files.
--   Base                 numbers, lists and texts as lists of bytes; bits of words; integers
--   Base/Word            64-bit words, their bytes, and the masks that set and restore a byte
--   Base/Strtol          strtol, strtoul and atoi as they are called (LONG_MAX and wrap-around included)
--   Base/Decimal         std::to_string, which atoi reads back
--   Base/Ctype, Options, Stdio
--                        isprint and C strings; chains of options; fgets
--   Debugger/Cmdline     dbgcmd_parser (hw4/parser.hpp)
--   Debugger/Breakpoint  breakpoint_table (hw4/breakpoint.hpp)
--   Debugger/Regs        user_regs_struct and reg_handler (hw4/command.hpp)
--   Debugger/Machine     what is called and not implemented: ptrace, waitpid, fork, execvp, files,
--                        capstone
--   Debugger/Memory      the documented behaviour of PEEKTEXT and POKETEXT that theorems rely on
--   Debugger/Stops       wait_then_check_exit, check_hit_break_point_or_not,
--                        check_then_restore_si_reput, reput_all_breakpoints_from (hw4/command.hpp),
--                        disassembler::translate (hw4/breakpoint.hpp)
--   Debugger/Control     start, cont, step_in, run
--   Debugger/Breaks      set_break_point, delete_break_point, list, get_single_reg, get_all_regs,
--                        set_reg
--   Debugger/Inspect     dump, disasm
--   Debugger/Elf         elf64_parser (hw4/parser.hpp), on the bytes of the file
--   Debugger/Maps        maps_parser (hw4/parser.hpp), on the text of /proc/<pid>/maps
--   Debugger/Load        load, vmmap
--   Debugger/Main        main (hw4/hw4.cpp): the dispatch, the loop, the program argument
--   Debugger/Main/Rounds rounds of that loop, as a relation on sessions
--   Debugger/Args        arg_parser (hw4/parser.hpp) and the choice of the input in main
--   Debugger/Examples    a small kernel, runs on it, and the theorems at concrete inputs
--   Libmini/Wrappers     WRAPPER_RETval, WRAPPER_RETptr and the wrapped system calls, a clause
--                        for each (hw3/libmini.c)
--   Libmini/Blocks       memset, bzero, strlen
--   Libmini/Sigset       sigismember, sigaddset, sigdelset
--   Libmini/Signal       sigemptyset, sigfillset, sigaction, signal
--   Libmini/Perror       errmsg, perror
--   Libmini/Errno        the error numbers of hw3/libmini.h
--   Libmini/Testcase     jmp1.c and write1.c of hw3/testcase
--   Libmini/Asm          the instructions of hw3/libmini64.asm (exec)
--   Libmini/Asm/Code     its routines: the sys_ stubs, open, sleep, setjmp, longjmp
--   Libmini/Asm/Calls    calls of the stubs from open and sleep
--   Libmini/Asm/Sleep    also sleep in C, under #if 0 in hw3/libmini.c
--   Logger/Libc          what hw2 calls: dlopen, dlsym, realpath, readlink, stat, dprintf, ...
--   Logger/Paths         get_origin_func, get_buffer, get_abs_path (hw2/utils.hpp)
--   Logger/Intercept     the wrappers (hw2/inject_glibc.cpp), logged_chmod for chmod and so on
--   Logger/Launch        main (hw2/hw2.cpp)
--   Lsof/File            class file (hw1/file.hpp)
--   Lsof/Process         the state of class process and its text functions (hw1/process.hpp)
--   Lsof/Examine         the handlers of class process, and its constructor
--   Lsof/Listing         argument_parser (hw1/argument_parser.hpp); set_user_table, main (hw1/hw1.cpp);
--                        print_opening_files
--   */Examples           small systems, runs on them, and the theorems at concrete inputs
--
-- Numbers. An unsigned long long is a natural number below 2 ^ 64, and its wrap-around is written out
-- (add64, sub64, the value of -1), for the offsets in an ELF file as well; an int index is an integer.
--
-- Fuel. The loop of dbgcmd_parser has the length of the line and one as fuel: each round moves the
-- position on by one at least. The loop of maps_parser has the length of the text and one: each fgets
-- takes a byte at least; read_lines of lsof has the same. to_string has fuel for 20 digits, which
-- hold 64 bits. strlen takes its fuel as an argument; jmp1 takes the number of returns
-- of setjmp, and eleven are enough. All other loops are recursions on a list
-- or on a count.
--
-- Failures. In sdb a failed system call leaves the world as it was, and PEEKTEXT always gives a
-- word, as the code never tests it. A field of an ELF header is read with its offset in <elf.h>; an
-- fseek to an offset that is negative as a long fails and leaves the position as it is. The room of
-- the stack for an array whose length a file gives is a parameter.
--
-- Not modelled: getopt, whose answers are the arguments of the models; the prompt and the exact
-- layout of printed lines, which stand as messages or records with the values that they show; the
-- std::map that maps_parser of hw4 fills, which nothing reads; exit, _start and sys_rt_sigreturn of
-- hw3, and bytes of memory below its assembly's quadwords; the alarm programs of hw3/testcase. In
-- hw1 the files of a process may change between two calls, as each call has its own answer, and the
-- two error returns of open and read are one. In hw2 errno is part of the world, which each
-- function of libc hands on. hw2/sample.cpp, a test program, is left out.
pub mod Base
pub mod Debugger
pub mod Libmini
pub mod Logger
pub mod Lsof
