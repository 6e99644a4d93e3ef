-- ===== src/Lib.antt =====
-- A model of the C code of smolforth, a Forth whose words are partly assembly (the .m4 files),
-- partly Forth and partly C. The C code is the compiler back ends of the two ports, the dictionary
-- search, the words that take apart the input line, the control stack of compiled code, loops at
-- run time, double-cell division, and words that call the operating system; and, in C++, the tool
-- that turns the relocation records of a run into an ELF object.
--
-- The parts and how they meet. Every C word has the type `udcell X(char *st, char *rst)`: it is
-- given the two stack pointers, reads and writes `sf_header` and memory, and returns the pointers.
-- So a word is a state-passing function on `Machine`, and a compiling word one on `Compiler`,
-- which adds the sections that code is appended to. A call that ends the program, by an assert or
-- by exit, is `none`.
--
-- - Base: shared names, tests, integers by their signs, and bit operations as arithmetic.
-- - Memory: memory as bytes, and little-endian words of any size.
-- - Machine: the two pointers, memory and the scalars of `sf_header` (config.h).
-- - Stack: arch/x86_64/stack.c, of which arch/riscv/stack.c is the half that grows upwards.
-- - Control: `SYS_LOOP`, `SYS_plus_LOOP` and `SYS_LEAVE` of arch/riscv/cs.c and arch/x86_64/cs.c,
--   written once over an interface (Control/Stacks) and used at the return stack of each port.
-- - Arithmetic: arch/x86_64/core/*_MOD.c, SM_slash_REM.c, star_slash.c and arch/x86_64/math.c; the
--   RISC-V files have the same text.
-- - Parse: core/WORD.c and core/PARSE-NAME.c.
-- - Compiler: the sections of config.h, and appending code to them.
-- - RiscV: arch/riscv/asmgen_riscv.h (Format, Names, Registers), compile.c and plt.c (Constant,
--   Compile), and the control-flow words of arch/riscv/core with colon.c and DOES_to.c (Branches).
--   Isa and Flow say what the processor does; Decoded, Steps, Leaves, Shifts, Narrow, Wide, Loads,
--   Lands, Forward, Then and Tables prove.
-- - Amd64: the same files of arch/x86_64: Assembler, Words, Compile, and Targets, which proves.
-- - Dictionary: make_word.c of either port, core/find_impl.c, core/to_body.c, WL_SET.c and
--   NEXT_WORD.c, and in Does `does_do_impl_c` of both DOES_to.c.
-- - Files: the words of file/*.c, over an operating system given as functions; Paths has those that
--   name a file.
-- - Runtime: the routines of example/os2/stl.c, and core/CS_PICK.c, CS_ROLL.c and cs_leave_impl.
-- - Environment: arch/x86_64/core/ENVIRONMENT_question.c and arch/riscv/core/ENVIRONMENT_question.c,
--   each table from the choices of the build, and the two searches.
-- - Startup: arch/x86_64/main.c, arch/riscv/main.c and `import_plt` of arch/riscv/plt.c. Main puts
--   together the first values of `sf_header` and of the word lists (Session) and the area for code
--   with its tables; Session goes on with the arguments, the terminals and the files that are read.
--   Stored, Walk, Loops, Lists, Filled, Linkage, Built, Area, Ready, Found, Ended and
--   Sources prove.
-- - Floats: float/float.c, to_FLOAT.c, D_to_F.c and F_to_D.c, and REPRESENT.c in Represent; Scan,
--   Text, Reads, Spelled, Answers, Pushes and Digits prove.
-- - Elf: make-elf-writable.c; Inside, Marked, Searched and Checked prove.
-- - Reloc: reloc/obj.cpp. Map is std::map and std::multimap; Tables and Records are the globals and
--   the relocation words, Words and Lines the reading of out.txt, Names and OutHeader the
--   naming passes of `save_obj` and out.h, Object and Entries its symbol table and relocation
--   entries, Headers and Layout the section headers and the file, Main the whole program. Recorded,
--   Keeps, Rounds, Chain, ObjectLoops, Offsets, SymbolTable, Refers, Binding, Placed, Parts and File
--   prove.
-- - Examples: concrete machines, and the results listed below at values that meet their conditions.
--
-- Numbers are natural numbers; a cell is its pattern of 64 bits, and every wrap-around is written
-- out. The configurations are those of 64 bits, rv64 and x86_64, on a hosted system. Addresses
-- that the linker chooses (the token pad, the functions stored on the control stack, the array of
-- word lists) are parameters.
--
-- Loops. A loop up to a limit of the line runs on the distance to the limit as fuel, which is
-- every round it can take. A walk along a list of words takes fuel, and the theorem asks for one
-- unit more than there are words. `c_store` calls itself at most once deep, on halves that do not
-- call again. Scans down a name recur on the address. A line of out.txt is read on its length and
-- one as fuel, since each round takes a token; the chain of word lists around a list is followed for
-- one round more than there are entries, which a chain that does not repeat cannot exceed. The loop
-- over the segments of an ELF file, whose number has 16 bits, runs on 2^16. REPRESENT brings a number
-- into range on fuel that it is given.
--
-- Not modelled: the assembly in .m4 and .S files and in `__asm__`, the words written in Forth, the
-- 32-bit configuration of the compiler and of start-up, double/v_bignum, which is another project's
-- library, the words on blocks, keys and time, and the printing of diagnostics
-- and of the stacks. Floating-point numbers and what the C library does with them are parameters,
-- as are mmap, the calls on files and terminals, and the structures of elf.h. In reloc/obj.cpp a top
-- or pop of an empty stack, and in the float words and the ELF tool an access outside an array or
-- the file, which have no meaning in C, end the run like a failed assert.
pub mod Base
pub mod Memory
pub mod Machine
pub mod Stack
pub mod Control
pub mod Arithmetic
pub mod Parse
pub mod Compiler
pub mod RiscV
pub mod Amd64
pub mod Dictionary
pub mod Files
pub mod Runtime
pub mod Environment
pub mod Startup
pub mod Floats
pub mod Elf
pub mod Reloc
pub mod Examples
