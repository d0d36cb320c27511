-- ===== src/Lib.antt =====
-- hoox: the interceptor, and the AArch64 code writer, relocator and decoder.
--
-- The program rewrites the start of a function so that calls of it go elsewhere. The relocator reads
-- the function's first instructions and writes them to another place so that they still do what they
-- did; the writer encodes instructions, resolves labels and keeps a pool of literals; the decoder
-- tells the relocator what an instruction is. This development models these three as functions on
-- explicit memory, and relates them: what the writer puts is decoded as what was asked for, and what
-- the relocator reads comes out again. Above them stands the interceptor, which keeps a table of the
-- instrumented functions, gathers changes in transactions, and leads each call of such a function past
-- its listeners: it is modelled as functions on an explicit state, with its backend as a parameter.
--
-- Files, and the code that each of them models:
--   Prelude         shared names, Boolean tests, lists, Option chains; Words has the machine integers
--                   and Bits the laws of `&`, `|` and `^`
--   Spinlock        src/core/hooxspinlock.c, as steps of any number of threads; Safety has the proofs
--   Interceptor     src/core/hooxinterceptor.c: the state. Stack is the invocation stack, Listeners
--                   the listeners of a function, Threads what a thread keeps, Commit the end of a
--                   transaction, Instrument the table and its contexts, Attach, Replace and Flush the
--                   functions of those names, Invocation and Returning the two sides of a call, Fork
--                   what a fork leaves in the child, all under their C names less the prefix.
--                   Consistent and the children of Commit, Invocation and Fork have the proofs
--   Memory          the bytes that the C code reads and writes through pointers, with their laws
--   Arm64.Reg       register numbers of src/disasm/hx_disasm.h, hoox_arm64_writer_describe_reg
--   Arm64.Decoder   src/disasm/hx_disasm_arm64.c: one function for each class of instruction, the
--                   chain as `decode` and hx_disasm_iter; Masks and Classes have its laws
--   Arm64.Writer    src/arch/arm64/hooxarm64writer.c: the state, labels and references. Commit resolves
--                   labels and writes out literals, Emit has put_instruction, put_bytes, flush and
--                   clear; Branches, Moves, Loads, Pairs, Logical and Calls have the put functions,
--                   under their C names less the prefix; Flow, LabelTable, Spread, Labels, Slots,
--                   Literals and Pool have proofs
--   Arm64.Relocator src/arch/arm64/hooxarm64relocator.c: the ring, read_one, write_one, write_all and
--                   relocate. Rewrite has the rewrite functions and Check can_relocate with
--                   register_is_free; the others have proofs
--   Arm64.RoundTrip the writer against the decoder
--   Tests           test data, and the theorems at concrete inputs
--
-- The model. A pointer is its address, NULL is 0 and memory is a function from addresses to bytes;
-- addresses of code and data are unbounded, and what the code keeps in 32 or 64 bits is reduced where
-- it is computed. A signed integer stands as its bit pattern, and division rounds to zero as in
-- C. A put function returns what the code returns, with the writer; `none` stands for an assertion
-- that ends the process. Functions of the C code that share their body but for an opcode share a
-- definition. The tables of the writer are an association list (hoox_metal_hash_table) and lists
-- (hoox_metal_array). Pointer authentication is a function of the host, since the signing
-- instructions are not C. The order in which a hash table is gone through is a parameter of the
-- search in can_relocate. A read behind the end of an array is `none` too, in register_is_free.
--
-- The interceptor. A pointer to a function context is a number and a heap maps it to the context; a
-- counter of type int is a word of 32 bits. What the code asks of its backend, of the memory layer and
-- of listeners is a record of functions, and what it asked for is a log. The threads whose contexts the
-- child of a fork destroys are a parameter of the recovery, in the order of the hash table. The lock is held throughout a
-- call: other threads show as what the drain of the destroy tasks reads of the usage counters. Tables
-- are association lists, gone through from the front, and an array of listeners, never changed once
-- published, is copied into the stack entry. Listeners' callbacks change the registers and the error
-- number and do not call the interceptor; the threads' contexts are there from the start.
--
-- Recursion and fuel. put_instruction calls itself through the literal pool, for a branch that finds the
-- pool closed; so two levels of calls are modelled. Reading loops run on one round for each four bytes
-- asked for and one more, writing on one for each instruction in the ring and one more, the search of
-- can_relocate on 257 rounds: 1024 bytes are 256 instructions, and each adds one target at most.
-- hoox_interceptor_resolve follows redirects on fuel that its caller gives: the code itself follows a
-- cycle of them for ever.
--
-- Not modelled: reference counts, the texts of decoded instructions, the forms of the call functions
-- with variable arguments; of the interceptor its set-up and release, the locks it takes around a fork, the
-- accessors of an invocation and the guard of patched ranges on Windows; and all other parts of the
-- program: the writers, relocators and decoders of ARM, Thumb and x86, the interceptor's backends, the
-- code allocator, the containers and the layers over the operating system.
pub mod Prelude
pub mod Memory
pub mod Spinlock
pub mod Interceptor
pub mod Arm64
pub mod Tests
