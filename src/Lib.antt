-- ===== src/Lib.antt =====
-- A model of bpfilter, which turns packet filtering rules into BPF programs.
--
-- A client sends a chain to the daemon: a hook with options, a policy, sets of keys and rules, which
-- are lists of matchers with a verdict. The chain travels and is stored in serialised form. The
-- daemon generates one BPF program for it: a prologue that finds the packet's headers, the code of
-- each rule in order, the policy, and a function that updates the counters. It loads the program into
-- the kernel, attaches it to the hook, pins it, and answers. iptables sends its whole table instead,
-- which the daemon translates into chains.
--
-- The parts and their files:
-- Marsh is src/core/marsh.h and src/core/marsh.c, blocks of data that are prefixed with their length
--   and nested in each other. `marsh_new`, `add_child_obj` and `add_child_raw` build one, `next_child`
--   walks over the children of one in place, with the tests of bf_marsh_child_is_valid. `list_marsh`
--   is bf_list_marsh of src/core/list.c.
-- Matcher, Rule, Set, Chain are src/core/matcher.c, src/core/rule.c, src/core/set.c and
--   src/core/chain.c: the structs and how they are created, put together, serialised and read back.
-- Hook is src/core/hook.h and src/core/hook.c: the table of the options that each hook supports and
--   bf_hook_opts_init, which parses and checks the options that a user gives; Hook.Types is what the
--   kernel calls a hook.
-- Names is the tables of names in src/core/verdict.c, src/core/hook.c and src/core/matcher.c with the
--   conversions in both directions. One definition stands for the conversions of all five, which differ
--   in the table only.
-- Printer is src/bpfilter/cgen/printer.c: the log messages of the generated programs.
-- Cgen is the generation. Cgen itself has the instructions (the macros of src/external/filter.h that
--   the generator uses), the fixups and `struct bf_program` of src/bpfilter/cgen/program.h. Cgen.Emit,
--   Cgen.Patch and Cgen.Generate are src/bpfilter/cgen/program.c: the growing image, the fixups, and
--   the code of rules, counters and the whole program. Cgen.Jump is src/bpfilter/cgen/jmp.c, Cgen.Swich
--   is src/bpfilter/cgen/swich.c, and Cgen.Matchers is src/bpfilter/cgen/matcher/.
--   Cgen.Stub is src/bpfilter/cgen/stub.c, which finds the headers of a packet, and Cgen.Flavors is
--   src/bpfilter/cgen/xdp.c, tc.c, nf.c and cgroup.c, the prologues and the codes of the verdicts; it
--   fills `FlavorOps`, the interface that the generation uses. Cgen.Image is the code in memory.
-- Prog is what a program is made of besides its code. Prog.Map and Prog.Link are
--   src/bpfilter/cgen/prog/map.c and link.c; Prog.Ident, Prog.Stored, Prog.Pin and Prog.Unload are the
--   identifier, the creation and serialisation, the pinning and the unloading in
--   src/bpfilter/cgen/program.c.
--   Prog.Calls has the system calls, Prog.Attach is the `attach_prog` of the flavors with the functions
--   of link.c that it calls, and Prog.Load is bf_program_load with the maps and the directories.
-- Codegen is src/bpfilter/cgen/cgen.c, a chain with its program; Codegen.Up is bf_cgen_up and
--   bf_cgen_update. Ctx is src/bpfilter/ctx.c, the codegens of each hook. The daemon saves its context
--   when it changes and reads it when it starts.
-- Request is src/core/request.c and src/core/response.c, what goes between a client and the daemon.
-- Front is src/bpfilter/xlate/front.h, the interface of a front, with `FrontOps` for `struct
--   bf_front_ops`. Front.Cli is src/bpfilter/xlate/cli.c, Front.Table the table of the fronts in
--   src/bpfilter/xlate/front.c, and Front.Process _bf_process_request and _bf_save of
--   src/bpfilter/main.c. Front.Reach has the steps of the daemon.
-- Ipt is src/bpfilter/xlate/ipt/ipt.c and helpers.h, the front of iptables: Ipt itself has the rules,
--   Ipt.Ruleset is from a table to chains, Ipt.Replace from chains to a table, and Ipt.Handler the
--   requests.
-- Linked is src/core/list.c on a heap of nodes, and what sequence a list stands for. The other parts
--   take a list as its sequence.
-- Strings is the string helpers of src/core/helper.c and the formats of `snprintf`.
-- Prelude, Result and Bytes are shared: tests and lists over the native numbers, the way a C function
--   ends, and memory. Examples has the theorems at concrete inputs.
--
-- How C is read: a function that returns 0 or a negative errno gives a `Result`: `ok` with what it
-- changes, `err` with the errno, or `fault` for a failed assertion or an access outside of a memory
-- block. State that a function changes is passed to it and returned. An enum is the number that C
-- stores, since other numbers can come in with serialised data, where the code does not check them.
-- A pointer into serialised data is an offset in a block of bytes, as if the block stood at address 0;
-- the sum with a length that is read from the data wraps at 2^64, and reading a header that is not
-- in the block is a fault. The host is little-endian with
-- 64-bit pointers. The signed fields of an instruction are bit patterns. A `bf_list` is a list, but for
-- Linked. A file descriptor is a number, and `none` stands for -1.
--
-- What is not in the repository is a parameter: `System` has the directory of the pinned objects and
-- the hash function, `Kernel` has the identifiers of kernel functions and the offsets of fields, `Calls`
-- the system calls that create, load, attach and pin, and `Files` those on the file of the saved context.
-- What these calls change is outside of the daemon; it is a value of any type `W`, which each call
-- takes and returns. `IsQuiet` says which of them leave what is seen of it unchanged, that a rename
-- that fails changes nothing, and that a directory that was moved and is moved back is where it
-- was; moving it back can fail. `Directory` has the system calls on the directory of a program,
-- which can all fail; `IsLawful` says that a pin that succeeds adds its name, that an unlink that
-- succeeds removes it, and that a call that fails changes nothing. BPF_LINK_DETACH, the reading of
-- a counter (`lookup`) and the content of new memory (`malloc`) are functions; `Env` holds what the
-- daemon uses all the time. `Sizes` and `IptLayout` say how the structs of the kernel's headers for
-- iptables lie in memory. The fronts of the command line and of iptables stand in the model; the
-- one of nftables is a parameter, and the steps of Front.Reach are those of a daemon in which it is
-- disabled.
--
-- Bounds and fuel: the walk over the children has one round for each eight bytes of the parent,
-- which is enough as each child has a header of eight bytes, unless the end of a child wraps: then
-- the C code may not end, and the walk may run out of rounds, a fault. The walk over the nodes of a list has as many
-- rounds as the list counts elements. The walk over the entries of iptables has one round for each
-- byte between the first and the last entry, which is enough if each entry goes on to a later one.
-- Data that is serialised is smaller than 2^64 bytes, so that its offsets do not wrap. Programs
-- stay below 2^40 instructions, so that the capacity of the image, a power of two, does not wrap
-- either.
--
-- Not modelled: allocation failures and clean-up of memory; the closing of descriptors when a program is
-- freed, which removes a link that is not pinned; printing; the part of unloading that unpins; sockets,
-- signals and the command line of the daemon; nftables, whose messages stand on libnl; the client with
-- its parser, and the client library; the BTF data of a map; the third-party code under src/external but
-- for the instruction macros.
pub mod Prelude
pub mod Result
pub mod Bytes
pub mod Strings
pub mod Linked
pub mod Marsh
pub mod Matcher
pub mod Rule
pub mod Set
pub mod Hook
pub mod Chain
pub mod Printer
pub mod Names
pub mod Prog
pub mod Codegen
pub mod Ctx
pub mod Cgen
pub mod Examples
pub mod Request
pub mod Front
pub mod Ipt
