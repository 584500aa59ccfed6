-- ===== src/Lib.antt =====
-- A model of the C extension of libssh-ruby (ext/libssh_ruby), which gives Ruby the classes
-- LibSSH::Session, LibSSH::Channel, LibSSH::Scp and LibSSH::Key over the C library libssh.
--
-- The parts and how they meet. Each Ruby object has a holder, a C structure with a pointer to a
-- structure of libssh; the holders of channels and scps also keep the Ruby value of their session.
-- A method converts its arguments, takes the pointer out of the holder, calls libssh once, most
-- often through `rb_thread_call_without_gvl`, tests the return code by the macro `RAISE_IF_ERROR`
-- of its file, which calls `libssh_ruby_raise`, and makes a Ruby value of the answer. Ruby's
-- collector calls the mark and the free functions of the classes.
--
-- The files. Each function of the source has a definition with its name; a macro has its name in
-- lower case.
-- Base: names that are shared, numbers, signed integers and their conversions, binary digits,
--   lists.
-- Value: Ruby values (`VALUE`), exceptions, and results. A result is a value, a raised exception,
--   or `fault` where the C code of the extension does what C leaves undefined: it reads a holder
--   that is gone, reads beyond a buffer, frees a buffer that is not there, or uses a variable that
--   is not set.
-- Libssh: the calls of libssh, what each gives back, and `Platform`, the parameter that stands for
--   libssh: a machine with a state of its own that answers each call. Nothing is assumed of it but
--   what a theorem names. The values of SSH_ERROR, SSH_EOF, the levels of logging and the flags of
--   authentication are fields, as are Ruby's conversions of values that are no string or number,
--   `rb_ary_join`, and whether memory can be had.
-- Runtime: the state (`World`): objects by address, the next free address, the number of buffers
--   not yet freed, the state of libssh, and the calls made so far; and actions on it, which return,
--   raise or fault. Runtime.Api has the functions and macros of Ruby's C API that the source uses,
--   on a machine with an `int` of 32 and a `long` of 64 bits; Runtime.Objects the access to
--   holders; Runtime.Keeps the rules for predicates that actions keep; Runtime.Trace the answer of
--   one call.
-- Error: ext/libssh_ruby/error.c, and `m_version` of ext/libssh_ruby/libssh_ruby.c. Error.Outcome
--   describes what a guarded call comes to.
-- Key: ext/libssh_ruby/key.c.
-- Session: ext/libssh_ruby/session.c; Session.Options has the options, Session.Connection the
--   connection and the server's key, Session.Auth authentication.
-- Channel: ext/libssh_ruby/channel.c; Channel.Requests has opening and requests, Channel.Stream
--   reading and writing, and Channel.Select the class method `select`.
-- Scp: ext/libssh_ruby/scp.c; Scp.Transfer has the transfers. Scp.Script describes blocks that make
--   transfer calls, and what they are to do; Scp.Sequence compares them with `m_init`.
-- Methods: the methods that the `Init_libssh_*` functions define, as data types, and the dispatch
--   of a call to the C function.
-- Threads: the functions that release Ruby's lock, each up to its `nogvl` function and on from it
--   (Threads.Channels, Threads.Sessions, Threads.Scps), with other threads at work and interrupts
--   at both ends of the call of libssh. Threads.Methods has the methods among other threads,
--   Threads.Alone compares them with the methods in one step; Threads.Requests and Threads.Openings
--   describe what those that test a return code are to do, Threads.Races is about them, and
--   Threads.Interrupts about interrupts.
-- Gc: the mark functions, the free functions, and the objects that marking reaches from the roots.
--   Gc.System is a Ruby process as a step relation: objects are made, methods are called on held
--   objects, references are dropped, and objects that are not live are freed, in any order;
--   Gc.System.Release has sequences of steps, and Gc.System.History what the steps were. Gc.Keeper
--   goes through the methods for any predicate on states that they may keep. Gc.Types has the
--   `rb_data_type_t` of the classes, and Gc.Generations what a minor collection of Ruby's
--   generational collector looks into, given their flags.
-- Init: the `Init_libssh_*` functions of all the C files as lists of definitions that run in order
--   (Init.Tables, Init.SessionTable), and Ruby's call of a method by its name. Init.Names has the
--   documented names and arguments, and Init.New calls of `new`. libssh's constants are the fields
--   of `Header`.
-- Sound: whether a method ever faults: Sound.Sessions, Sound.Channels, Sound.Scps and Sound.Keys go
--   through the methods, Sound.Blocks through those that run a block, Sound.Select through
--   `Channel.select`, and Sound.Reachable puts them together for the states of Gc.System.
--   Sound.NullScp is about an scp that is NULL, and Sound.Opened about programs in which none is.
-- Program: Ruby programs that load the extension, call `new`, methods and `select` by their names,
--   drop references and have their objects collected. Program.Simulation maps them to the steps of
--   Gc.System, and Program.Sound is about their calls. A block of such a program is any action that
--   leaves what marking reaches from the references allocated.
-- Tests: a small machine in the place of libssh, and the theorems at concrete states.
-- The other children hold proofs, and are named for what they prove.
--
-- How the code is read. A handle is a number, or `none` for NULL. A function that works without
-- Ruby's lock is one step, in which other threads and interrupts do nothing, but in Threads, where
-- others run before libssh is called and behind the call. A block given to a method is any action.
-- What a method writes before it raises stays written. There is no fuel: loops are recursion on the
-- array that they run over, and all else is without loops. An `int` and a `long` are signed
-- integers whose range is tested where Ruby tests it; conversions to `unsigned int` and `size_t`
-- are modulo 2 ^ 32 and 2 ^ 64.
--
-- Not modelled: the code of libssh and of Ruby, which are parameters or Ruby's documented
-- behaviour; what libssh does with a handle that is NULL or that it has freed: it answers each
-- call; another thread that changes the bytes of a string while libssh reads them, and other
-- threads within the steps of Gc.System and Program; `LibSSH.version` as a step of a program; the
-- Ruby files under lib, the examples, the specs and the build script.
pub mod Base
pub mod Value
pub mod Libssh
pub mod Runtime
pub mod Error
pub mod Key
pub mod Session
pub mod Channel
pub mod Scp
pub mod Methods
pub mod Gc
pub mod Init
pub mod Threads
pub mod Sound
pub mod Program
pub mod Tests
