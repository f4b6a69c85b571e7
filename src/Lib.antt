-- ===== src/Lib.antt =====
-- A model of the inter-container messaging protocol: the library libic, the daemon icmpd and the
-- client icmpc, which passes a command line or text to the daemon of another container and prints
-- the reply.
--
-- The parts, from the bottom up, and the files that model them:
--   ErrorCode    src/include/ic_error.h: the global `ic_errno` and the code ranges of the subsystems.
--   Stream       src/lib/buffer_stream.c: a byte buffer with a position. Messages are written and read
--                through it, and the daemon collects a program's output in one.
--   Message      src/lib/icmp.c, src/include/icmp.h: `icmp_marshal` (`marshal`) and, in Receive,
--                `icmp_unmarshal` (`unmarshal`), which checks a message and calls a handler on its
--                payload.
--   Nanomsg      src/lib/nanomsg.c: sockets, and the loops around calls that are interrupted.
--   StringTree   src/lib/string_tree.c: the parsed configuration and its queries by dotted path.
--                Find says what such a query is to give, apart from how it is searched for.
--   Util         src/lib/util.c: `ic_util_split_string`, and in Mkdir `ic_util_mkdir`.
--   Container    src/lib/conf_file.c and src/lib/ic.c: `ic_conf_file_query` and `ic_container_name`.
--   Yaml         src/lib/yaml.c and `ic_conf_file_parse` of src/lib/conf_file.c: the loader, which makes
--                the string tree of a document; Settings says what a configuration means, apart from
--                how it is kept.
--   Bcll         src/include/bcll.h: circular lists of links, which hold the open transports.
--   Vector       src/lib/vector.c: growing arrays of objects or descriptors. Slots has
--                the accessors.
--   Transport    src/lib/transport.c: the channel directories and the socket of a transport, the list
--                of the open ones, the messages that one carries, and the vectors of buffers.
--   Linux        src/lib/linux.c: the helpers that load and save files.
--   Lxc          src/lib/lxc.c: the list of the defined containers, a vector of names.
--   Subcommand   src/lib/subcommand.c: the registry in which a program looks up what it was asked for.
--   Program      what src/icmpd/icmpd.c and src/icmpc/icmpc.c share: the loop over the options, and the
--                run of the subcommand.
--   Daemon       src/icmpd/subcmd_start.c: Start (`init_context`, `daemonlize`, `run_start`), Workers
--                (`create_worker`, `create_transport`, `stop_worker`), Words (`build_argv`), Acl
--                (`check_limited_commands`, `check_command_acl`, `check_command`), Exec (`echo_data`,
--                `execute_cmd`) and Serve (`handle_payload`, `handle_protocol` and the loop of a
--                worker). Main is src/icmpd/icmpd.c with src/icmpd/subcmd_help.c.
--   Client       src/icmpc/subcmd_commandline.c and src/icmpc/subcmd_echo.c: one request of the
--                client. Session joins it to the daemon, Limited to one that a
--                configuration file limits, and Main is src/icmpc/icmpc.c with
--                src/icmpc/subcmd_help.c.
--   Base         shared types: `Run` is a computation that returns, faults, exits or stays inside a
--                call whose outcomes are not given (`blocked`), Word holds the
--                conversions between C integers, Lists and Tests what lists and Booleans share.
--   Examples     runs at concrete inputs.
-- Where nothing else is said, a child module of a part holds its proofs and is named for what they
-- show.
--
-- Conventions. A byte is a number, and memory is a list of bytes. A pointer that the program may
-- find to be NULL is an Option. Behaviour that C leaves undefined (a use of an unset or NULL
-- pointer, an access behind an object) is `fault`, a failed `ic_assert` is `exited`. `unsigned
-- long` wraps at 2 ^ 64, `long` is the integers with casts written out, 16- and 32-bit fields wrap
-- where the code makes them. An allocation is an argument: the block that it returns, with any
-- content, or `none`; where only success matters, a predicate on the size. `ic_errno` is part of the
-- state that is passed on, and a status that sets it is returned with the result.
--
-- What is not under the repository is a parameter: the calls of the nanomsg library (the outcomes of a
-- call that is repeated are a list), the program that a command executes (its output, as a list of
-- reads), `gethostname`, the document that libyaml loads, the options that `getopt_long` finds, the
-- file system under `mkdir`, `access` and the functions of stdio, the entries of a directory, and the
-- process numbers that `fork` gives.
--
-- How the parts meet. The client (`exchange`) and the process that the daemon forks for a container
-- (`worker_process`) each create a transport of Transport, which calls the wrappers of Nanomsg: the one
-- connects to the channel of a name, the other binds it. What one sends there, the other receives:
-- Client/Session joins the two with this as a hypothesis, `AreJoined`, since the sockets between them
-- are not the program's. What comes in depends on what went out: the state of the client keeps the
-- messages that it has sent (`client_send`), and an answer is there only behind the message itself.
--
-- Fuel. `split_loop`, `argv_loop` and `mkdir_loop` take one round for each byte of the input,
-- `uts_name` one for each doubling of the buffer up to 2 ^ 64, and `worker` one for each receive and
-- one to wait; the results below say where this is enough. `walk_through_yaml` runs on the calls that
-- the stack can hold: the end of it is the fault that it is in C, and a stack for the depth of the
-- document is enough.
--
-- Not modelled: the wrappers in src/lib/linux.c that pass one call of the C library on; the constructor
-- and the empty garbage functions of src/lib/init.c and src/lib/garbage.c; `create_thread_worker`,
-- which nothing calls; the release of memory, but for what a caller can still reach; and all that only
-- prints, among it the dump of socket options.
pub mod Base
pub mod ErrorCode
pub mod Stream
pub mod Message
pub mod Nanomsg
pub mod StringTree
pub mod Util
pub mod Yaml
pub mod Container
pub mod Program
pub mod Daemon
pub mod Client
pub mod Vector
pub mod Bcll
pub mod Subcommand
pub mod Transport
pub mod Lxc
mod Examples
pub mod Linux
