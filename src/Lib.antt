-- ===== src/Lib.antt =====
-- cc_utils: the C utilities of this repository as shallow embeddings, with what is proved of them.
--
-- The program is a set of small libraries that do not call each other much. The ones modelled
-- here are these.
--
-- The binary log (src/binlog). binlog_print of src/binlog/binlog.c writes a record for each call:
-- a begin byte, the length, the level, the function's name, the line, the thread, the time, the
-- arguments of the format each behind a byte for its type, and an end byte. The format itself is not
-- written; binlog_prase of src/binlog/binlog_parser.c finds it in a JSON file by function and line
-- and prints the arguments with it. Both sides walk over the format on their own, and agree only if
-- they take the same arguments.
--   Binlog                 the types of arguments, the constants of binlog_internal.h
--   Binlog.Buffer          the thread's buffer `tbinlog`: binlog_maybe_realloc, print_int and so on
--   Binlog.Format          do_valog
--   Binlog.Record          print_begin, print_end, binlog_print
--   Binlog.Handle          binlog_create, binlog_destroy
--   Binlog.Parser          get_int and so on, binlog_va_arg
--   Binlog.Parser.Print    print_format
--   Binlog.Parser.Find     format_fetch, timestamp_fmt, the clocks, binlog_level_name
--   Binlog.Parser.Loop     binlog_parse_read, the body of the loop of binlog_prase, binlog_prase
--   Binlog.Parser.Create   binlog_read_json, binlog_parser_create, binlog_parser_destroy, and what the
--                          parser holds
--   Binlog.Parser.Main     the parser's main
--   Binlog.Pieces          formats as printf documents them, which both walks are compared with
--   Binlog.Laws            the proofs, a file for each part above
--   Binlog.Plenty          a malloc and realloc for examples
--   Binlog.Tests           a program with two calls
--
-- The command line server (src/cli/cli_server.c). A client sends a command and its arguments in a
-- message, the server reads it, finds the command in its table, runs it, and sends back what the
-- command printed.
--   Cli.Message            msg_encode, msg_decode
--   Cli.Layout             the bytes of a message
--   Cli.RoundTrip          msg_decode of what msg_encode wrote
--   Cli.Request            the loop of do_accept that reads a message
--   Cli.Table              cli_register, command_find, command_execute
--   Cli.Registered         the table against a list of registered commands
--   Cli.Output             cdp_init, cdp_reinit, cdp_destroy, cdp_print, cdp_output
--   Cli.Printed            what is printed
--   Cli.Io                 safe_read, safe_write over the system's read() and write()
--   Cli.Calls              what safe_read brings and how it ends; Cli.Sends, safe_write
--   Cli.Transfer           both over a connection that works
--   Cli.Serve              do_accept, from the accept() to the close()
--   Cli.Served             do_accept of a client's message, with the parts above
--   Cli.Lifetime           bind_and_listen, cli_create, msg_poll, cli_destroy
--   Cli.Unheard            cli_create without a socket
--   Cli.Builtin            cmd_help and cmd_test
--   Cli.Listing            what cmd_help prints
--   Cli.Helped             do_accept of the command "help"
--   Cli.Exit               the exit of a program behind cli_destroy
--   Cli.Loopback           a connection for examples
--   Cli.Tests              examples
--
-- The command line client (src/cli/cli_client.c): Client is the checks of the arguments, the search
-- for the server's socket and the exchange of message and reply, Client.Reply is about the reply,
-- Client.Exchange is about the client and the server together, over one connection, with the
-- server's do_accept running while the client waits in select(); Client.Tests has examples.
--
-- The options of a command (src/cli/options.c, include/cli/options.h): Options is the table of
-- options, the text and the array that getopt_long takes, find_option, print_help and the loop of
-- parse_options; Options.Room is about the text, Options.Tests is an example.
--
-- Numbers (src/num_convert.c): Numbers is str_to_int, Numbers.Value says what it returns,
-- Numbers.Tests is an example.
--
-- The array of pointers (src/point_array.c): PointArray has its values and
-- PointArray.Blocks its blocks; PointArray.Values and PointArray.Freed are about them.
--
-- malloc() and free() that print (src/malloc_plus.c): MallocPlus. The check of parameters for NULL
-- (src/check_param_list.c): CheckParam.
--
-- Fault injection (src/fault_inject.c, include/fault_inject.h): FaultInject is the registry, its
-- nodes in memory and every operation on it, FaultInject.Strikes says when a fault strikes,
-- FaultInject.Tests is an example. The red-black tree is the Linux kernel's, and a parameter.
--
-- The lists of include/list.h. A node is known by its address, and the memory gives the pointers of
-- every node.
--   Nodes                  the loops over `next` pointers; Nodes.Chain, Nodes.Walk and Nodes.Rounds,
--                          chains of nodes and where the loops end
--   Nodes.Foreach          the macros that walk over the nodes and the entries of a list, which
--                          Stq.Foreach and Dl.Foreach repeat; Nodes.Visited, what they visit
--   Dtq.Foreach            those of the ring; Dtq.Visited, what they visit
--   Sl                     the singly linked list; Sl.Contents, what its operations do to the sequence
--                          of the nodes
--   Stq                    the tail queue; Stq.Fifo and Stq.Removal, the same for it
--   Dtq                    the doubly linked ring; Dtq.Ring and Dtq.Contents, the same for it
--   Dl                     the list whose nodes point back at pointers; Dl.Contents, the same for it
--   Locked                 threads that share a list through a read-write lock, as steps that
--                          interleave: an operation begins on the list as it is then, and what it
--                          leaves is there when it ends. Locked.Safety is about who is in a call,
--                          Locked.Current about the list that an operation works on, and
--                          Locked.Simple is a lock for examples
--   Rwstq                  the locked tail queue; Rwstq.History is about what its calls return
--   Rwdtq                  the locked ring, as a list that can be shared
--   Sl.Tests and so on     examples
--
-- The bitmap (src/bitmap.c, include/bitmap.h): Bitmap, with Bitmap.Laws, Bitmap.Print and
-- Bitmap.Tests.
--
-- The spin lock (include/spin.h): Spin is its threads as steps that interleave, Spin.Exclusion says
-- who is behind the lock, Spin.Progress how a thread gets there, Spin.Tests is an example.
--
-- Mocks (src/mock.c, include/mock.h): Mock writes a jump over a function and brings it back,
-- Mock.Restored is about the memory behind both, Mock.Tests is an example.
--
-- The server over libibverbs and librdmacm (src/rdma_verbs.c): Rdma makes the queues and the memory
-- of a connection, Rdma.Requests handles a client's request, Rdma.Context has the context and the
-- thread that takes the events, Rdma.Drained is about what is received, Rdma.Tests is an example.
--
-- The JSON helper (src/json_helper.c, include/json_helper.h): Json stores the items of an object in
-- the fields of a struct, Json.Stored is about the struct behind it, Json.Tests is an example.
--
-- Base holds what these share: lists, Boolean tests and bytes over the native numbers, and Outcome,
-- the result of code that can fault. A fault stands for abort(), a failed assert and undefined
-- behaviour (an access outside of a block, a null pointer, an overflow of a signed number).
--
-- Bounds. Bytes, addresses and 32- and 64-bit values are natural numbers; where a value is stored
-- in a field its low bytes are written out, little-endian. The buffer of a record grows by an
-- `int32_t`; the proofs ask a record to stay below 2 ^ 30 - 1024 bytes, where it does not
-- overflow. Fuel: a round of the loop of do_valog or print_format takes a character of the format
-- at least, so that its length is enough (and fprintf with an argument of another type than its
-- specifier's is a fault), a round of binlog_prase takes a byte of the file, a walk
-- over a list a node, and a loop of safe_read or safe_write a byte or an interrupt. The theorems
-- show the results themselves, so that the fuel does not run out where they hold.
--
-- Parameters. malloc and realloc (Binlog.Buffer.Allocator, for the server too), what vsnprintf
-- makes of a command's text (an argument of cdp_print), sprintf and fprintf
-- (Binlog.Parser.Print.Stdio), read (Binlog.Parser.Loop.Reader), the files of the parser
-- (Binlog.Parser.Create.Files), malloc, free, open and close of a handle (Binlog.Handle.System) and
-- the objects of the JSON array (Binlog.Parser.Find.Item), the sockets (Cli.Io.Sockets,
-- Cli.Io.Calls for what they are documented to do to the bytes of a connection, and Cli.Io.Streams for
-- a connection that works, on which only a signal makes a call fail), the system's other calls of the
-- server and the client (Cli.Lifetime.System, Client.Desktop), getopt_long, strtol and strtod of
-- parse_options (Options.Getopt), the red-black tree (FaultInject.RbTree), mprotect() (Mock.Pages),
-- the verbs libraries (Rdma.Verbs, Rdma.Context.Manager), the items of a JSON object (Json.Object),
-- the read-write lock (Locked.RwLock, and Locked.Obliges for one that gives no error), malloc and free (Base.Heap), and the functions of commands, faults and options are given
-- by records and arguments with what the code relies on.
--
-- Not modelled: the usage text of the parser, the text of a date (localtime_r, strftime);
-- the signal handler, which only exits; what the locks around the table of commands and the print buffer
-- in the server do, but for the fault where there is no handler; double_to_str, which works on floating point numbers; some of the macros
-- that walk over a list with the node before it; what src/rdma_verbs.c only prints.
-- The red-black tree (src/rbtree.c, include/rbtree.h) is a copy of the Linux kernel's.
pub mod Base
pub mod Bitmap
pub mod Binlog
pub mod Cli
pub mod FaultInject
pub mod Stq
pub mod Nodes
pub mod Sl
pub mod Dtq
pub mod Locked
pub mod Rwstq
pub mod Numbers
pub mod Options
pub mod Dl
pub mod Rwdtq
pub mod Client
pub mod PointArray
pub mod Spin
pub mod Mock
pub mod Rdma
pub mod Json
pub mod MallocPlus
pub mod CheckParam
