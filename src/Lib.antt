-- ===== src/Lib.antt =====
-- A mail system in C: an SMTP server, an SMTP client and the code they share. This library models
-- the server with its SMTP sessions, the client's parsing of mails, its state machine and its loop over
-- the connections, and the strings, lists, dictionaries, configuration and logger below them. Each
-- definition stands for one function of the source, or a part of one, and keeps its name in lower case;
-- each file names the source file it is about, from the root of the repository.
--
-- The parts and how they meet:
--   * StringUtils: common/src/string_utils.c. The server trims a command, compares its beginning
--     and looks for line ends with these three functions.
--   * LinkedList: common/include/list.h, on a memory that gives every address its two links. The
--     server keeps recipients, text lines and the pieces of a command in such lists; Smtp works with
--     the texts in the order of `list_foreach`, where `ring_add` puts an element behind the first.
--   * Smtp: server/src/smtp.c and server/include/smtp.h. Regex has the expressions of the handlers
--     as functions, Session the session and its resets, Commands the handlers and
--     `smtp_process_command`. A result of `none` is a write through the NULL of a failed `malloc`.
--   * Tree: common/src/tree.c and common/include/tree.h, a memory of nodes with their pointers to the
--     parent; Tree.Dict has search, insertion and the dictionary. Tree.Ordered has the tree that a memory
--     holds at a root. The server keeps its sessions and
--     the configuration in such dictionaries.
--   * Ini: common/src/ini.c, the reading of the configuration, with the dictionary as a parameter.
--   * Server: server/src/server.c. Server itself is what `server_start` does with the bytes of one
--     read: the search for line ends, the piece of a command that is kept for the next read, and the
--     end of a session. Server.Loop is the rest of `server_start`: the socket, the rounds of
--     `pselect` with `accept`, the sessions in the dictionary, and the release of them. A session is
--     found by the digits of its descriptor, as an address in a memory of sessions.
--   * Logger: common/src/logger.c, the messages with their buffers and the process that writes them.
--   * Maildir: common/src/maildir.c, the files of a mailbox; what `mkdir`, `mkstemp` and `rename` give is
--     an argument. Only `envelope_save` of server/src/smtp.c calls them, behind a `return` that it
--     always takes.
--   * SharedStrings: common/src/shared_strings.c, the growing buffers of the client.
--   * Client.Fsm and Client.Handlers: client/src/client-fsm.c (the table and `client_fsm_step`) and
--     client/src/client_fsm_handlers.c; Client.Fsm.Definition has client/autogen/client.def, from
--     which the table is generated. Client.Connection: conn_t, mail_t and `init_connection`.
--   * Client.Parser: `parse_mail` of client/src/parser.c and the functions below it; the answers of the
--     resolver are a parameter.
--   * Client.Messages, Client.Io, Client.Pool and Client.Batch: `try_parse_message_part` and
--     `parse_return_code` of client/src/parser.c, and client/src/client.c: the reading of replies,
--     one read and one write event, the functions over all connections, and the dealing of files to
--     processes. Client.Select: `process_mails` of client/src/client.c, from the connections of the
--     mails to the end of its loop over `select`.
--   * Client.Files: client/src/dir_worker.c, `read_file` of client/src/parser.c, `process_mail_files`
--     of client/src/client.c and `main_loop` of client/src/main.c.
--   * Exchange: client and server together, what one of them sends being what the other one reads.
--
-- How the model stands to the source:
--   * A C string is the list of the bytes before its terminator, and a counted buffer is the list
--     of the bytes that were written into its allocation; a count and a buffer are kept apart, as in
--     the source, and bytes that were used already stay behind the count.
--   * Numbers are natural numbers. The sizes here are lengths of buffers and counts of files, which
--     the source keeps in int and size_t; overflow of these is not modelled. A negative size of a
--     `memcpy` is a fault.
--   * What the system gives is an argument: the bytes of `recv`, the count of `send`, whether `fork`
--     and `malloc` succeed, the descriptors of `select`, the text of a date. A loop over `select` is
--     given its rounds as a list. Calls of the logger have no effect on any other state and are left
--     out of the functions that make them.
--   * The loops run on fuel: `read_loop`, which makes at most one round more than there are unread
--     bytes, since a message takes at least the two bytes of its end, `batch_loop`, which makes at most one
--     round for each file, and `command_loop`, in which a command takes at least the two bytes of
--     its end. `list_foreach` on the memory runs on fuel too, one round for each
--     element, and so do the search of Tree, which takes at most one round for each node of a tree and
--     one more, and its `fix_after_insert`, for which no bound is shown: on memory that is no tree
--     they need not end.
--   * The passes over the descriptors take one round for each descriptor below FD_SETSIZE, and a
--     read event and the commands of a read are given one round for each byte and one more.
--   * What the source reads behind an array that has no terminator, and what `memcpy` makes of regions
--     that overlap, is a part of the argument `system` of a connection: arbitrary bytes, which the
--     theorems that depend on them restrict.
--   * In the client `calloc` and `malloc` succeed except where an argument says so, and sockets are
--     below FD_SETSIZE. In the server all allocations of one read succeed, or none. The sizes of the
--     allocations in server/src/smtp.c are not modelled: a fault there is a write through NULL.
--
-- Not modelled: common/src/dir_helper.c and the start of the main programs, which are calls of the
-- system, and the generated options of the client.
pub mod Base
pub mod StringUtils
pub mod LinkedList
pub mod Smtp
pub mod SharedStrings
pub mod Tree
pub mod Ini
pub mod Server
pub mod Client
pub mod Logger
pub mod Exchange
pub mod Maildir
