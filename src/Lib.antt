-- ===== src/Lib.antt =====
-- mod_gate, an Apache module that filters requests by the client's address.
--
-- The server calls two parts of the module. While it reads its configuration it runs the directives of
-- src/mod_gate.c, which fill a configuration of the server and one of each directory. For each request
-- it runs `gate_request_handler` of src/module.cpp, which merges both configurations into the notes of
-- the request, finds the filter that they name and the filter's SQLite database, looks the client's
-- address up in it and declines the request, so that other handlers go on, or ends it with the code of
-- the row that it found. It works through the wrappers of src/sqlite.cpp (`Database`, `Query`) and of
-- src/apr_table.cpp (`table`, `table::iterator`).
--
--   Base     Boolean tests, lists over the native numbers, byte texts and signed integers. A C string
--            is the list of its bytes, an integer is a number with its wrap-around written out.
--   Endian   src/endian.cpp, and the macros SWAP_I16 to SWAP_F128 of src/types.h.
--   Util     src/util.cpp and src/util.hpp: split, url_decode, url_encode, replace, to_lower
--            and to_upper.
--   Apr      The tables and hashes of APR are a parameter, a record of operations, with the laws that
--            APR documents in AprLaws; Apr.Assoc is an instance. Apr.Table is the iterator of
--            src/apr_table.cpp, Apr.Handles its class table, whose objects share a table.
--   Decimal  The decimal numbers that the code writes into its queries and messages.
--   Host     The process id, the byte order, access() and inet_pton() are a parameter; htonl() and the
--            number that an address is looked up by are defined.
--   Config   src/mod_gate.c, src/common.c and the structs of src/module.h. Every directive is a function
--            from the settings to new settings and an error message or NULL.
--   Sqlite   The SQLite library is a parameter, with what it documents of its handles in Sqlite.Laws;
--            the rest is src/sqlite.cpp. An exception is a value of Outcome.
--   Gate     src/module.cpp and src/module.hpp: merge_var, gate_request_init_configuration and
--            gate_request_get_handler; Gate.Serve has gate_request_handler, which is composed of
--            one function for each stage behind a test or a call that may fail. What runs on every
--            way out, the destructors of Handler, Database and Query, is a call on every way out.
--            Gate.Child has the hooks of src/mod_gate.c and gate_init_module; the server calls the
--            first hook once for a child process, which then serves requests one after the other.
--   GateDb   src/gatedb.cpp, the tool that creates, indexes and lints a filter database: GateDb has
--            what it does to a file and to a row, GateDb.Tool its commands, GateDb.Help the help text.
--            The results of getopt_long are a list, and every command has its operand. What an
--            uninitialised variable holds is an arbitrary function of the state.
--   Form     src/request.cpp: the body of a request (setup_client_read, content; Form.Line has
--            read_line and read) and the tables of its parameters (queries, parse_query_string,
--            form_data), the report of a request and send_file (Form.Report). The server's
--            functions on the connection are a parameter, with what they document in Form.Partial,
--            where a read can fail at any time, and in Form.Reading, where none fails.
--   Life     src/apr.cpp: init and destroy, which count the users of the APR library and own its pool.
--   Files    src/apr.cpp: rmdir, mkdir, cp, mv and rm. The file system is a parameter. In rmdir
--            the path of an entry is a pointer into a string that has ended; what is read there
--            is a parameter, `stale`, an arbitrary function of the path that was built.
--   Ruby     The binding of SQLite to the interpreter of Ruby: Ruby.Database is src/ruby_sqlite.cpp,
--            Ruby.Rows is src/ruby_sqlite_stmt.cpp, Ruby.Interpreter is src/ruby.cpp. mruby is a
--            parameter; a Ruby exception is a value of Outcome. A method takes its object and the world
--            of SQLite and returns both; Ruby.Scripts has the objects of an interpreter and the steps of
--            scripts and of the collector on them, in any order. The memory of a new connection is
--            arbitrary, since the code does not set its fields.
--   Server   src/server.cpp and src/server.h: the class Server on an explicit heap, whose objects
--            own those of the next servers. Addresses are not used twice.
--   Paths    src/apr.cpp: subpools and the functions on paths. A string is tied to the pool
--            that holds it. APR's functions on paths are a parameter.
--   FileInfo src/apr.cpp: file_info and stat.
--   Tests    Instances of the parameters, and one run of each theorem below.
--
-- Fuel. The iterations of src/apr_table.cpp have one round more than the table has elements, since
-- each round but the last moves to the next one; url_decode has as many rounds as the text has
-- bytes, of which each reads one at least; the loop of replace has one round more than the text has
-- bytes if the pattern is not empty, since each replacement consumes the pattern; a number of 32
-- bits has at most ten digits. rmdir has fuel for the depth of directories, and for the rounds of
-- the loop in each, one more than the directory has entries. The loops of the tool have one round
-- more than the query has rows, that of content one more than there are bytes, and that of
-- read_line one for each byte of the line.
--
-- Not modelled. The rest of src/request.cpp, src/connection.cpp, src/server.cpp and src/process.cpp
-- (accessors of the server's structures, and what passes its arguments on to the server); of
-- src/apr.cpp what passes its arguments on to APR (temporary files, error texts, the fields of
-- file_info); the definition of the Ruby classes and constants in src/ruby_sqlite.cpp and
-- src/ruby_sqlite_stmt.cpp; src/getopt_long.c, src/sqlite3.h and src/thirdparty (other projects'
-- libraries). The log is a list of lines, without the server's own prefix. The locale is a
-- parameter of to_lower and to_upper. Conversions that SQLite makes in a row when it is read are
-- left to it.
pub mod Base
pub mod Endian
pub mod Util
pub mod Apr
pub mod Decimal
pub mod Host
pub mod Config
pub mod Ruby
pub mod Server
pub mod FileInfo
pub mod Paths
pub mod Sqlite
pub mod Gate
pub mod GateDb
pub mod Files
pub mod Form
pub mod Life
pub mod Tests
