-- ===== src/Lib.antt =====
-- TRYO: a small SQL server over HTTP, in C. A request's body holds one INSERT or SELECT statement for
-- the table `users`. Worker threads take accepted connections from a bounded queue, read a request,
-- extract and parse the SQL text, and run it on a storage engine that keeps the records in an array, an
-- index of their ids in a B+ tree and every record as a line of a data file. The answer is JSON.
--
-- Parts and files
--
-- Prelude: the shared names; Prelude/Tests has the Boolean tests, Prelude/Lists lists measured by the
--   native numbers, Prelude/Text the C strings and the functions of <ctype.h>, <string.h> and <stdlib.h>
--   that are called, Prelude/Decimal the decimal print of a number and its reading, Prelude/Options the
--   chaining of results.
-- Bptree: src/bptree.c and include/bptree.h. A node is a list of entries, or keys and children; each
--   helper of the C code is a function. Children: Spec (sorted entries as a map), Leaf, Ordered, Keeps and
--   Refine (the operations against that map), Tree, Shape and Height (occupancy and balance), Memory
--   (failing allocations), Tests.
-- Util: src/util.c. Util/Escape has `json_escape_dup`, Util/Json a reader of JSON string bodies that keeps
--   to the standard, Util/Builder the `JsonBuilder` with failing reallocations, Util/Growth the proofs on
--   it, and Util/Room when there is no builder.
-- ThreadPool: src/thread_pool.c. What a thread does in one stretch with the mutex held is a function of
--   ThreadPool; ThreadPool/Ring has the ring buffer against a queue, ThreadPool/Init `thread_pool_init`,
--   ThreadPool/System the threads as a step relation, with signals, broadcasts and spurious wake-ups in any
--   order, and ThreadPool/Fifo, ThreadPool/Live and ThreadPool/Progress what holds on every run.
-- Sql: src/sql.c and include/sql.h, function by function. Sql/Statement has the types, Sql/Lexical the
--   lexical functions, Sql/Insert `parse_insert`, Sql/Select `parse_select`, and Sql itself `sql_parse`.
--   Sql/Command is the language: its commands as data, the statement of each, and a text of each. Sql/Ensures,
--   Sql/Columns, Sql/Language and Sql/Bounds have what an accepted statement satisfies, Sql/Printed,
--   Sql/PrintedColumns and Sql/RoundTrip the parsing of printed commands.
-- Db: src/db.c and include/db.h. Db/Rows has the JSON of a record, Db/Engine the insertion, Db/Select the
--   selection, Db/Load the reading of the data file; Db/Sound, Db/Rendered, Db/Matching, Db/Lookup, Db/Insert,
--   Db/Visible, Db/Line, Db/Reload, Db/Durable, Db/Steady, Db/Reopened, Db/Yields and Db/Total have the proofs.
-- Http: src/http.c. Http/Request has `http_read_request` and `parse_content_length`, with the results of
--   `recv` as a list, Http/Response the sending of an answer, with the results of `send` as a list and its
--   proofs, Http/Extract the extraction of the SQL text from a body. Http/Text is the text of a request, Http/Search
--   `strstr` on it, Http/Arrival its arrival in parts, Http/Head its header and Http/Accepted the reading of
--   it; Http/Reading, Http/Body and Http/Trim have the other proofs.
-- Server: src/server.c. Server/Query has `execute_statement`, `handle_query` and `handle_client`, which
--   compose Http, Sql and Db the way the code does; Server/Run has `server_run`, with the results of the
--   calls and the signals as arguments. Server/Table is what the program is for: a table, the
--   commands of Sql/Command on it, and their answers. Server/Refused, Server/Inserted, Server/Selected and
--   Server/Refine have the proofs that a query is its command on the table, Server/Body and Server/Arrived those
--   on a query from its received bytes, and Server/History and Server/Durable those on sequences of queries
--   and a restart. Server/Requests, Server/Answers and Server/Restart have the
--   other proofs on requests, Server/Shutdown and Server/Ends those on the run.
-- Main: the arguments of src/main.c as a configuration.
--
-- Conventions
--
-- A number that the code keeps in an `int` and that is never negative is a natural number with its bound
-- as a hypothesis or a theorem; a `size_t` keeps its wrap-around or overflow test written out. A text is
-- the list of its bytes before the NUL. Memory, files, locks and threads that can fail are parameters
-- that tell which calls succeed, so every error path of the code is a branch of the model.
--
-- Waiting: that a `thread_pool_submit`, or a worker that is told to stop, does not come to its end is a
-- parameter of `server_run` and of `thread_pool_shutdown`, whose result is then `none`.
--
-- Fuel: the doubling loop of `json_builder_reserve` has 64 rounds, `json_builder_appendf` two, the doubling
-- loop of `db_reserve_records` 64, and the loop of `db_init` one more than the file has bytes. The results
-- below have what is enough, so that the branch for a doubling loop out of fuel, which the model takes like a
-- refused allocation, is not come to: in `json_builder_reserve` never, and in `db_reserve_records` not for up
-- to 2 ^ 63 records. The loop of `parse_content_length` has as many rounds as the text has bytes, and each
-- goes on to a shorter text.
--
-- Not modelled: freeing memory (bptree_destroy, db_result_free, json_builder_free and the like), the clock,
-- logging, the messages on the terminal and the sockets themselves, of which the results of the calls are
-- arguments. In `db_reserve_records` the size wraps around from 2 ^ 57 records on, and `realloc` is asked
-- for less; writing behind the end of that array is not modelled. The read-write lock of the engine is a
-- call that succeeds or fails; an operation between lock and unlock is one function.
pub mod Prelude
pub mod Bptree
pub mod Util
pub mod ThreadPool
pub mod Sql
pub mod Db
pub mod Http
pub mod Server
pub mod Main
