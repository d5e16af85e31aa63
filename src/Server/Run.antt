-- ===== src/Server/Run.antt =====
-- `server_run` of src/server.c: the start of the parts, the loop over `accept`, and the clean-up.
-- Left out are the messages on the terminal. How the wait of `thread_pool_submit` for room and the
-- wait for the workers come to their ends is in ThreadPool/System.antt; here a wait has an end or
-- not.
use tryo.Prelude.{
  ℕ, ◌%◌, ◌^◌, ◌==◌, Bool, true, false, not, Option, none, some, List, [], ◌∷◌, ◌++◌, if◌then◌else◌,
  Bytes,
}
use tryo.Sql.{Parsed, ok, fail}
use tryo.Main.{ServerConfig}
use tryo.Db.Engine.{DbEngine, Calls}
use tryo.Db.Load.{db_init}
use tryo.ThreadPool.{ThreadPool}
use tryo.ThreadPool.Init.{Live, nothing, thread_pool_init, thread_pool_shutdown}

abbrev pub request_queue_capacity : ℕ
request_queue_capacity = 128

-- Whether the calls of the start succeed: those of `db_init`, on the data file that is there, those
-- of `thread_pool_init`, and those for the listening socket. `socket_fd` is the descriptor that
-- `socket` gives; `bind_ok` is told the port.
pub record Environment : Type 0 where
  pub rwlock_ok : Bool
  pub fopen_ok : Bool
  pub db_calls : ℕ → Calls
  pub file : Bytes
  pub pool_calls : tryo.ThreadPool.Init.Calls
  pub socket_fd : Option ℕ
  pub setsockopt_ok : Bool
  pub bind_ok : ℕ → Bool
  pub listen_ok : Bool

-- What `server_run` holds: the engine, what the pool has allocated and runs, and the descriptors
-- that `create_listen_socket` opened and that are not closed. `accepted` are the descriptors that
-- `accept` gave, `submitted` those for which `thread_pool_submit` returned 1, and `closed` those
-- that the loop closed, each in order of time.
pub record Server : Type 0 where
  pub db : Option DbEngine
  pub pool : Live
  pub open_fds : List ℕ
  pub accepted : List ℕ
  pub submitted : List ℕ
  pub closed : List ℕ

abbrev pub not_started : Server
not_started = record {
  db = none;
  pool = nothing;
  open_fds = [];
  accepted = [];
  submitted = [];
  closed = [];
}

abbrev pub db_destroyed : Server → Server
db_destroyed server = record server { db = none }

abbrev pub with_live : Server → Option Live → Option Server
with_live server none = none
with_live server (some live) = some (record server { pool = live })

-- `thread_pool_shutdown(&pool)`; `none` waits for a worker that does not end
unfoldable pub pool_shutdown : (ℕ → Bool) → Server → Option Server
unfolding thread_pool_shutdown
pool_shutdown ends server = with_live server (thread_pool_shutdown ends server.pool)

-- `close(fd)`
unfoldable pub close_fd : ℕ → List ℕ → List ℕ
close_fd fd [] = []
close_fd fd (x ∷ fds) = let rest = close_fd fd fds in if x == fd then fds else x ∷ rest

-- `create_listen_socket` behind `socket`, with the open descriptors before and behind it;
-- `(uint16_t)port` cuts the port to 16 bits
unfoldable pub socket_opened : Environment → ℕ → List ℕ → Option ℕ → List ℕ × Option ℕ
unfolding close_fd
socket_opened env port open_fds none = (open_fds, none)
socket_opened env port open_fds (some listen_fd) =
    let opened = listen_fd ∷ open_fds in
    if not env.setsockopt_ok
    then (close_fd listen_fd opened, none)
    else if not (env.bind_ok (port % 2 ^ 16))
    then (close_fd listen_fd opened, none)
    else if not env.listen_ok
    then (close_fd listen_fd opened, none)
    else (opened, some listen_fd)

unfoldable pub create_listen_socket : Environment → ℕ → List ℕ → List ℕ × Option ℕ
unfolding socket_opened
create_listen_socket env port open_fds = socket_opened env port open_fds env.socket_fd

-- what `accept` gives: an error, of which EINTR and EBADF are told apart, or a descriptor
pub data Accept : Type 0 where
  interrupted bad_descriptor failed : Accept
  client : ℕ → Accept

-- One round of the loop: whether a SIGINT or SIGTERM arrives before the test of `g_should_stop`,
-- what `accept` gives, whether such a signal arrives meanwhile, and what `thread_pool_submit`
-- returns, with `none` for a call that waits forever.
pub record Round : Type 0 where
  pub signal_before : Bool
  pub accept : Accept
  pub signal_during : Bool
  pub submit : Option Bool

-- `g_should_stop` behind a signal, if one arrives
abbrev pub handle_signal : Bool → Bool → Bool
handle_signal arrives g_should_stop = if arrives then true else g_should_stop

-- The body of the loop behind `accept`, with `true` where the loop goes on; `none` waits forever.
abbrev pub accepted_step : Accept → Bool → Option Bool → Server → Option (Bool × Server)
accepted_step interrupted g_should_stop submit server = some (true, server)
accepted_step bad_descriptor g_should_stop submit server = some (false, server)
accepted_step failed g_should_stop submit server = some (not g_should_stop, server)
accepted_step (client fd) g_should_stop none server = none
accepted_step (client fd) g_should_stop (some submitted) server =
    let server' = record server { accepted = server.accepted ++ fd ∷ [] } in
    if submitted
    then some (true, record server' { submitted = server.submitted ++ fd ∷ [] })
    else some (false, record server' { closed = server.closed ++ fd ∷ [] })

-- the end of the body of the loop: the next round, or the way out
abbrev pub and_on : (Server → Option Server) → Option (Bool × Server) → Option Server
and_on next none = none
and_on next (some (true, server)) = next server
and_on next (some (false, server)) = some server

-- The loop over the rounds to come; `none` is a loop that still runs after them, or waits forever.
unfoldable pub accept_loop : List Round → Bool → Server → Option Server
accept_loop [] g_should_stop server = none
accept_loop (r ∷ rounds) g_should_stop server =
    let before = handle_signal r.signal_before g_should_stop in
    let during = handle_signal r.signal_during before in
    let rest =
      and_on (λ server'. accept_loop rounds during server')
        (accepted_step r.accept during r.submit server) in
    if before then some server else rest

-- what `server_run` returns when it has shut the pool down
abbrev pub exits : ℕ → Option Server → Option (ℕ × Server)
exits status none = none
exits status (some server) = some (status, db_destroyed server)

abbrev pub close_listen_fd : ℕ → Server → Server
close_listen_fd listen_fd server = record server { open_fds = close_fd listen_fd server.open_fds }

-- the clean-up behind the loop
unfoldable pub stopped : (ℕ → Bool) → ℕ → Option Server → Option (ℕ × Server)
unfolding pool_shutdown close_fd
stopped ends listen_fd none = none
stopped ends listen_fd (some server) =
    exits 0 (pool_shutdown ends (close_listen_fd listen_fd server))

unfoldable pub listening :
    (ℕ → Bool) → List Round → Server → List ℕ × Option ℕ → Option (ℕ × Server)
unfolding pool_shutdown accept_loop stopped
listening ends rounds server (open_fds, none) =
    exits 1 (pool_shutdown ends (record server { open_fds = open_fds }))
listening ends rounds server (open_fds, some listen_fd) =
    stopped ends listen_fd (accept_loop rounds false (record server { open_fds = open_fds }))

unfoldable pub with_pool :
    Environment
    → ServerConfig
    → List Round
    → Server
    → Option (Live × Option ThreadPool)
    → Option (ℕ × Server)
unfolding create_listen_socket listening
with_pool env config rounds server none = none
with_pool env config rounds server (some (live, none)) =
    some (1, db_destroyed (record server { pool = live }))
with_pool env config rounds server (some (live, some pool)) =
    listening env.pool_calls.ends rounds (record server { pool = live })
      (create_listen_socket env config.port server.open_fds)

unfoldable pub with_db :
    Environment → ServerConfig → List Round → Option (Parsed DbEngine) → Option (ℕ × Server)
unfolding thread_pool_init with_pool
with_db env config rounds none = none
with_db env config rounds (some (fail message)) = some (1, not_started)
with_db env config rounds (some (ok db)) =
    with_pool env config rounds (record not_started { db = some db })
      (thread_pool_init env.pool_calls config.thread_count request_queue_capacity false)

-- The exit status and what is held at the end; `none` is a server that still runs after the rounds,
-- or waits forever.
unfoldable pub server_run : Environment → ServerConfig → List Round → Option (ℕ × Server)
unfolding db_init with_db
server_run env config rounds =
    with_db env config rounds
      (db_init config.data_path env.rwlock_ok env.fopen_ok env.db_calls env.file)
