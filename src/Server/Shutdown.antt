-- ===== src/Server/Shutdown.antt =====
-- What `server_run` of src/server.c leaves behind.
use tryo.Prelude.{
  Bool-cases, ◌%◌, ◌^◌, ℕ, ◌≤◌, ◌≡◌, refl, sym, ◌∙◌, ap, subst, Bool, true, false, Option, none,
  some, List, [], ◌∷◌, ◌++◌, append-nil, arith, length, inl, inr, ◌⊎◌,
}
use tryo.Sql.{Parsed, ok, fail}
use tryo.Main.{ServerConfig}
use tryo.Db.Engine.{DbEngine}
use tryo.Db.Load.{db_init}
use tryo.ThreadPool.{ThreadPool}
use tryo.ThreadPool.Init.{
  Live, nothing, running_with, thread_pool_shutdown_lem, InitSpec, thread_pool_init_lem,
}
use tryo.ThreadPool.System.{System, Reach, finished}
use tryo.ThreadPool.Progress.{IsStart, drained_at_shutdown}
use tryo.Server.Run.{
  Environment, Server, not_started, pool_shutdown, close_listen_fd, create_listen_socket, Accept,
  interrupted, bad_descriptor, failed, client, Round, handle_signal, accepted_step, and_on,
  accept_loop, exits, close_fd, socket_opened, stopped, listening, with_pool, with_db, server_run,
  request_queue_capacity,
}

-- what the loop keeps: the pool, the open descriptors, and that every accepted one was submitted
pub record Serves (pool : Live) (fds : List ℕ) (server : Server) : Type 0 where
  pub same_pool : server.pool ≡ pool
  pub same_fds : server.open_fds ≡ fds
  pub all_submitted : server.accepted ≡ server.submitted
  pub none_closed : server.closed ≡ []

-- every accepted descriptor was submitted or, at most the last one, closed
pub record Handed (server : Server) : Type 0 where
  pub handed_on : server.accepted ≡ server.submitted ++ server.closed
  pub one_at_most : length server.closed ≤ 1

Serves-Handed :
    {pool : Live} {fds : List ℕ} {server : Server} → Serves pool fds server → Handed server
Serves-Handed {server = server} h = record {
  handed_on =
      h.all_submitted ∙ sym (append-nil _) ∙ ap (λ c. server.submitted ++ c) (sym h.none_closed);
  one_at_most = rw h.none_closed (omega arith);
}

-- what the loop comes to
abbrev pub Leaves : Live → List ℕ → Option Server → Type 0
Leaves pool fds none = Unit
Leaves pool fds (some server) = Handed server × (server.pool ≡ pool) × (server.open_fds ≡ fds)

Serves-Leaves :
    {pool : Live} {fds : List ℕ} {server : Server}
    → Serves pool fds server
    → Leaves pool fds (some server)
Serves-Leaves h = (Serves-Handed h, h.same_pool, h.same_fds)

closed-Handed :
    (pool : Live) (fds : List ℕ) (fd : ℕ) (server : Server)
    → Serves pool fds server
    → Handed
        (record server { accepted = server.accepted ++ fd ∷ []; closed = server.closed ++ fd ∷ [] })
closed-Handed pool fds fd server h = record {
  handed_on =
      ap (λ l. l ++ fd ∷ []) h.all_submitted
      ∙ ap (λ c. server.submitted ++ (c ++ fd ∷ [])) (sym h.none_closed);
  one_at_most = rw h.none_closed (omega arith);
}

-- a round of the loop goes on with all submitted, or ends with the last one closed at most
and_on-Leaves :
    (next : Server → Option Server) (a : Accept) (g : Bool) (submit : Option Bool) (pool : Live)
    (fds : List ℕ) (server : Server)
    → Serves pool fds server
    → ((server' : Server) → Serves pool fds server' → Leaves pool fds (next server'))
    → Leaves pool fds (and_on next (accepted_step a g submit server))
and_on-Leaves next interrupted g o pool fds server h k = k server h
and_on-Leaves next bad_descriptor g o pool fds server h k = Serves-Leaves h
and_on-Leaves next failed true o pool fds server h k = Serves-Leaves h
and_on-Leaves next failed false o pool fds server h k = k server h
and_on-Leaves next (client fd) g none pool fds server h k = tt
and_on-Leaves next (client fd) g (some true) pool fds server h k = k _ (record {
  same_pool = h.same_pool;
  same_fds = h.same_fds;
  all_submitted = ap (λ l. l ++ fd ∷ []) h.all_submitted;
  none_closed = h.none_closed;
})
and_on-Leaves next (client fd) g (some false) pool fds server h k =
    (closed-Handed pool fds fd server h, h.same_pool, h.same_fds)

pub accept_loop-Leaves :
    (rounds : List Round) (g : Bool) (pool : Live) (fds : List ℕ) (server : Server)
    → Serves pool fds server
    → Leaves pool fds (accept_loop rounds g server)
unfolding accept_loop
accept_loop-Leaves [] g pool fds server h = tt
accept_loop-Leaves (r ∷ rounds) g pool fds server h =
    let before = handle_signal r.signal_before g in
    let during = handle_signal r.signal_during before in
    elim (Bool-cases before) [
      | inl stop ↦ rw stop (Serves-Leaves h)
      | inr go ↦ rw go (
          and_on-Leaves (accept_loop rounds (handle_signal r.signal_during false)) r.accept
            (handle_signal r.signal_during false) r.submit pool fds server h
            λ server' h'.
              accept_loop-Leaves rounds (handle_signal r.signal_during false) pool fds server' h')
    ]

-- nothing is held, and every descriptor has been dealt with
pub record Clean (status : ℕ) (server : Server) : Type 0 where
  pub no_db : server.db ≡ none
  pub no_pool : server.pool ≡ nothing
  pub no_open_fd : server.open_fds ≡ []
  pub handed : Handed server
  pub exit_status : (status ≡ 0) ⊎ ((status ≡ 1) × (server.accepted ≡ []))

abbrev CleanEnd : Option (ℕ × Server) → Type 0
CleanEnd none = Unit
CleanEnd (some (status, server)) = Clean status server

nothing_accepted : Handed not_started
nothing_accepted = record { handed_on = refl; one_at_most = omega arith }

-- the clean-up of a server whose pool runs
shutdown-Clean :
    (ends : ℕ → Bool) (status n : ℕ) (server : Server)
    → server.pool ≡ running_with n
    → server.open_fds ≡ []
    → Handed server
    → (status ≡ 0) ⊎ ((status ≡ 1) × (server.accepted ≡ []))
    → CleanEnd (exits status (pool_shutdown ends server))
unfolding pool_shutdown
shutdown-Clean ends status n server p l h e = elim (thread_pool_shutdown_lem ends n server.pool p) [
  | inl (j, stays, waits) ↦ rw waits tt
  | inr done ↦ rw done (record {
    no_db = refl;
    no_pool = refl;
    no_open_fd = l;
    handed = record { handed_on = h.handed_on; one_at_most = h.one_at_most };
    exit_status = e;
  })
]

close_fd-only : (fd : ℕ) (fds : List ℕ) → fds ≡ fd ∷ [] → close_fd fd fds ≡ []
unfolding close_fd
close_fd-only fd fds e = rw e (ground arith)

stopped-Clean :
    (ends : ℕ → Bool) (fd n : ℕ) (o : Option Server)
    → Leaves (running_with n) (fd ∷ []) o
    → CleanEnd (stopped ends fd o)
unfolding stopped
stopped-Clean ends fd n none h = tt
stopped-Clean ends fd n (some server) h =
    shutdown-Clean ends 0 n (close_listen_fd fd server) h.1 (close_fd-only fd server.open_fds h.2)
      (record { handed_on = h.0.handed_on; one_at_most = h.0.one_at_most }) (inl refl)

-- a listening socket is the only one that is open, and on a failure none is
abbrev pub Listens : List ℕ × Option ℕ → Type 0
Listens (fds, none) = fds ≡ []
Listens (fds, some fd) = fds ≡ fd ∷ []

pub create_listen_socket-Listens :
    (env : Environment) (port : ℕ) → Listens (create_listen_socket env port [])
unfolding create_listen_socket
create_listen_socket-Listens env port = go env.socket_fd
  where
    go : (o : Option ℕ) → Listens (socket_opened env port [] o)
    go none = unfold socket_opened in refl
    go (some fd) =
        let shut = close_fd-only fd (fd ∷ []) refl in
        unfold socket_opened in
        elim (Bool-cases env.setsockopt_ok) [
          | inr s ↦ rw s shut
          | inl s ↦ (elim (Bool-cases (env.bind_ok (port % 2 ^ 16))) [
            | inr b ↦ rw (s, b) shut
            | inl b ↦ (elim (Bool-cases env.listen_ok) [
              | inr l ↦ rw (s, b, l) shut
              | inl l ↦ rw (s, b, l) refl
            ])
          ])
        ]

pub Serves-listening :
    (n : ℕ) (fds : List ℕ) (fd : ℕ) (server : Server)
    → Serves (running_with n) [] server
    → fds ≡ fd ∷ []
    → Serves (running_with n) (fd ∷ []) (record server { open_fds = fds })
Serves-listening n fds fd server h l = record {
  same_pool = h.same_pool;
  same_fds = l;
  all_submitted = h.all_submitted;
  none_closed = h.none_closed;
}

pub not_started-Serves :
    (db : DbEngine) (live : Live) (n : ℕ)
    → live ≡ running_with n
    → Serves (running_with n) [] (record not_started { db = some db; pool = live })
not_started-Serves db live n e = record {
  same_pool = e;
  same_fds = refl;
  all_submitted = refl;
  none_closed = refl;
}

listening-Clean :
    (ends : ℕ → Bool) (n : ℕ) (rounds : List Round) (server : Server) (out : List ℕ × Option ℕ)
    → Serves (running_with n) [] server
    → server.accepted ≡ []
    → Listens out
    → CleanEnd (listening ends rounds server out)
unfolding listening
listening-Clean ends n rounds server (fds, none) h a l =
    shutdown-Clean ends 1 n (record server { open_fds = fds }) h.same_pool l
      (record {
        handed_on = (Serves-Handed h).handed_on;
        one_at_most = (Serves-Handed h).one_at_most;
      })
      (inr (refl, a))
listening-Clean ends n rounds server (fds, some fd) h a l = stopped-Clean ends fd n _ (
    accept_loop-Leaves rounds false (running_with n) (fd ∷ []) _
      (Serves-listening n fds fd server h l))

with_pool-Clean :
    (env : Environment) (config : ServerConfig) (rounds : List Round) (db : DbEngine)
    (out : Option (Live × Option ThreadPool))
    → InitSpec env.pool_calls config.thread_count request_queue_capacity false out
    → CleanEnd (with_pool env config rounds (record not_started { db = some db }) out)
unfolding with_pool
with_pool-Clean env config rounds db none h = tt
with_pool-Clean env config rounds db (some (live, none)) h = record {
  no_db = refl;
  no_pool = h.0;
  no_open_fd = refl;
  handed = record { handed_on = refl; one_at_most = omega arith };
  exit_status = inr (refl, refl);
}
with_pool-Clean env config rounds db (some (live, some pool)) h =
    listening-Clean env.pool_calls.ends config.thread_count rounds _
      (create_listen_socket env config.port []) (not_started-Serves db live config.thread_count h.1)
      refl (create_listen_socket-Listens env config.port)

server_run-CleanEnd :
    (env : Environment) (config : ServerConfig) (rounds : List Round)
    → length env.pool_calls.slots ≡ request_queue_capacity
    → CleanEnd (server_run env config rounds)
unfolding server_run with_db
server_run-CleanEnd env config rounds h =
    go (db_init config.data_path env.rwlock_ok env.fopen_ok env.db_calls env.file)
  where
    go : (o : Option (Parsed DbEngine)) → CleanEnd (with_db env config rounds o)
    go none = tt
    go (some (fail message)) = record {
      no_db = refl;
      no_pool = refl;
      no_open_fd = refl;
      handed = nothing_accepted;
      exit_status = inr (refl, refl);
    }
    go (some (ok db)) =
        with_pool-Clean env config rounds db _
          (thread_pool_init_lem env.pool_calls config.thread_count request_queue_capacity false h)

-- Whatever calls of the start fail, whatever `accept` gives and whenever signals come: when
-- `server_run` returns, the engine is destroyed, nothing of the pool is left, and every descriptor
-- that `socket` gave is closed. Every descriptor that was accepted was submitted to the pool, but
-- for one at most that was closed. The exit status is 0, or it is 1 and no connection was accepted.
pub server_run-Clean :
    (env : Environment) (config : ServerConfig) (rounds : List Round) {status : ℕ} {server : Server}
    → length env.pool_calls.slots ≡ request_queue_capacity
    → server_run env config rounds ≡ some (status, server)
    → Clean status server
server_run-Clean env config rounds h e = subst CleanEnd e (server_run-CleanEnd env config rounds h)

-- Every descriptor that `server_run` had accepted by its end, except for one at most that it
-- closed, was taken by a worker of its pool, and in the order of the acceptances: for a run of the
-- pool from its start to the end of `thread_pool_shutdown`, where the pool accepted what the loop
-- submitted.
pub clients_taken :
    (env : Environment) (config : ServerConfig) (rounds : List Round) {status : ℕ} {server : Server}
    {s t : System}
    → length env.pool_calls.slots ≡ request_queue_capacity
    → server_run env config rounds ≡ some (status, server)
    → Reach s t
    → IsStart s
    → t.main ≡ finished
    → t.accepted ≡ server.submitted
    → (server.accepted ≡ t.taken ++ server.closed) × (length server.closed ≤ 1)
clients_taken env config rounds {server = server} h e r b m a =
    let handed = (server_run-Clean env config rounds h e).handed in
    let taken = (drained_at_shutdown r b m).1 ∙ a in
    (handed.handed_on ∙ ap (λ l. l ++ server.closed) (sym taken), handed.one_at_most)
