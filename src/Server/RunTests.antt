-- ===== src/Server/RunTests.antt =====
-- A run of the server from its start to its end, and the theorems there.
use tryo.Prelude.{
  ◌≤◌, ◌≡◌, refl, true, false, none, some, List, ℕ, zero, suc, [], ◌∷◌, ◌++◌, codes, length,
}
use tryo.Main.{ServerConfig}
use tryo.Bptree.{bptree_init}
use tryo.Db.Engine.{Calls}
use tryo.Db.Load.{load_loop}
use tryo.ThreadPool.Init.{nothing, thread_pool_init}
use tryo.ThreadPool.Tests.{start-IsStart, joined}
use tryo.Server.Run.{Environment, Server, Round, client, interrupted, server_run}
use tryo.Server.Shutdown.{Clean, server_run-Clean, clients_taken}

abbrev fine : Calls
fine = record {
  lock_ok = true;
  realloc_ok = λ n. true;
  fopen_ok = true;
  write_ok = true;
  close_ok = true;
  torn = [];
  calloc_ok = λ n. true;
  malloc = λ n. true;
}

abbrev zeros : ℕ → List ℕ
zeros zero = []
zeros (suc n) = 0 ∷ zeros n

abbrev environment : Environment
environment = record {
  rwlock_ok = true;
  fopen_ok = true;
  db_calls = λ n. fine;
  file = [];
  pool_calls = record {
    fds_ok = true;
    threads_ok = true;
    mutex_ok = true;
    not_empty_ok = true;
    not_full_ok = true;
    create_ok = λ i. true;
    ends = λ i. true;
    slots = zeros 128;
  };
  socket_fd = some 3;
  setsockopt_ok = true;
  bind_ok = λ port. true;
  listen_ok = true;
}

abbrev config : ServerConfig
config = record { port = 8080; thread_count = 1; data_path = codes "data/users.csv" }

-- a client, and then a signal while `accept` waits
abbrev served : Round
served = record {
  signal_before = false;
  accept = client 7;
  signal_during = false;
  submit = some true;
}

abbrev signal : Round
signal = record {
  signal_before = false;
  accept = interrupted;
  signal_during = true;
  submit = some true;
}

abbrev ended : Server
ended = record {
  db = none;
  pool = nothing;
  open_fds = [];
  accepted = 7 ∷ [];
  submitted = 7 ∷ [];
  closed = [];
}

runs : server_run environment config (served ∷ signal ∷ signal ∷ []) ≡ some (0, ended)
unfolding server_run load_loop thread_pool_init bptree_init
runs = refl

server_run-Clean_example : Clean 0 ended
server_run-Clean_example =
    server_run-Clean environment config (served ∷ signal ∷ signal ∷ []) refl runs

-- `bind` fails, and the descriptor is closed
abbrev no_bind : Environment
no_bind = record environment { bind_ok = λ port. false }

unbound : server_run no_bind config [] ≡ some (1, record ended { accepted = []; submitted = [] })
unfolding server_run load_loop thread_pool_init bptree_init
unbound = refl

clients_taken_example : (◌≡◌ {A = List ℕ} (7 ∷ []) ((7 ∷ []) ++ [])) × (length {A = ℕ} [] ≤ 1)
clients_taken_example =
    clients_taken environment config (served ∷ signal ∷ signal ∷ []) refl runs joined start-IsStart
      refl refl
