-- ===== src/Lifecycle.antt =====
-- src/main.cpp, and how GameManager.cpp and src/Network/TcpServer.cpp start and stop their threads.
-- What the operating system and the libraries answer is an argument. Joining a thread takes it away;
-- why the threads end is the matter of Jobs/Stopping for the workers, while the game loop ends with
-- its flag and those of the server with the context.
use cpp_mmo.Base.{leb, ℕ, zero, suc, Bool, true, false, Option, none, some, [], ◌∷◌, if◌then◌else◌}
use cpp_mmo.Base.Dict.{Dict, or_default}
use cpp_mmo.Base.Int.{ℤ, pos, negsuc}
use cpp_mmo.Base.Text.{Text}
use cpp_mmo.Chat.{to_string_ℤ}
use cpp_mmo.Redis.{
  RedisChatService, new_service, Answer, Result, returns, throws, terminates, initialize,
}
use cpp_mmo.Jobs.{Workers, start, stop, register_handler, c_login, c_chat}

-- `m_running`, `m_gameLoopThread`, and whether the logic queue takes commands.
pub record GameThread : Type 0 where
  pub running : Bool
  pub has_thread : Bool
  pub takes_commands : Bool

unfoldable pub start_game : GameThread → GameThread
start_game g = if g.running then g else record g { running = true; has_thread = true }

unfoldable pub stop_game : GameThread → GameThread
stop_game g =
    if g.running then record { running = false; has_thread = false; takes_commands = false } else g

-- A count of threads that is an `int`, as the bound of a loop from 0.
abbrev pub threads_of : ℤ → ℕ
threads_of (pos n) = n
threads_of (negsuc n) = 0

-- `TcpServer::Start`: the answer, and the threads. `listens` says whether `listen` throws nothing; the
-- constructor of a thread throws after as many as `limit`, and those before it go on.
unfoldable pub start_server : ℤ → Bool → ℕ → Bool × ℕ
start_server (negsuc n) listens limit = (false, 0)
start_server (pos zero) listens limit = (false, 0)
start_server (pos (suc n)) listens limit =
    if listens then (if leb (suc n) limit then (true, suc n) else (false, limit)) else (false, 0)

-- `TcpServer::Stop`
unfoldable pub stop_server : ℕ → ℕ
stop_server threads = 0

-- The two handlers that `main` registers.
pub data Handler : Type 0 where
  login chat : Handler

pub record Parts : Type 0 where
  -- What the authentication service was given: `authHost` and `authPort`.
  pub auth : Text × Text
  pub jobs : Workers
  pub game : GameThread
  pub handlers : Dict Handler
  pub server_threads : ℕ
  -- Whether the chat manager, which outlives `main`, holds the server.
  pub server_is_kept : Bool
  pub redis : RedisChatService

pub data CommandLine : Type 0 where
  refused : CommandLine
  asks_help : CommandLine
  -- `--io-threads` and `--logic-threads`.
  options : ℤ → ℤ → CommandLine

-- The file of `--server-config`: absent, no JSON, or with its fields; `none` where the access throws.
pub data ServerFile : Type 0 where
  absent : ServerFile
  broken : ServerFile
  fields : Option Text → Option ℤ → ServerFile

-- How `io_context.run()` goes: it returns in each thread, or an exception of a handler leaves it in the
-- thread of `main`, or in another, which ends the process.
pub data Run : Type 0 where
  finishes throws_here throws_on_thread : Run

-- What `main` meets. The threads of the workers and of the game loop can be started.
pub record Surroundings : Type 0 where
  pub command_line : CommandLine
  pub server_file : ServerFile
  -- Whether the constructors of the game manager and of the server, and `listen`, throw nothing.
  pub game_constructed : Bool
  pub server_constructed : Bool
  pub listens : Bool
  -- How many I/O threads can be started.
  pub thread_limit : ℕ
  pub run : Run
  pub redis : Answer
  pub subscribes : Bool

-- `authHost` and `authPort` after the file is read, from their initial values.
unfoldable pub read_server_file : ServerFile → Text × Text → Text × Text
unfolding to_string_ℤ
read_server_file absent auth = auth
read_server_file broken auth = auth
read_server_file (fields none port) auth = auth
read_server_file (fields (some host) none) (auth_host, auth_port) = (host, auth_port)
read_server_file (fields (some host) (some port)) auth = (host, to_string_ℤ port)

abbrev pub default_auth : Text × Text
default_auth = (
  b'l' ∷ b'o' ∷ b'c' ∷ b'a' ∷ b'l' ∷ b'h' ∷ b'o' ∷ b's' ∷ b't' ∷ [],
  b'5' ∷ b'2' ∷ b'7' ∷ b'8' ∷ [],
)

unfoldable pub idle : Text × Text → Parts
unfolding new_service
idle auth = record {
  auth = auth;
  jobs = record { running = false; worker_threads = 0 };
  game = record { running = false; has_thread = false; takes_commands = true };
  handlers = [];
  server_threads = 0;
  server_is_kept = false;
  redis = new_service;
}

-- `gameManager->Stop(); jobProcessor->Stop();`, as the destructors call them too.
unfoldable pub stop_parts : Parts → Parts
unfolding stop_game stop
stop_parts p = record p { game = stop_game p.game; jobs = (stop p.jobs).0 }

-- The end of the scope: the server is destroyed if nothing else holds it, then the other parts are.
unfoldable pub leave : Parts → Parts
unfolding stop_parts stop_server
leave p =
    stop_parts
      (if p.server_is_kept then p else record p { server_threads = stop_server p.server_threads })

-- `jobProcessor->Start(logicThreadCount); gameManager->Start();`
unfoldable pub start_parts : Text × Text → ℤ → Parts
unfolding start start_game idle
start_parts auth logic =
    let p = idle auth in
    record p { jobs = start p.jobs (threads_of logic); game = start_game p.game }

unfoldable register_handlers : Dict Handler → Dict Handler
unfolding register_handler
register_handlers handlers =
    let handlers' = or_default handlers (register_handler handlers c_login (some login)) in
    or_default handlers' (register_handler handlers' c_chat (some chat))

-- From `server->Start(config)` to the end of the block, with its exit code; `none` where the process is
-- ended by another thread.
unfoldable pub serve : Parts → Bool × ℕ → Run → Option (Parts × ℕ)
unfolding leave
serve p (false, threads) run = some (leave (stop_parts (record p { server_threads = threads })), 1)
serve p (true, threads) finishes =
    some (leave (stop_parts (record p { server_threads = threads })), 0)
serve p (true, threads) throws_here = some (leave (record p { server_threads = threads }), 1)
serve p (true, threads) throws_on_thread = none

-- The parts at the end of `main`, and its exit code. The parts while the server runs are `running`.
unfoldable pub running : Text × Text → ℤ → Parts
unfolding start_parts register_handlers
running auth logic =
    let p = start_parts auth logic in record p { handlers = register_handlers p.handlers }

-- From `ChatManager::Initialize`, with what `Initialize` ends with, to the end of the block.
unfoldable pub serve_chat : Parts → Bool × ℕ → Run → Result → Option (Parts × ℕ)
unfolding serve leave
serve_chat p started run (returns r) = serve (record p { redis = r }) started run
serve_chat p started run (throws r) = some (leave (record p { redis = r }), 1)
serve_chat p started run terminates = none

unfoldable pub run_options : Surroundings → ℤ → ℤ → Option (Parts × ℕ)
unfolding running idle serve_chat start_server read_server_file initialize
run_options s io logic =
    let auth = read_server_file s.server_file default_auth in
    let p = running auth logic in
    if s.game_constructed
    then (if s.server_constructed
        then serve_chat (record p { server_is_kept = true })
            (start_server io s.listens s.thread_limit) s.run
            (initialize s.redis s.subscribes p.redis)
        else some (leave p, 1))
    else some (leave (idle auth), 1)

-- `none` where the program terminates.
unfoldable pub main : Surroundings → Option (Parts × ℕ)
unfolding run_options idle
main s = elim s.command_line [
  | refused ↦ some (idle default_auth, 1)
  | asks_help ↦ some (idle default_auth, 0)
  | options io logic ↦ run_options s io logic
]
