-- ===== src/Listener.antt =====
-- modbus/ModbusServer.cpp, mc/McServer.cpp, xgt/XgtServer.cpp: `start`, `stop`, `serverLoop` and the end of `handleClient`,
-- which are the same in the three servers but for one line. What the calls of the system answer (socket, setsockopt, bind,
-- listen, accept) is a parameter.
pub mod Closed
pub mod Reused
use v_plc_runtime.Shared.{
  ℕ, Bool, true, false, not, ◌||◌, ◌==◌, if◌then◌else◌, List, [], ◌∷◌, ◌++◌, Option, none, some,
}

-- The server's fields, where `none` stands for a descriptor of -1; `open_fds` are the descriptors that it holds open.
pub record Listener : Type 0 where
  pub server_fd : Option ℕ
  pub is_running : Bool
  pub client_fds : List ℕ
  pub open_fds : List ℕ

-- The constructor.
unfoldable pub new_listener : Listener
new_listener = record { server_fd = none; is_running = false; client_fds = []; open_fds = [] }

-- What the calls of `start` answer.
pub record Setup : Type 0 where
  pub socket : Option ℕ
  pub setsockopt : Bool
  pub bind : Bool
  pub listen : Bool

unfoldable pub remove_all : ℕ → List ℕ → List ℕ
remove_all fd [] = []
remove_all fd (x ∷ xs) = let rest = remove_all fd xs in if x == fd then rest else x ∷ rest

unfoldable pub remove_first : ℕ → List ℕ → List ℕ
remove_first fd [] = []
remove_first fd (x ∷ xs) = let rest = remove_first fd xs in if x == fd then xs else x ∷ rest

-- `close`
unfoldable pub close : ℕ → Listener → Listener
close fd s = record s { open_fds = remove_all fd s.open_fds }

-- The error paths of `start` behind the socket.
unfoldable pub give_up : ℕ → Listener → Listener × Bool
give_up fd s = (record (close fd s) { server_fd = none }, false)

-- `start`, with the socket
unfoldable pub set_up : Setup → ℕ → Listener → Listener × Bool
set_up calls fd s =
    let opened : Listener = record s { server_fd = some fd; open_fds = fd ∷ s.open_fds } in
    if not calls.setsockopt
    then give_up fd opened
    else if not calls.bind
    then give_up fd opened
    else if not calls.listen
    then give_up fd opened
    else (record opened { is_running = true }, true)

unfoldable pub open_socket : Setup → Option ℕ → Listener → Listener × Bool
open_socket calls none s = (record s { server_fd = none }, false)
open_socket calls (some fd) s = set_up calls fd s

-- `start`
unfoldable pub start : Setup → Listener → Listener × Bool
start calls s = if s.is_running then (s, true) else open_socket calls calls.socket s

unfoldable pub close_server : Option ℕ → Listener → Listener
close_server none s = s
close_server (some fd) s = close fd s

-- The loop over the clients in `stop`.
unfoldable pub close_all : List ℕ → Listener → Listener
close_all [] s = s
close_all (fd ∷ fds) s = close_all fds (close fd s)

-- `stop`
unfoldable pub stop : Listener → Listener
stop s =
    if s.is_running
    then record (close_all s.client_fds (close_server s.server_fd s)) {
      server_fd = none;
      is_running = false;
      client_fds = [];
    }
    else s

-- One round of `serverLoop`, by what `accept` answers.
unfoldable pub accept_one : Option ℕ → Listener → Listener
accept_one none s = s
accept_one (some fd) s = record s {
  client_fds = s.client_fds ++ (fd ∷ []);
  open_fds = fd ∷ s.open_fds;
}

-- How a connection is taken from the list: `std::remove` in ModbusServer.cpp, `std::find` in the other two.
pub data Erasure : Type 0 where
  every : Erasure
  first : Erasure

unfoldable pub erase : Erasure → ℕ → List ℕ → List ℕ
erase every fd fds = remove_all fd fds
erase first fd fds = remove_first fd fds

-- The second part of the end of `handleClient`, under the lock.
unfoldable pub untrack : Erasure → ℕ → Listener → Listener
untrack how fd s = record s { client_fds = erase how fd s.client_fds }

-- The end of `handleClient`.
unfoldable pub end_client : Erasure → ℕ → Listener → Listener
end_client how fd s = untrack how fd (close fd s)

-- What happens to a running server.
pub data Event : Type 0 where
  accepted : Option ℕ → Event
  ended : ℕ → Event

unfoldable pub step : Erasure → Event → Listener → Listener
step how (accepted o) s = accept_one o s
step how (ended fd) s = end_client how fd s

unfoldable pub run : Erasure → List Event → Listener → Listener
run how [] s = s
run how (e ∷ es) s = run how es (step how e s)
