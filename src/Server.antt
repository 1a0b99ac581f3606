-- ===== src/Server.antt =====
-- server.c: the connections of the server, without its sockets, which `select`, `connect` and
-- `accept` give it. The mutex of a connection makes a write to it one step.
pub mod Write
pub mod Read
pub mod Timer
pub mod Cycle
mod Tests
use fast.Prelude.{Bool, Bytes, Option, [], false, length, none, some, true, ℕ}

-- `connection_str`. A socket is none or a descriptor. `read_buffer` and `write_buffer` are their
-- first `read_length` and `write_length` bytes.
pub record Connection : Type 0 where
  pub host : Bytes
  pub port : ℕ
  pub socket : Option ℕ
  pub is_active : Bool
  pub is_waiting_for_restart : Bool
  pub is_connected : Bool
  pub is_finished : Bool
  pub read_buffer : Bytes
  pub write_buffer : Bytes
  pub is_binary : Bool
  pub binary_length : ℕ

abbrev pub is_socket : Option ℕ → Bool
is_socket none = false
is_socket (some s) = true

pub server_connection_create : Option ℕ → Bytes → ℕ → Connection
server_connection_create sock host port = record {
  host = host;
  port = port;
  socket = sock;
  is_active = false;
  is_waiting_for_restart = false;
  is_connected = false;
  is_finished = false;
  read_buffer = [];
  write_buffer = [];
  is_binary = false;
  binary_length = 0;
}

pub server_connection_cleanup : Connection → Connection
server_connection_cleanup c = record c {
  read_buffer = [];
  write_buffer = [];
  socket = none;
  is_binary = false;
  binary_length = 0;
  is_connected = false;
}

pub server_connection_wait_for_binary : Connection → ℕ → Connection
server_connection_wait_for_binary c length = record c { is_binary = true; binary_length = length }

pub server_connection_close : Connection → Connection
server_connection_close c = record c { is_finished = true }
