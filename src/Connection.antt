-- ===== src/Connection.antt =====
-- src/connection/connection.h with the host of src/api/abstract.h: a connection keeps the address of
-- the server in its own host and in that of its API. A `none` is the read of a null base URL.
pub mod SetHost
mod Runs
use iotex_arduino.Base.{ℕ, List, Option, none, some, ◌>>=◌}
use iotex_arduino.Host.{Host, host_set}

pub record Api : Type 0 where
  pub host : Host

pub record Connection : Type 0 where
  pub api : Api
  pub host : Host

-- Abstract::setHost drops the result of Host::set, and so does the constructor.
unfoldable pub set_host : List ℕ → ℕ → Option (List ℕ) → Api → Option Api
set_host new_host new_port base_url api = do
  r ← host_set new_host new_port base_url api.host
  some (record { host = r.1 })

-- The constructor on what the members hold before.
unfoldable pub connection_new : List ℕ → ℕ → Option (List ℕ) → Connection → Option Connection
connection_new new_ip new_port base_url memory = do
  r ← host_set new_ip new_port base_url memory.host
  api ← set_host new_ip new_port base_url memory.api
  some (record { api = api; host = r.1 })
