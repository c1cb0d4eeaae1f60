-- ===== src/Connection/Runs.antt =====
-- A connection to a gateway.
use iotex_arduino.Base.{arith, replicate, some, codes}
use iotex_arduino.Host.{Host}
use iotex_arduino.Connection.{Connection, connection_new}
use iotex_arduino.Connection.SetHost.{Connects, connection_new-Connects}

abbrev noise : Host
noise = record { hostname = replicate 129 0xcc; base_url = replicate 129 0xcc; port = 0xffffffff }

abbrev fresh : Connection
fresh = record { api = record { host = noise }; host = noise }

connection_new-Connects_example :
    Connects
      (codes "io")
      80
      fresh
      (some (codes "v1"))
      (connection_new (codes "io") 80 (some (codes "v1")) fresh)
connection_new-Connects_example =
    connection_new-Connects (codes "io") 80 (some (codes "v1")) fresh
      (omega arith, (omega arith, tt)) (omega arith, (omega arith, tt)) (omega arith)
