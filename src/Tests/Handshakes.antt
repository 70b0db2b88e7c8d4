-- ===== src/Tests/Handshakes.antt =====
-- The theorem on the host, at a node with no peers.
use likelib_utonhack.Prelude.{◌≡◌, [], nat_eq, bytes_equality}
use likelib_utonhack.Outcome.{ok}
use likelib_utonhack.Pool.{empty_pool}
use likelib_utonhack.Endpoint.{Endpoint}
use likelib_utonhack.Host.{Host, check_out_peer}
use likelib_utonhack.Host.Connecting.{Ends, Sticks, check_out_peer-Ends}
use likelib_utonhack.Tests.Messages.{inet}
use likelib_utonhack.Tests.World.{database, alice, bob}

abbrev host : Host database
host = record {
  this_node_address = alice;
  listen_ip = record { address = 1; port = 20203 };
  ratings = [];
  non_handshaked_peers = [];
  handshaked_peers = empty_pool alice;
  connector_in_process = [];
  connecting = [];
}

abbrev elsewhere : Endpoint
elsewhere = record { address = 2; port = 20203 }

check_out_peer-Ends_example :
    Ends database inet elsewhere bob host (check_out_peer database inet elsewhere bob host).1
    × (Sticks database inet elsewhere bob host (check_out_peer database inet elsewhere bob host).1
        → (db : database.Store)
        → check_out_peer database inet elsewhere bob
            (record ((check_out_peer database inet elsewhere bob host).1) { ratings = db })
          ≡ (ok tt, record ((check_out_peer database inet elsewhere bob host).1) { ratings = db }))
check_out_peer-Ends_example = check_out_peer-Ends database inet elsewhere bob host
