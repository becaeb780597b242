-- ===== src/Tcp/Server.antt =====
-- rpc/tcp/server.cpp and server_multi.cpp: the connections of a server, and the choice of a dispatcher.
pub mod Connections
pub mod RoundRobin
use yamq.Prelude.{
  ℤ, pos, ℕ, suc, ◌+◌, ◌^◌, ◌≡◌, Bool, true, false, Option, none, some, List, [], ◌∷◌, length,
  get_elem?, leb, if◌then◌else◌, ◌>>=◌, Map, find, put_key, erase,
}
use yamq.Selector.{ev_none, ev_read, Selector}
use yamq.Evd.{Channel, Dispatcher, set_events, remove_channel}
use yamq.Tcp.Connection.{Connection, connection, establish}
use yamq.Tcp.Ids.{next_loop}

-- A connection is known to its dispatcher by its id.
pub record Server : Type 0 where
  pub connections : Map Connection
  pub next_id : ℤ

-- `multi::Server::nextId`, which starts at 1.
unfoldable pub multi_next_id : Server → Option ℕ
multi_next_id s = next_loop 1 (2 ^ 63) (suc (length s.connections)) s.connections s.next_id

unfoldable pub next_id_of : Server → Option ℕ
next_id_of s = next_loop 0 (2 ^ 63) (suc (length s.connections)) s.connections s.next_id

abbrev pub server : Server
server = record { connections = []; next_id = pos 0 }

module _ {S : Type 0} (sel : Selector S) where
  unfoldable pub open_connect : Dispatcher sel → ℕ → ℕ → Option (Connection × Dispatcher sel)
  open_connect d id sockfd = do
    (chan, d1) ← set_events sel d id (connection sockfd).chan ev_read
    establish sel d1 id (record (connection sockfd) { chan = chan })

  -- The application's callback is not called in the model.
  unfoldable pub new_connect : Server → Dispatcher sel → ℕ → Option (Server × Dispatcher sel)
  new_connect s d sockfd = do
    id ← next_id_of s
    (con, d') ← open_connect d id sockfd
    some (record { connections = put_key id con s.connections; next_id = pos id }, d')

  unfoldable pub remove_connect :
      Server → Dispatcher sel → ℕ → Channel → Option (Server × Dispatcher sel)
  remove_connect s d id chan = do
    d' ← remove_channel sel d chan
    some (record s { connections = erase id s.connections }, d')

  unfoldable pub close_connect :
      Server → Dispatcher sel → ℕ → Connection → Option (Server × Dispatcher sel)
  close_connect s d id con = do
    (chan, d1) ← set_events sel d id con.chan ev_none
    remove_connect s d1 id chan

-- `nextEvd`: the dispatcher of the server itself where there are no workers. `none` outside the vector.
pub record Workers : Type 0 where
  pub evds : List ℕ
  pub evd : ℕ
  pub next_evd_id : ℕ

abbrev pub wrap : ℕ → ℕ → ℕ
wrap next size = if leb size next then 0 else next

unfoldable pub next_evd : Workers → List ℕ → Option (ℕ × Workers)
next_evd w [] = some (w.evd, w)
next_evd w (e ∷ evds) = do
  evd ← get_elem? (e ∷ evds) w.next_evd_id
  some (evd, record w { next_evd_id = wrap (w.next_evd_id + 1) (suc (length evds)) })
