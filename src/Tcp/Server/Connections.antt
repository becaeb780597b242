-- ===== src/Tcp/Server/Connections.antt =====
-- A connection that a server opens is stored under a free id and registered; closing it undoes both.
use yamq.Prelude.{
  pos, ℕ, suc, ◌+◌, ◌^◌, ◌<◌, ◌≡◌, refl, ◌∙◌, true, none, some, arith, length, or_if, find, put_key,
  IsUnique,
}
use yamq.Selector.{ev_read, Selector}
use yamq.Evd.{channel, Dispatcher, set_events, enable_read}
use yamq.Evd.Table.{Agrees, Attached, Others, update-new, update-attached}
use yamq.Tcp.Connection.{Connection, connection, connected, establish}
use yamq.Tcp.Ids.{set_back, FirstFree, next_loop-FirstFree}
use yamq.Tcp.Server.{Server, next_id_of, open_connect, new_connect}

module _ {S : Type 0} (sel : Selector S) where
  -- The connection as `newConnect` leaves it.
  abbrev pub opened : ℕ → Connection
  opened sockfd = record (connection sockfd) {
    status = connected;
    chan = record { fd = sockfd; events = or_if ev_read true ev_read; attached = true };
  }

  open_connect-opened :
      (d : Dispatcher sel) (id sockfd : ℕ)
      → Agrees sel d
      → find sockfd d.channels ≡ none
      → (d' : Dispatcher sel) × (open_connect sel d id sockfd ≡ some (opened sockfd, d'))
        × Agrees sel d'
        × Attached sel d' id (opened sockfd).chan
        × Others sel d d' sockfd
  unfolding open_connect establish set_events enable_read connection
  open_connect-opened d id sockfd a new =
      let (d1, e1, a1, at1, o1) =
        update-new sel d id (record (channel sockfd) { events = ev_read }) a refl new in
      let (d2, e2, a2, at2, o2) =
        update-attached sel d1 id (opened sockfd).chan a1 refl at1.entry in
      (
        d2,
        rw (e1, e2),
        a2,
        at2,
        record {
          entries = λ i ne. o2.entries i ne ∙ o1.entries i ne;
          asked = λ i ne. o2.asked i ne ∙ o1.asked i ne;
        },
      )

  -- In a dispatcher that agrees with its selector, for a descriptor that it does not know, distinct
  -- ids of the connections and the next id not near its end, newConnect succeeds, stores the
  -- connection, connected, under the first free id, and registers it under that id for reading.
  pub new_connect-opened :
      (s : Server) (d : Dispatcher sel) (sockfd : ℕ)
      → Agrees sel d
      → find sockfd d.channels ≡ none
      → IsUnique s.connections
      → set_back 0 s.next_id + length s.connections < 2 ^ 63
      → (id : ℕ) × (d' : Dispatcher sel) × FirstFree 0
          (2 ^ 63)
          s.connections
          (set_back 0 s.next_id)
          id
        × (new_connect sel s d sockfd
            ≡ some (
              record { connections = put_key id (opened sockfd) s.connections; next_id = pos id },
              d',
            ))
        × Agrees sel d'
        × Attached sel d' id (opened sockfd).chan
  unfolding new_connect next_id_of
  new_connect-opened s d sockfd a new u b =
      let (id, e, f) =
        next_loop-FirstFree 0 (2 ^ 63) (suc (length s.connections)) s.connections s.next_id u
          (omega arith) b in
      let (d', e', a', at, o) = open_connect-opened d id sockfd a new in
      (id, d', f, rw (e, e'), a', at)
