-- ===== src/Tcp/Tests.antt =====
-- Runs of the TCP layer at fixed inputs, and the theorems at inputs that meet their hypotheses.
use yamq.Prelude.{
  pos, ℕ, ◌^◌, ◌≡◌, refl, true, false, some, [], ◌∷◌, ◌++◌, arith, Map, find, put_key, IsUnique,
}
use yamq.Selector.Poll.{poll_selector}
use yamq.Selector.Poll.Watch.{watched, entry}
use yamq.Selector.Poll.Contract.{poll_Selector}
use yamq.Evd.{Channel, Dispatcher}
use yamq.Evd.Table.{Agrees, Attached, update-new}
use yamq.IoBuffer.{IoBuffer, io_buffer, k_initial_size}
use yamq.IoBuffer.Queue.{io_buffer-Holds, io_buffer-writer_index}
use yamq.Tcp.Connection.{Connection, connected, nwritten, send, handle_write}
use yamq.Tcp.Connection.Flow.{Left, send-Left}
use yamq.Tcp.Connection.Drain.{handle_write-Left}
use yamq.Tcp.Ids.{next_loop, FirstFree, next_loop-FirstFree}
use yamq.Tcp.Server.{server, new_connect, Workers}
use yamq.Tcp.Server.Connections.{opened, new_connect-opened}

-- Ids 3 and 4 are taken.
abbrev two : Map ℕ
two = (3, 0) ∷ (4, 0) ∷ []

two-IsUnique : IsUnique two
unfolding find IsUnique
two-IsUnique = (refl, (refl, tt))

next_loop-FirstFree_example :
    (k : ℕ) × (next_loop 0 (2 ^ 63) 3 two (pos 3) ≡ some k) × FirstFree 0 (2 ^ 63) two 3 k
next_loop-FirstFree_example =
    next_loop-FirstFree 0 (2 ^ 63) 3 two (pos 3) two-IsUnique (omega arith) (omega arith)

next_is_5 : next_loop 0 (2 ^ 63) 3 two (pos 3) ≡ some 5
unfolding next_loop find
next_is_5 = refl

abbrev three_workers : Workers
three_workers = record { evds = 10 ∷ 11 ∷ 12 ∷ []; evd = 9; next_evd_id = 1 }

abbrev idle : Dispatcher poll_Selector
idle = record { selector = poll_selector; channels = [] }

idle-Agrees : Agrees poll_Selector idle
unfolding poll_Selector watched entry find IsUnique
idle-Agrees = record {
  valid = record {
    unique = tt;
    sized = refl;
    located = λ fd idx e. absurd (cc);
    indexed = λ idx p e. absurd (cc);
  };
  unwatched = λ fd h. refl;
  watched = λ fd h. absurd (h refl);
}

new_connect-opened_example :
    (id : ℕ) × (d' : Dispatcher poll_Selector) × FirstFree 0 (2 ^ 63) server.connections 0 id
    × (new_connect poll_Selector server idle 5
        ≡ some
            (record { connections = put_key id (opened poll_Selector 5) []; next_id = pos id }, d'))
    × Agrees poll_Selector d'
    × Attached poll_Selector d' id (opened poll_Selector 5).chan
unfolding find IsUnique
new_connect-opened_example =
    new_connect-opened poll_Selector server idle 5 idle-Agrees refl tt (omega arith)

-- A dispatcher with descriptor 5, watched for reading and writing or for reading, as channel 0.
abbrev chan_5 : ℕ → Channel
chan_5 events = record { fd = 5; events = events; attached = true }

watching :
    (events : ℕ)
    → (d' : Dispatcher poll_Selector) × Agrees poll_Selector d'
      × Attached poll_Selector d' 0 (chan_5 events)
unfolding find
watching events =
    let (d', e, a, at', o) =
      update-new poll_Selector idle 0 (record { fd = 5; events = events; attached = false })
        idle-Agrees refl refl in
    (d', a, at')

con : ℕ → IoBuffer → Connection
con events output = record {
  status = connected;
  input_buf = output;
  output_buf = output;
  chan = chan_5 events;
  wire = [];
}

-- Nothing waits, and the kernel takes two of three bytes.
send-Left_example : Left poll_Selector 0 (([] ++ []) ++ (1 ∷ 2 ∷ 3 ∷ [])) (
    send poll_Selector
      (watching 1).0
      0
      (con 1 (io_buffer k_initial_size))
      (1 ∷ 2 ∷ 3 ∷ [])
      (nwritten 2))
unfolding con
send-Left_example =
    send-Left poll_Selector 0 (watching 1).0 (con 1 (io_buffer k_initial_size)) [] (1 ∷ 2 ∷ 3 ∷ [])
      (nwritten 2) refl
      (record {
        holds = io_buffer-Holds k_initial_size (omega arith);
        agrees = (watching 1).1;
        attached = (watching 1).2;
        watching = refl;
      })
      (omega arith) (omega (arith, io_buffer-writer_index k_initial_size))

-- Two bytes wait, and the kernel takes one.
abbrev two_bytes : IoBuffer
two_bytes = record {
  buf = 0 ∷ 0 ∷ 0 ∷ 0 ∷ 0 ∷ 0 ∷ 0 ∷ 0 ∷ 1 ∷ 2 ∷ [];
  reader_index = 8;
  writer_index = 10;
}

handle_write-Left_example :
    Left poll_Selector 0
      ([] ++ (1 ∷ 2 ∷ []))
      (handle_write poll_Selector (watching 3).0 0 (con 3 two_bytes) (nwritten 1))
unfolding con
handle_write-Left_example =
    handle_write-Left poll_Selector 0 (watching 3).0 (con 3 two_bytes) 1 (2 ∷ []) (nwritten 1)
      (record {
        holds = record { valid = omega arith; bytes = refl };
        agrees = (watching 3).1;
        attached = (watching 3).2;
        watching = refl;
      })
      (omega arith)
