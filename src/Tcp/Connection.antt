-- ===== src/Tcp/Connection.antt =====
-- rpc/tcp/connection.cpp: a connection on a dispatcher. What send, readv and errno say is given, and the
-- callbacks are reported as notices.
pub mod Flow
pub mod Drain
use yamq.Prelude.{
  ℕ, suc, ◌+◌, ◌-◌, ◌≡◌, Bool, true, false, not, ◌&&◌, Option, none, some, List, [], ◌∷◌, ◌++◌,
  length, take, drop, ltb, ◌==◌, if◌then◌else◌, ◌>>=◌, has,
}
use yamq.Selector.{ev_write, Selector}
use yamq.Evd.{Channel, channel, Dispatcher, enable_write, disable_write, enable_read}
use yamq.IoBuffer.{IoBuffer, io_buffer, k_initial_size, put, seek, peek, readable_bytes, retrieve}

pub data Status : Type 0 where
  connecting connected closing closed : Status

abbrev pub is_connected : Status → Bool
is_connected connected = true
is_connected _ = false

-- `wire` is what the kernel took to send.
pub record Connection : Type 0 where
  pub status : Status
  pub input_buf : IoBuffer
  pub output_buf : IoBuffer
  pub chan : Channel
  pub wire : List ℕ

unfoldable pub connection : ℕ → Connection
connection fd = record {
  status = connecting;
  input_buf = io_buffer k_initial_size;
  output_buf = io_buffer k_initial_size;
  chan = channel fd;
  wire = [];
}

-- What `send` returns: a number of bytes, or an error, which is EPIPE or ECONNRESET or another one.
pub data Sent : Type 0 where
  nwritten : ℕ → Sent
  broken failed : Sent

-- What the connection tells its owner.
pub data Notice : Type 0 where
  on_message on_close : Notice

-- `IsWritable`.
abbrev pub is_writable : Connection → Bool
is_writable c = has c.chan.events ev_write

-- The first part of `send`: what was written directly, and the connection; `none` is the abort.
unfoldable pub send_direct : Connection → List ℕ → Sent → Option (ℕ × Connection)
send_direct c text (nwritten n) = some (n, record c { wire = c.wire ++ take n text })
send_direct c text broken = none
send_direct c text failed = some (0, c)

unfoldable pub try_direct : Connection → List ℕ → Sent → Option (ℕ × Connection)
try_direct c text sent =
    if not (is_writable c) && readable_bytes c.output_buf == 0
    then send_direct c text sent
    else some (0, c)

-- `HandleRead`, with what `readv` delivers.
unfoldable pub handle_read : Connection → Option (List ℕ) → Option (List Notice × Connection)
handle_read c received = do
  (n, input) ← retrieve c.input_buf received
  let got = record c { input_buf = input }
  some (if ltb 0 n then (on_message ∷ [], got) else (on_close ∷ [], record got { status = closed }))

module _ {S : Type 0} (sel : Selector S) where
  -- The channel is the connection itself.
  abbrev pub with_chan :
      Connection → Option (Channel × Dispatcher sel) → Option (Connection × Dispatcher sel)
  with_chan c r = r >>= λ cd. some (record c { chan = cd.0 }, cd.1)

  unfoldable pub keep_watching :
      Dispatcher sel → ℕ → Connection → Option (Connection × Dispatcher sel)
  keep_watching d ptr c =
      let enabled = with_chan c (enable_write sel d ptr c.chan) in
      if is_writable c then some (c, d) else enabled

  -- The second part of `send`.
  unfoldable pub queue_rest :
      Dispatcher sel → ℕ → Connection → List ℕ → Option (Connection × Dispatcher sel)
  queue_rest d ptr c [] = some (c, d)
  queue_rest d ptr c (x ∷ rest) = do
    output ← put c.output_buf (x ∷ rest)
    keep_watching d ptr (record c { output_buf = output })

  -- The private `send`, in the dispatcher's thread.
  unfoldable pub send :
      Dispatcher sel → ℕ → Connection → List ℕ → Sent → Option (Connection × Dispatcher sel)
  send d ptr c text sent =
      let sending = try_direct c text sent >>= λ nc. queue_rest d ptr nc.1 (drop nc.0 text) in
      if is_connected c.status then sending else some (c, d)

  unfoldable pub stop_watching :
      Dispatcher sel → ℕ → Connection → Option (Connection × Dispatcher sel)
  stop_watching d ptr c =
      let disabled = with_chan c (disable_write sel d ptr c.chan) in
      if readable_bytes c.output_buf == 0 then disabled else some (c, d)

  -- `HandleWrite`. An error is logged, and `HandleError` does nothing.
  unfoldable pub handle_write :
      Dispatcher sel → ℕ → Connection → Sent → Option (Connection × Dispatcher sel)
  handle_write d ptr c (nwritten (suc n)) = do
    output ← seek c.output_buf (suc n)
    stop_watching d ptr (record c {
      output_buf = output;
      wire = c.wire ++ take (suc n) (peek c.output_buf (readable_bytes c.output_buf));
    })
  handle_write d ptr c sent = some (c, d)

  unfoldable pub establish : Dispatcher sel → ℕ → Connection → Option (Connection × Dispatcher sel)
  establish d ptr c = with_chan (record c { status = connected }) (enable_read sel d ptr c.chan)

-- `ForceClose`: -1 where it is not connected, and otherwise the close behind its callback.
unfoldable pub force_close : Connection → Bool × List Notice × Connection
force_close c =
    if is_connected c.status
    then (true, on_close ∷ [], record c { status = closed })
    else (false, [], c)
