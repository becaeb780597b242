-- ===== src/Tcp/Connection/Drain.antt =====
-- HandleWrite of rpc/tcp/connection.cpp moves bytes from the output buffer to the wire.
use yamq.Prelude.{
  ℕ, zero, suc, ◌≡◌, refl, sym, ap, ◌∙◌, true, List, [], ◌∷◌, ◌++◌, append_assoc, arith, length,
  take, drop, take-append-drop, ◌==◌, ==_false,
}
use yamq.Selector.{Selector}
use yamq.Evd.{Dispatcher, disable_write, without_write}
use yamq.Evd.Table.{Agrees, Attached}
use yamq.IoBuffer.{peek, readable_bytes}
use yamq.IoBuffer.Queue.{Holds, length-Holds, seek-Holds}
use yamq.Tcp.Connection.{
  Connection, Sent, nwritten, broken, failed, is_writable, stop_watching, handle_write,
}
use yamq.Tcp.Connection.Flow.{has-disabled, Flows, rewatched, Left, IsSent}

module _ {S : Type 0} (sel : Selector S) (ptr : ℕ) where
  stop_watching-Left :
      (d : Dispatcher sel) (c : Connection) (q : List ℕ)
      → Holds c.output_buf q
      → is_writable c ≡ true
      → Agrees sel d
      → Attached sel d ptr c.chan
      → Left sel ptr (c.wire ++ q) (stop_watching sel d ptr c)
  unfolding stop_watching disable_write
  stop_watching-Left d c [] h on a at =
      let events = without_write c.chan.events in
      let (d', e, a', at') = rewatched sel ptr d c.chan events a at in
      record {
        conn = record c { chan = record c.chan { events = events } };
        disp = d';
        queue = [];
        result = rw (ap (λ n. n == 0) (sym (length-Holds h)), e);
        flows = record {
          holds = h;
          agrees = a';
          attached = at';
          watching = has-disabled c.chan.events;
        };
        same = refl;
      }
  stop_watching-Left d c (x ∷ q) h on a at = record {
    conn = c;
    disp = d;
    queue = x ∷ q;
    result =
        rw (ap (λ n. n == 0) (sym (length-Holds h)), ==_false (suc (length q)) 0 (omega arith));
    flows = record { holds = h; agrees = a; attached = at; watching = on };
    same = refl;
  }

  -- On a connection with something in the output buffer, which is watched for writing just while it
  -- holds something, in a dispatcher that agrees with its selector, and where send takes no more
  -- than it was given and reports no broken connection, HandleWrite succeeds and keeps all of this,
  -- and the wire followed by the buffer is what it was.
  pub handle_write-Left :
      (d : Dispatcher sel) (c : Connection) (x : ℕ) (q : List ℕ) (sent : Sent)
      → Flows sel ptr d c (x ∷ q)
      → IsSent (x ∷ q) sent
      → Left sel ptr (c.wire ++ (x ∷ q)) (handle_write sel d ptr c sent)
  unfolding handle_write
  handle_write-Left d c x q (nwritten zero) f k = record {
    conn = c;
    disp = d;
    queue = x ∷ q;
    result = refl;
    flows = f;
    same = refl;
  }
  handle_write-Left d c x q (nwritten (suc n)) f k =
      let (b', e, h, back) = seek-Holds (suc n) f.holds k in
      let l =
        stop_watching-Left d
          (record c {
            output_buf = b';
            wire = c.wire ++ take (suc n) (peek c.output_buf (readable_bytes c.output_buf));
          })
          (drop (suc n) (x ∷ q)) h f.watching f.agrees f.attached in
      record {
        conn = l.conn;
        disp = l.disp;
        queue = l.queue;
        result = rw e l.result;
        flows = l.flows;
        same =
            l.same
            ∙ ap (λ t. (c.wire ++ take (suc n) t) ++ drop (suc n) (x ∷ q)) f.holds.bytes
            ∙ append_assoc c.wire (take (suc n) (x ∷ q)) (drop (suc n) (x ∷ q))
            ∙ ap (λ t. c.wire ++ t) (take-append-drop (suc n) (x ∷ q));
      }
  handle_write-Left d c x q failed f k = record {
    conn = c;
    disp = d;
    queue = x ∷ q;
    result = refl;
    flows = f;
    same = refl;
  }
  handle_write-Left d c x q broken f k = absurd k
