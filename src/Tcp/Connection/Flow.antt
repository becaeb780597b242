-- ===== src/Tcp/Connection/Flow.antt =====
-- What is sent goes to the wire in its order: directly, or through the output buffer, which is watched
-- for writing just while it holds something.
use yamq.Prelude.{
  ℕ, ◌+◌, ◌≤◌, ◌≡◌, refl, sym, subst, ap, ◌∙◌, inl, inr, Bool, true, false, Option, some, List, [],
  ◌∷◌, ◌++◌, append_assoc, append-nil, arith, length, length-drop, take, drop, take-append-drop,
  ◌==◌, Bool-cases, if-true, if-false, ◌>>=◌, has, or_if, int_max,
}
use yamq.Selector.{ev_write, Selector}
use yamq.Evd.{Channel, Dispatcher, enable_write, set_events, without_write}
use yamq.Evd.Table.{Agrees, Attached, update-attached}
use yamq.IoBuffer.Queue.{Holds, length-Holds, put-Holds}
use yamq.Tcp.Connection.{
  Connection, connected, is_connected, Sent, nwritten, broken, failed, is_writable, send_direct,
  try_direct, keep_watching, queue_rest, send,
}

-- `e & EV_WRITE` after `|` and `& ~`.
has-enabled : (e : ℕ) → has (or_if e true ev_write) ev_write ≡ true
has-enabled e = ground arith

pub has-disabled : (e : ℕ) → has (without_write e) ev_write ≡ false
has-disabled e = ground arith

abbrev pub some_left : List ℕ → Bool
some_left [] = false
some_left (x ∷ q) = true

-- What `send` may report: no more than was asked, and no broken connection, which aborts.
abbrev pub IsSent : List ℕ → Sent → Type 0
IsSent text (nwritten n) = n ≤ length text
IsSent text broken = ⊥
IsSent text failed = Unit {0}

module _ {S : Type 0} (sel : Selector S) (ptr : ℕ) where
  -- The output buffer holds the bytes `q`.
  pub record Flows (d : Dispatcher sel) (c : Connection) (q : List ℕ) : Type 0 where
    pub holds : Holds c.output_buf q
    pub agrees : Agrees sel d
    pub attached : Attached sel d ptr c.chan
    pub watching : is_writable c ≡ some_left q

  -- A change of the events of an attached channel.
  pub rewatched :
      (d : Dispatcher sel) (c : Channel) (events : ℕ)
      → Agrees sel d
      → Attached sel d ptr c
      → (d' : Dispatcher sel) × (set_events sel d ptr c events
          ≡ some (record c { events = events }, d'))
        × Agrees sel d'
        × Attached sel d' ptr (record c { events = events })
  unfolding set_events
  rewatched d c events a at =
      let (d', e, a', at', o) =
        update-attached sel d ptr (record c { events = events }) a at.on at.entry in
      (d', e, a', at')

  -- What a call of the connection leaves behind.
  pub record Left (total : List ℕ) (r : Option (Connection × Dispatcher sel)) : Type 0 where
    pub conn : Connection
    pub disp : Dispatcher sel
    pub queue : List ℕ
    pub result : r ≡ some (conn, disp)
    pub flows : Flows disp conn queue
    pub same : conn.wire ++ queue ≡ total

  keep_watching-Left :
      (d : Dispatcher sel) (c : Connection) (q : List ℕ)
      → Holds c.output_buf q
      → some_left q ≡ true
      → Agrees sel d
      → Attached sel d ptr c.chan
      → Left (c.wire ++ q) (keep_watching sel d ptr c)
  unfolding keep_watching enable_write
  keep_watching-Left d c q h left a at = elim (Bool-cases (is_writable c)) [
    | inl on ↦ record {
      conn = c;
      disp = d;
      queue = q;
      result = if-true _ _ on;
      flows = record { holds = h; agrees = a; attached = at; watching = on ∙ sym left };
      same = refl;
    }
    | inr off ↦
        let events = or_if c.chan.events true ev_write in
        let (d', e, a', at') = rewatched d c.chan events a at in
        record {
          conn = record c { chan = record c.chan { events = events } };
          disp = d';
          queue = q;
          result = if-false _ _ off ∙ rw e;
          flows = record {
            holds = h;
            agrees = a';
            attached = at';
            watching = has-enabled c.chan.events ∙ sym left;
          };
          same = refl;
        }
  ]

  left_more : (q rest : List ℕ) (x : ℕ) → some_left (q ++ x ∷ rest) ≡ true
  left_more [] rest x = refl
  left_more (y ∷ q) rest x = refl

  queue_rest-Left :
      (d : Dispatcher sel) (c : Connection) (q rest : List ℕ)
      → Flows d c q
      → c.output_buf.writer_index + length rest ≤ int_max
      → Left ((c.wire ++ q) ++ rest) (queue_rest sel d ptr c rest)
  unfolding queue_rest
  queue_rest-Left d c q [] f k = record {
    conn = c;
    disp = d;
    queue = q;
    result = refl;
    flows = f;
    same = sym (append-nil (c.wire ++ q));
  }
  queue_rest-Left d c q (x ∷ rest) f k =
      let (b', e, h, back) = put-Holds (x ∷ rest) f.holds k in
      let l =
        keep_watching-Left d (record c { output_buf = b' }) (q ++ x ∷ rest) h (left_more q rest x)
          f.agrees f.attached in
      record {
        conn = l.conn;
        disp = l.disp;
        queue = l.queue;
        result = rw e l.result;
        flows = l.flows;
        same = l.same ∙ sym (append_assoc c.wire q (x ∷ rest));
      }

  -- With nothing in the output buffer, the text is tried directly.
  send_direct-Left :
      (d : Dispatcher sel) (c : Connection) (text : List ℕ) (sent : Sent)
      → Flows d c []
      → IsSent text sent
      → c.output_buf.writer_index + length text ≤ int_max
      → Left
          ((c.wire ++ []) ++ text)
          (send_direct c text sent >>= λ nc. queue_rest sel d ptr nc.1 (drop nc.0 text))
  unfolding send_direct
  send_direct-Left d c text (nwritten n) f k room =
      let l =
        queue_rest-Left d (record c { wire = c.wire ++ take n text }) [] (drop n text)
          (record {
            holds = f.holds;
            agrees = f.agrees;
            attached = f.attached;
            watching = f.watching;
          })
          (omega (arith, length-drop n text)) in
      record {
        conn = l.conn;
        disp = l.disp;
        queue = l.queue;
        result = l.result;
        flows = l.flows;
        same = l.same ∙ whole;
      }
    where
      whole : ((c.wire ++ take n text) ++ []) ++ drop n text ≡ (c.wire ++ []) ++ text
      whole =
          ap (λ w. w ++ drop n text) (append-nil (c.wire ++ take n text))
          ∙ append_assoc c.wire (take n text) (drop n text)
          ∙ ap (λ t. c.wire ++ t) (take-append-drop n text)
          ∙ ap (λ w. w ++ text) (sym (append-nil c.wire))
  send_direct-Left d c text failed f k room = queue_rest-Left d c [] text f room
  send_direct-Left d c text broken f k room = absurd k

  -- On a connected connection whose output buffer is watched for writing just while it holds
  -- something, in a dispatcher that agrees with its selector, where send takes no more than it was
  -- given and reports no broken connection, and the buffer stays within an int, Connection::send
  -- succeeds and keeps all of this, and the wire followed by the buffer is what it was, followed by
  -- the text.
  pub send-Left :
      (d : Dispatcher sel) (c : Connection) (q text : List ℕ) (sent : Sent)
      → c.status ≡ connected
      → Flows d c q
      → IsSent text sent
      → c.output_buf.writer_index + length text ≤ int_max
      → Left ((c.wire ++ q) ++ text) (send sel d ptr c text sent)
  unfolding send try_direct
  send-Left d c [] text sent up f k room =
      subst (Left ((c.wire ++ []) ++ text)) (sym (if-true _ _ (ap is_connected up))) (
        rw (f.watching, ap (λ n. n == 0) (sym (length-Holds f.holds)))
          (send_direct-Left d c text sent f k room))
  send-Left d c (x ∷ q) text sent up f k room =
      subst (Left ((c.wire ++ (x ∷ q)) ++ text)) (sym (if-true _ _ (ap is_connected up)))
        (rw f.watching (queue_rest-Left d c (x ∷ q) text f room))
