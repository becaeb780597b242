-- ===== src/IoBuffer/Run.antt =====
-- Sequences of calls: a buffer answers as the queue of its readable bytes does.
use yamq.Prelude.{
  ℕ, ◌+◌, ◌≤◌, ◌≡◌, refl, some, none, Option, List, [], ◌∷◌, ◌++◌, arith, length, take, drop, leb,
  leb→le, inl, inr, Bool-cases, if◌then◌else◌, ◌>>=◌, int_max,
}
use yamq.IoBuffer.{IoBuffer, put, get, seek}
use yamq.IoBuffer.Queue.{Holds, put-Holds, get-Holds, seek-Holds, seek-none}

pub data Op : Type 0 where
  puts : List ℕ → Op
  gets seeks : ℕ → Op

-- What each `Get` handed out, in order; `none` if a call left defined behaviour.
pub run : IoBuffer → List Op → Option (List (List ℕ))
run b [] = some []
run b (puts bytes ∷ ops) = do b' ← put b bytes; run b' ops
run b (gets n ∷ ops) = do (bytes, b') ← get b n; replies ← run b' ops; some (bytes ∷ replies)
run b (seeks n ∷ ops) = do b' ← seek b n; run b' ops

-- The same calls on a queue of bytes.
unfoldable pub run_queue : List ℕ → List Op → Option (List (List ℕ))
run_queue c [] = some []
run_queue c (puts bytes ∷ ops) = run_queue (c ++ bytes) ops
run_queue c (gets n ∷ ops) = do replies ← run_queue (drop n c) ops; some (take n c ∷ replies)
run_queue c (seeks n ∷ ops) =
    let rest = run_queue (drop n c) ops in if leb n (length c) then rest else none

-- All the bytes that the calls put.
abbrev pub total : List Op → ℕ
total [] = 0
total (puts bytes ∷ ops) = length bytes + total ops
total (gets n ∷ ops) = total ops
total (seeks n ∷ ops) = total ops

-- On a valid buffer, as long as the writer index and all the bytes put stay within an int, any
-- sequence of Put, Get and Seek calls answers as the same calls do on the queue of the readable
-- bytes, and leaves defined behaviour exactly where a Seek goes past them.
pub run-run_queue :
    (ops : List Op) {b : IoBuffer} {c : List ℕ}
    → Holds b c
    → b.writer_index + total ops ≤ int_max
    → run b ops ≡ run_queue c ops
unfolding run run_queue
run-run_queue [] h k = refl
run-run_queue (puts bytes ∷ ops) h k =
    let (b', e, hold, back) = put-Holds bytes h (omega arith) in
    rw e (run-run_queue ops hold (omega arith))
run-run_queue (gets n ∷ ops) h k =
    let (b', e, hold, back) = get-Holds n h in rw (e, run-run_queue ops hold (omega arith))
run-run_queue (seeks n ∷ ops) {b} {c} h k = elim (Bool-cases (leb n (length c))) [
  | inl fits ↦
      let (b', e, hold, back) = seek-Holds n h (leb→le _ _ fits) in
      rw (e, fits) (run-run_queue ops hold (omega arith))
  | inr over ↦ rw (seek-none n h (ground arith), over)
]
