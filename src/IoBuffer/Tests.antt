-- ===== src/IoBuffer/Tests.antt =====
-- Runs of the buffer at fixed inputs, and the theorems at inputs that meet their hypotheses.
use yamq.Prelude.{◌≤◌, ◌<◌, ◌≡◌, refl, some, none, [], ◌∷◌, arith}
use yamq.IoBuffer.{
  IoBuffer, put, get, seek, prepend, retrieve, put_int32, get_int32, get_until, find_crlf, copy_to,
  wseek, make_space, resize, search_crlf,
}
use yamq.IoBuffer.Queue.{Holds, get-Holds, seek-Holds}
use yamq.IoBuffer.Growth.{prepend-Holds, retrieve-Holds}
use yamq.IoBuffer.Ints.{put_int32-Holds, get_int32-Holds}
use yamq.IoBuffer.Search.{find_crlf_stale}
use yamq.IoBuffer.Run.{puts, gets, seeks, run, run_queue, run-run_queue}

-- Twelve bytes, of which "ab" are to be read.
abbrev small : IoBuffer
small = record {
  buf = 0 ∷ 0 ∷ 0 ∷ 0 ∷ 0 ∷ 0 ∷ 0 ∷ 0 ∷ 97 ∷ 98 ∷ 0 ∷ 0 ∷ [];
  reader_index = 8;
  writer_index = 10;
}

small-Holds : Holds small (97 ∷ 98 ∷ [])
small-Holds = record { valid = omega arith; bytes = refl }

-- "a" was written over the first byte of a line that had been read: "\r\n" stands behind it.
abbrev reused : IoBuffer
reused = record {
  buf = 0 ∷ 0 ∷ 0 ∷ 0 ∷ 0 ∷ 0 ∷ 0 ∷ 0 ∷ 97 ∷ 13 ∷ 10 ∷ 0 ∷ 0 ∷ 0 ∷ 0 ∷ 0 ∷ 0 ∷ 0 ∷ [];
  reader_index = 8;
  writer_index = 9;
}

reused-Holds : Holds reused (97 ∷ [])
reused-Holds = record { valid = omega arith; bytes = refl }

put_grows :
    put small (1 ∷ 2 ∷ 3 ∷ [])
    ≡ some (record {
      buf = 0 ∷ 0 ∷ 0 ∷ 0 ∷ 0 ∷ 0 ∷ 0 ∷ 0 ∷ 97 ∷ 98 ∷ 1 ∷ 2 ∷ 3 ∷ [];
      reader_index = 8;
      writer_index = 13;
    })
unfolding put make_space resize copy_to wseek
put_grows = refl

seek-Holds_example :
    (b' : IoBuffer) × (seek small 1 ≡ some b') × Holds b' (98 ∷ []) × (b'.writer_index ≤ 10)
seek-Holds_example = seek-Holds 1 small-Holds (omega arith)

get-Holds_example :
    (b' : IoBuffer) × (get small 5 ≡ some (97 ∷ 98 ∷ [], b')) × Holds b' [] × (b'.writer_index ≤ 10)
get-Holds_example = get-Holds 5 small-Holds

prepend-Holds_example :
    (b' : IoBuffer) × (prepend small (7 ∷ 8 ∷ []) ≡ some b')
    × Holds b' (7 ∷ 8 ∷ 97 ∷ 98 ∷ [])
    × (b'.writer_index ≡ 10)
prepend-Holds_example = prepend-Holds (7 ∷ 8 ∷ []) small-Holds (omega arith)

retrieve-Holds_example :
    (b' : IoBuffer) × (retrieve small (some (1 ∷ 2 ∷ 3 ∷ [])) ≡ some (3, b'))
    × Holds b' (97 ∷ 98 ∷ 1 ∷ 2 ∷ 3 ∷ [])
retrieve-Holds_example = retrieve-Holds (1 ∷ 2 ∷ 3 ∷ []) small-Holds (omega arith)

put_int32-Holds_example :
    (b' : IoBuffer) × (put_int32 small 258 ≡ some (4, b')) × Holds b' (97 ∷ 98 ∷ 0 ∷ 0 ∷ 1 ∷ 2 ∷ [])
put_int32-Holds_example = put_int32-Holds 258 small-Holds (omega arith)

-- The two bytes 0 1 stand before 2 3 and the letters.
abbrev holds_int : IoBuffer
holds_int = record {
  buf = 0 ∷ 0 ∷ 0 ∷ 0 ∷ 0 ∷ 1 ∷ 2 ∷ 3 ∷ 97 ∷ 98 ∷ 0 ∷ 0 ∷ [];
  reader_index = 4;
  writer_index = 10;
}

get_int32-Holds_example :
    (b' : IoBuffer) × (get_int32 holds_int ≡ some (66051, b')) × Holds b' (97 ∷ 98 ∷ [])
get_int32-Holds_example =
    get_int32-Holds 66051 (omega arith) (record { valid = omega arith; bytes = refl })

find_crlf_stale_example : (find_crlf reused ≡ some (some 1)) × (1 < 3) × (get_until reused 3 ≡ none)
unfolding search_crlf
find_crlf_stale_example = find_crlf_stale 1 reused-Holds refl refl

run-run_queue_example :
    run small (gets 1 ∷ puts (5 ∷ 6 ∷ []) ∷ seeks 1 ∷ gets 9 ∷ [])
    ≡ some ((97 ∷ []) ∷ (5 ∷ 6 ∷ []) ∷ [])
unfolding run_queue
run-run_queue_example =
    run-run_queue (gets 1 ∷ puts (5 ∷ 6 ∷ []) ∷ seeks 1 ∷ gets 9 ∷ []) small-Holds (omega arith)
