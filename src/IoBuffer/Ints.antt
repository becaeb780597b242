-- ===== src/IoBuffer/Ints.antt =====
-- The 32-bit integers of the buffer travel in network byte order.
use yamq.Prelude.{
  ℕ, ◌+◌, ◌*◌, ◌/◌, ◌%◌, ◌^◌, ◌≤◌, ◌<◌, ◌≡◌, ap, some, List, [], ◌∷◌, ◌++◌, arith, int_max,
}
use yamq.IoBuffer.{IoBuffer, put_int32, get_int32, le_bytes32, bswap32, le_value}
use yamq.IoBuffer.Queue.{Holds, put-Holds, get-Holds}

-- The bytes of a 32-bit pattern, the most significant one first.
abbrev pub be_bytes32 : ℕ → List ℕ
be_bytes32 v = (v / 256 ^ 3 % 256) ∷ (v / 256 ^ 2 % 256) ∷ (v / 256 % 256) ∷ (v % 256) ∷ []

-- The four digits of a number written in base 256.
digits4 :
    (a b c d : ℕ)
    → a < 256
    → b < 256
    → c < 256
    → d < 256
    → let n = a * 256 ^ 3 + b * 256 ^ 2 + c * 256 + d in
      (n % 256 ≡ d) × (n / 256 % 256 ≡ c) × (n / 256 ^ 2 % 256 ≡ b) × (n / 256 ^ 3 % 256 ≡ a)
digits4 a b c d ha hb hc hd = (omega arith, omega arith, omega arith, omega arith)

le_bytes32-bswap32 : (v : ℕ) → le_bytes32 (bswap32 v) ≡ be_bytes32 v
unfolding le_bytes32 bswap32
le_bytes32-bswap32 v =
    let (p, q, r, s) =
      digits4 (v % 256) (v / 256 % 256) (v / 256 ^ 2 % 256) (v / 256 ^ 3 % 256) (omega arith)
        (omega arith) (omega arith) (omega arith) in
    rw (p, q, r, s)

-- `PutInt32` appends the four bytes of the value, the most significant one first.
pub put_int32-Holds :
    {b : IoBuffer} {c : List ℕ} (v : ℕ)
    → Holds b c
    → b.writer_index + 4 ≤ int_max
    → (b' : IoBuffer) × (put_int32 b v ≡ some (4, b')) × Holds b' (c ++ be_bytes32 v)
unfolding put_int32
put_int32-Holds {b} {c} v h k =
    rw (le_bytes32-bswap32 v)
      (let (b', e, hold, _) = put-Holds (be_bytes32 v) h k in (b', rw e, hold))

bswap32-le_value : (v : ℕ) → v < 2 ^ 32 → bswap32 (le_value (be_bytes32 v)) ≡ v
unfolding bswap32 le_value
bswap32-le_value v h = omega arith

-- Where a valid buffer begins with the four bytes of a 32-bit pattern, the most significant first,
-- GetInt32 returns the pattern and leaves what follows.
pub get_int32-Holds :
    {b : IoBuffer} {c : List ℕ} (v : ℕ)
    → v < 2 ^ 32
    → Holds b (be_bytes32 v ++ c)
    → (b' : IoBuffer) × (get_int32 b ≡ some (v, b')) × Holds b' c
unfolding get_int32
get_int32-Holds {b} {c} v small h =
    let (b', e, hold, _) = get-Holds 4 h in
    (b', rw e (ap (λ n. some (n, b')) (bswap32-le_value v small)), hold)
