-- ===== src/Log/Stream/Shown.antt =====
-- What a LogStream holds after a sequence of operators: each item whole, or left out where its room
-- was missing.
use yamq.Prelude.{
  ℕ, suc, ◌+◌, ◌-◌, ◌^◌, ◌≤◌, ◌<◌, ◌≡◌, refl, sym, subst, ap, ◌∙◌, inl, inr, true, false, Option,
  none, some, List, [], ◌∷◌, ◌++◌, append_assoc, append-nil, arith, codes, length, length-append,
  length-take, leb, ltb, le→leb, Bool-cases, if◌then◌else◌,
}
use yamq.Log.FixedBuffer.{
  FixedBuffer, remain, InBounds, contents, write_at-contents, append-contents, append-refused,
}
use yamq.Log.Convert.{convert_hex}
use yamq.Log.Convert.Decimal.{magnitude, numeral, convert-numeral, length-numeral}
use yamq.Log.Convert.Hex.{convert_hex-value}
use yamq.Log.Stream.{
  max_numeric_size, Item, of_bool, of_int, of_pointer, of_char, of_null, of_string, of_buffer,
  of_double, append_to, print_at, copy2buf, put_pointer, put_double, insert, insert_all,
}

abbrev pub or_nothing : Option (List ℕ) → List ℕ
or_nothing none = []
or_nothing (some text) = text

abbrev pub item_text : Item → List ℕ
item_text (of_bool v) = if v then codes "1" else codes "0"
item_text (of_int v) = numeral v
item_text (of_pointer p) = codes "0x" ++ or_nothing (convert_hex (suc p) p)
item_text (of_char c) = c ∷ []
item_text of_null = codes "(null)"
item_text (of_string str) = str
item_text (of_buffer text) = text
item_text (of_double text) = text

-- The room that an operator asks for.
abbrev pub needs : Item → ℕ
needs (of_int v) = 32
needs (of_pointer p) = 35
needs (of_double text) = 32
needs item = length (item_text item)

-- The sizes of the types, and what `snprintf` returns for a `double` with twelve digits.
abbrev pub IsItem : Item → Type 0
IsItem (of_int v) = magnitude v < 2 ^ 64
IsItem (of_pointer p) = p < 2 ^ 64
IsItem (of_double text) = length text < 32
IsItem item = Unit {0}

abbrev pub AreItems : List Item → Type 0
AreItems [] = Unit {0}
AreItems (item ∷ items) = IsItem item × AreItems items

-- What is shown of the items in a room.
unfoldable pub shown : ℕ → List Item → List ℕ
shown room [] = []
shown room (item ∷ items) =
    let here = item_text item ++ shown (room - length (item_text item)) items in
    let skipped = shown room items in if leb (needs item) room then here else skipped

-- The text comes to the contents, and nothing outside the array is written.
pub record Grown (b : FixedBuffer) (text : List ℕ) (b' : FixedBuffer) : Type 0 where
  pub same : contents b' ≡ contents b ++ text
  pub inside : InBounds b'
  pub size : length b'.data_ ≡ length b.data_

print_at-Grown :
    (b : FixedBuffer) (text : List ℕ)
    → InBounds b
    → length text + 1 ≤ remain b
    → Grown b text (print_at b text)
print_at-Grown b text h k =
    let (same, inside, size) = write_at-contents b text (0 ∷ []) h k in
    record { same = same; inside = inside; size = size }

pub append_to-Grown :
    (b : FixedBuffer) (text : List ℕ)
    → InBounds b
    → length text ≤ remain b
    → Grown b text (append_to b text)
append_to-Grown b text h k =
    let (b', e, same, inside, size) = append-contents b text h k in
    subst (Grown b text) (sym (ap (λ r. r.1) e))
      (record { same = same; inside = inside; size = size })

-- Room left after a text.
pub remain-Grown :
    (b b' : FixedBuffer) (text : List ℕ)
    → InBounds b
    → Grown b text b'
    → remain b' ≡ remain b - length text
remain-Grown b b' text h g = omega (
  arith,
  g.size,
  g.inside,
  ap length g.same,
  length-append (contents b) text,
  length-take b.cur b.data_,
  length-take b'.cur b'.data_,
)

pub Grown-Grown :
    (b b1 b2 : FixedBuffer) (s t : List ℕ) → Grown b s b1 → Grown b1 t b2 → Grown b (s ++ t) b2
Grown-Grown b b1 b2 s t g k = record {
  same = k.same ∙ ap (λ l. l ++ t) g.same ∙ append_assoc (contents b) s t;
  inside = k.inside;
  size = k.size ∙ g.size;
}

-- Where there is room for an item it is shown whole.
insert-Grown :
    (b : FixedBuffer) (item : Item)
    → InBounds b
    → IsItem item
    → needs item ≤ remain b
    → (b' : FixedBuffer) × (insert b item ≡ some b') × Grown b (item_text item) b'
unfolding insert copy2buf put_pointer put_double
insert-Grown b (of_bool v) h w k = (_, refl, append_to-Grown b _ h k)
insert-Grown b (of_int v) h w k = (
  print_at b (numeral v),
  rw (le→leb 32 (remain b) k, convert-numeral v),
  print_at-Grown b (numeral v) h (omega (arith, length-numeral v w)),
)
insert-Grown b (of_pointer p) h w k =
    let (text, e, value, short) = convert_hex-value p w in
    let g = append_to-Grown b (codes "0x") h (omega arith) in
    let b1 = append_to b (codes "0x") in
    (
      print_at b1 text,
      rw (ltb_true (remain b) k, e),
      rw e (
          Grown-Grown b b1 _ (codes "0x") text g (
            print_at-Grown b1 text g.inside
              (omega (arith, short, remain-Grown b b1 (codes "0x") h g)))),
    )
  where
    ltb_true : (r : ℕ) → 35 ≤ r → ltb (max_numeric_size + 2) r ≡ true
    ltb_true r k = ground arith
insert-Grown b (of_char c) h w k = (_, refl, append_to-Grown b _ h k)
insert-Grown b of_null h w k = (_, refl, append_to-Grown b _ h k)
insert-Grown b (of_string str) h w k = (_, refl, append_to-Grown b _ h k)
insert-Grown b (of_buffer text) h w k = (_, refl, append_to-Grown b _ h k)
insert-Grown b (of_double text) h w k =
    (print_at b text, rw (le→leb 32 (remain b) k), print_at-Grown b text h (omega arith))

-- Where there is none it is left out.
append_to-refused :
    (b : FixedBuffer) (text : List ℕ) → remain b < length text → append_to b text ≡ b
append_to-refused b text k = ap (λ r. r.1) (append-refused b text k)

insert-refused : (b : FixedBuffer) (item : Item) → remain b < needs item → insert b item ≡ some b
unfolding insert copy2buf put_pointer put_double
insert-refused b (of_bool v) k = ap some (append_to-refused b _ k)
insert-refused b (of_int v) k = rw (leb_false (remain b) k)
  where
    leb_false : (r : ℕ) → r < 32 → leb max_numeric_size r ≡ false
    leb_false r k = ground arith
insert-refused b (of_pointer p) k = rw (ltb_false (remain b) k)
  where
    ltb_false : (r : ℕ) → r < 35 → ltb (max_numeric_size + 2) r ≡ false
    ltb_false r k = ground arith
insert-refused b (of_char c) k = ap some (append_to-refused b _ k)
insert-refused b of_null k = ap some (append_to-refused b _ k)
insert-refused b (of_string str) k = ap some (append_to-refused b _ k)
insert-refused b (of_buffer text) k = ap some (append_to-refused b _ k)
insert-refused b (of_double text) k = rw (leb_false (remain b) k)
  where
    leb_false : (r : ℕ) → r < 32 → leb max_numeric_size r ≡ false
    leb_false r k = ground arith

-- From a pointer within its buffer, with integers and pointers of 64 bits and texts of doubles
-- below 32 bytes, a chain of operators succeeds, keeps the pointer within the buffer and its size,
-- and appends what the items show in the room: each item whole where the room it asks for is left,
-- and nothing of it otherwise.
pub insert_all-shown :
    (b : FixedBuffer) (items : List Item)
    → InBounds b
    → AreItems items
    → (b' : FixedBuffer) × (insert_all b items ≡ some b') × Grown b (shown (remain b) items) b'
unfolding insert_all shown
insert_all-shown b [] h w =
    (b, refl, record { same = sym (append-nil (contents b)); inside = h; size = refl })
insert_all-shown b (item ∷ items) h (w, ws) = elim (Bool-cases (leb (needs item) (remain b))) [
  | inl room ↦
      let (b1, e1, g1) = insert-Grown b item h w (ground arith) in
      let (b2, e2, g2) = insert_all-shown b1 items g1.inside ws in
      (
        b2,
        rw (e1, insert_all) e2,
        rw (room, sym (remain-Grown b b1 (item_text item) h g1)) (Grown-Grown b b1 b2 _ _ g1 g2),
      )
  | inr full ↦
      let (b2, e2, g2) = insert_all-shown b items h ws in
      (b2, rw (insert-refused b item (ground arith), insert_all) e2, rw full g2)
]
