-- ===== src/Log/Utilities.antt =====
-- log/utilities.cpp: initUtilities, which takes the directory and the name of the program from the path
-- that it was started by. A text is what stands before the zero byte.
use yamq.Prelude.{
  ℕ, ◌<◌, ◌≡◌, refl, arith, Option, none, some, List, [], ◌∷◌, ◌++◌, length, leb, ◌==◌, ==_false,
  false, if◌then◌else◌, ◌>>=◌, Lacks,
}

abbrev pub slash : ℕ
slash = 47

-- `strrchr`: the text up to the last slash, the slash included, and what follows.
unfoldable pub split_last : List ℕ → Option (List ℕ × List ℕ)
split_last [] = none
split_last (c ∷ cs) = elim (split_last cs) [
  | some (dir, name) ↦ some (c ∷ dir, name)
  | none ↦ if c == slash then some (c ∷ [], cs) else none
]

-- `g_projectDirname` and `g_projectName`: `none` where there is no slash, or where `strncpy` leaves a
-- text without its zero byte.
unfoldable pub init_utilities : List ℕ → Option (List ℕ × List ℕ)
unfolding split_last
init_utilities argv0 =
    let split = (do
      (dir, name) ← split_last argv0
      if leb 256 (length name) then none else some (dir, name)) in
    if leb 1024 (length argv0) then none else split

split_last-Lacks : (cs : List ℕ) → Lacks slash cs → split_last cs ≡ none
unfolding split_last
split_last-Lacks [] l = refl
split_last-Lacks (c ∷ cs) l = rw (split_last-Lacks cs l.1, ==_false c slash l.0) refl

split_last-slash :
    (d name : List ℕ)
    → Lacks slash name
    → split_last (d ++ slash ∷ name) ≡ some (d ++ slash ∷ [], name)
unfolding split_last
split_last-slash [] name l = rw (split_last-Lacks name l) refl
split_last-slash (c ∷ d) name l = rw (split_last-slash d name l) refl

not_leb : (m n : ℕ) → n < m → leb m n ≡ false
not_leb m n h = ground arith

-- initUtilities makes the text up to the last slash of a path of less than 1024 bytes the
-- directory, and what follows, where it has less than 256 bytes, the name; on a path without a
-- slash it follows a null pointer.
pub init_utilities-split :
    (d name : List ℕ)
    → Lacks slash name
    → length (d ++ slash ∷ name) < 1024
    → length name < 256
    → (init_utilities (d ++ slash ∷ name) ≡ some (d ++ slash ∷ [], name))
      × (init_utilities name ≡ none)
unfolding init_utilities
init_utilities-split d name l short few = (
  rw
      (
        not_leb 1024 (length (d ++ slash ∷ name)) short,
        split_last-slash d name l,
        not_leb 256 (length name) few,
      )
      refl,
  rw (not_leb 1024 (length name) (omega arith), split_last-Lacks name l) refl,
)
