-- ===== src/Log/File/Run.antt =====
-- A LogFile from its construction on, over complete writes.
use yamq.Prelude.{
  ℕ, ◌^◌, ◌≤◌, ◌<◌, ◌≡◌, refl, true, false, Option, some, List, [], ◌∷◌, ◌++◌, arith, length,
  str_eq, ◌>>=◌,
}
use yamq.Log.File.{LogFile, log_file, log_append, base_path, roll_path, roll}
use yamq.Log.File.Roll.{Ready, fine}

pub append_all : LogFile → List (List ℕ) → Option LogFile
append_all f [] = some f
append_all f (text ∷ texts) = do (writen, f') ← log_append f text (fine text); append_all f' texts

abbrev pub concat : List (List ℕ) → List ℕ
concat [] = []
concat (text ∷ texts) = text ++ concat texts

-- The messages are not empty, and short enough for the counters.
abbrev pub AreTexts : List (List ℕ) → Type 0
AreTexts [] = Unit {0}
AreTexts (text ∷ texts) = (0 < length text) × (length text < 2 ^ 63) × AreTexts texts

-- The file that the constructor opens.
pub log_file-Ready :
    (dirname filename extension : List ℕ) (roll_size : ℕ)
    → 0 < roll_size
    → roll_size ≤ 2 ^ 63
    → Ready (log_file dirname filename roll_size extension true)
unfolding roll base_path str_eq roll_path
log_file-Ready dirname filename extension roll_size h k = record {
  file = _;
  open_ = record { here = refl; valid = refl; counted = refl; room = h };
  full = tt;
  numbered = (refl, tt);
  index = omega arith;
  named = slash dirname;
  size = h;
  small = k;
}
  where
    slash : (xs : List ℕ) → str_eq (xs ++ 47 ∷ (filename ++ 46 ∷ extension)) [] ≡ false
    slash [] = refl
    slash (x ∷ xs) = refl
