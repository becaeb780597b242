-- ===== src/Log/File/Roll.antt =====
-- LogFile over complete writes: nothing is lost when it rolls, and each file has its own path.
use yamq.Prelude.{
  ℕ, zero, suc, ◌+◌, ◌^◌, ◌≤◌, ◌<◌, ◌≡◌, ◌≢◌, refl, sym, ap, ◌∙◌, inl, inr, true, false, some, List,
  [], ◌∷◌, ◌++◌, append_assoc, append-nil, arith, length, length-append, codes, decimal,
  digits_value, digits_value-decimal, str_eq, leb, lt→ltb, Bool-cases,
}
use yamq.Log.File.{
  AppendFile, open_file, st_same, LogFile, base_path, roll_path, roll, Env, roll_if_full,
  log_append, close_file,
}
use yamq.Log.File.Append.{append_complete}

cancel : (xs : List ℕ) {ys zs : List ℕ} → xs ++ ys ≡ xs ++ zs → ys ≡ zs
cancel [] h = h
cancel (x ∷ xs) h = cancel xs (cc)

longer : (xs ys : List ℕ) (y : ℕ) → xs ≢ xs ++ y ∷ ys
longer xs ys y h = omega (arith, ap length h, length-append xs (y ∷ ys))

roll_path-inj : (base : List ℕ) (i j : ℕ) → roll_path base i ≡ roll_path base j → i ≡ j
unfolding roll_path
roll_path-inj base zero zero h = refl
roll_path-inj base zero (suc j) h = absurd (longer base (decimal (suc j)) 95 h)
roll_path-inj base (suc i) zero h = absurd (longer base (decimal (suc i)) 95 (sym h))
roll_path-inj base (suc i) (suc j) h =
    let same : decimal (suc i) ≡ decimal (suc j) = cancel (codes "_") (cancel base h) in
    sym (digits_value-decimal (suc i)) ∙ ap (digits_value 0) same ∙ digits_value-decimal (suc j)

-- The paths of two different roll numbers are different.
pub roll_path-apart : (base : List ℕ) (i j : ℕ) → i ≢ j → roll_path base i ≢ roll_path base j
roll_path-apart base i j d h = d (roll_path-inj base i j h)

-- What a file has.
pub record Open (f : LogFile) (file : AppendFile) : Type 0 where
  pub here : f.file ≡ some file
  pub valid : file.valid ≡ true
  pub counted : file.writen_chars ≡ length file.content
  pub room : file.writen_chars < f.k_roll_size

abbrev pub contents : List AppendFile → List ℕ
contents [] = []
contents (f ∷ fs) = f.content ++ contents fs

contents-append : (fs gs : List AppendFile) → contents (fs ++ gs) ≡ contents fs ++ contents gs
contents-append [] gs = refl
contents-append (f ∷ fs) gs =
    ap (λ l. f.content ++ l) (contents-append fs gs)
    ∙ sym (append_assoc f.content (contents fs) (contents gs))

-- All that was written, in the order of the files.
abbrev pub written : LogFile → List ℕ
written f = contents (f.closed ++ close_file f.file)

-- Every closed file reached the size at which it rolls.
abbrev pub AreFull : ℕ → List AppendFile → Type 0
AreFull size [] = Unit {0}
AreFull size (f ∷ fs) = (size ≤ length f.content) × AreFull size fs

AreFull-append :
    (size : ℕ) (fs : List AppendFile) (f : AppendFile)
    → AreFull size fs
    → size ≤ length f.content
    → AreFull size (fs ++ f ∷ [])
AreFull-append size [] f h k = (k, tt)
AreFull-append size (g ∷ fs) f h k = (h.0, AreFull-append size fs f h.1 k)

-- The paths of the files are those of the numbers from `i` on.
abbrev pub AreNumbered : List ℕ → ℕ → List AppendFile → Type 0
AreNumbered base i [] = Unit {0}
AreNumbered base i (f ∷ fs) = (f.path ≡ roll_path base i) × AreNumbered base (suc i) fs

pub record Ready (f : LogFile) : Type 0 where
  pub file : AppendFile
  pub open_ : Open f file
  pub full : AreFull f.k_roll_size f.closed
  pub numbered : AreNumbered f.filepath 0 (f.closed ++ file ∷ [])
  pub index : f.roll_index ≡ suc (length f.closed)
  pub named : str_eq f.filepath [] ≡ false
  pub size : 0 < f.k_roll_size
  pub small : f.k_roll_size ≤ 2 ^ 63

AreNumbered-append :
    (base : List ℕ) (i : ℕ) (fs : List AppendFile) (g : AppendFile)
    → AreNumbered base i fs
    → g.path ≡ roll_path base (i + length fs)
    → AreNumbered base i (fs ++ g ∷ [])
AreNumbered-append base i [] g h k = (k ∙ ap (roll_path base) (omega arith), tt)
AreNumbered-append base i (f ∷ fs) g h k = (
  h.0,
  AreNumbered-append base (suc i) fs g h.1
      (k ∙ ap (roll_path base) {x = i + suc (length fs)} {y = suc i + length fs} (omega arith)),
)

-- A file with the same path has the same number.
AreNumbered-same :
    (base : List ℕ) (i : ℕ) (fs : List AppendFile) (g g' : AppendFile)
    → g'.path ≡ g.path
    → AreNumbered base i (fs ++ g ∷ [])
    → AreNumbered base i (fs ++ g' ∷ [])
AreNumbered-same base i [] g g' e h = (e ∙ h.0, tt)
AreNumbered-same base i (f ∷ fs) g g' e h = (h.0, AreNumbered-same base (suc i) fs g g' e h.1)

-- The surroundings in which all goes well.
abbrev pub fine : List ℕ → Env
fine text = record { stat = st_same; fwrites = length text ∷ []; opens = true }

abbrev grown : AppendFile → List ℕ → AppendFile
grown file text = record file {
  writen_chars = file.writen_chars + length text;
  content = file.content ++ text;
}

module _ (f : LogFile) (text : List ℕ) (r : Ready f) where
  abbrev kept : LogFile
  kept = record f { file = some (grown r.file text) }

  abbrev rolled : LogFile
  rolled = (roll kept true).1

  all_written : contents (f.closed ++ grown r.file text ∷ []) ≡ written f ++ text
  all_written =
      contents-append f.closed (grown r.file text ∷ [])
      ∙ (ap (λ l. contents f.closed ++ l)
            (append_assoc r.file.content text [] ∙ ap (λ l. r.file.content ++ l) (append-nil text))
          ∙ (sym (append_assoc (contents f.closed) r.file.content text)
              ∙ ap (λ l. l ++ text) before))
    where
      before : contents f.closed ++ r.file.content ≡ written f
      before = sym (
          ap (λ o. contents (f.closed ++ close_file o)) r.open_.here
          ∙ (contents-append f.closed (r.file ∷ [])
              ∙ ap (λ l. contents f.closed ++ l) (append-nil r.file.content)))

  kept-Ready : r.file.writen_chars + length text < f.k_roll_size → Ready kept
  kept-Ready room = record {
    file = grown r.file text;
    open_ = record {
      here = refl;
      valid = r.open_.valid;
      counted = omega (arith, r.open_.counted, length-append r.file.content text);
      room = room;
    };
    full = r.full;
    numbered = AreNumbered-same f.filepath 0 f.closed r.file (grown r.file text) refl r.numbered;
    index = r.index;
    named = r.named;
    size = r.size;
    small = r.small;
  }

  rolled-Ready :
      f.k_roll_size ≤ r.file.writen_chars + length text → f.roll_index + 1 < 2 ^ 32 → Ready rolled
  unfolding roll base_path
  rolled-Ready full low = record {
    file = open_file (roll_path (base_path kept) f.roll_index) true;
    open_ = record { here = refl; valid = refl; counted = refl; room = r.size };
    full =
        AreFull-append f.k_roll_size f.closed (grown r.file text) r.full
          (omega (arith, r.open_.counted, length-append r.file.content text));
    numbered = rw r.named (
        AreNumbered-append f.filepath 0 (f.closed ++ grown r.file text ∷ [])
          (open_file (roll_path f.filepath f.roll_index) true)
          (AreNumbered-same f.filepath 0 f.closed r.file (grown r.file text) refl r.numbered)
          (ap (roll_path f.filepath)
            (omega (arith, r.index, length-append f.closed (grown r.file text ∷ [])))));
    index = omega (arith, r.index, length-append f.closed (grown r.file text ∷ []));
    named = rw r.named r.named;
    size = r.size;
    small = r.small;
  }

  rolled-written : written rolled ≡ written f ++ text
  unfolding roll
  rolled-written =
      contents-append (f.closed ++ grown r.file text ∷ []) _
      ∙ (append-nil (contents (f.closed ++ grown r.file text ∷ [])) ∙ all_written)

  rolled-index : rolled.roll_index ≤ f.roll_index + 1
  unfolding roll
  rolled-index = omega arith

pub record Appended (f : LogFile) (text : List ℕ) (f' : LogFile) : Type 0 where
  pub ready : Ready f'
  pub all : written f' ≡ written f ++ text
  pub index : f'.roll_index ≤ f.roll_index + 1

pub log_append-Appended :
    (f : LogFile) (text : List ℕ)
    → Ready f
    → 0 < length text
    → length text < 2 ^ 63
    → f.roll_index + 1 < 2 ^ 32
    → (f' : LogFile) × (log_append f text (fine text) ≡ some (length text, f')) × Appended f text f'
unfolding log_append roll_if_full
log_append-Appended f text r p h low =
    let file = r.file in
    let done = append_complete file text r.open_.valid p (omega (arith, r.open_.room, r.small)) in
    elim (Bool-cases (leb f.k_roll_size (file.writen_chars + length text))) [
      | inl full ↦ (
        rolled f text r,
        rw (r.open_.here, done, lt→ltb 0 f.k_roll_size r.size, full),
        record {
          ready = rolled-Ready f text r (ground arith) low;
          all = rolled-written f text r;
          index = rolled-index f text r;
        },
      )
      | inr room ↦ (
        kept f text r,
        rw (r.open_.here, done, lt→ltb 0 f.k_roll_size r.size, room),
        record {
          ready = kept-Ready f text r (ground arith);
          all = all_written f text r;
          index = omega arith;
        },
      )
    ]
