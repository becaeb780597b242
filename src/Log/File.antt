-- ===== src/Log/File.antt =====
-- log/logfile.h and logfile.cpp: AppendFileWrapper and LogFile. What stat, fopen and fwrite return is
-- given; a file is the bytes written to it since it was opened.
pub mod Append
pub mod Roll
pub mod Run
use yamq.Prelude.{
  ℕ, zero, suc, ◌+◌, ◌-◌, ◌%◌, ◌^◌, ◌≡◌, Bool, true, false, ◌&&◌, Option, none, some, List, [], ◌∷◌,
  ◌++◌, length, take, codes, decimal, str_eq, ltb, leb, ◌==◌, if◌then◌else◌, ◌>>=◌,
}

pub record AppendFile : Type 0 where
  pub path : List ℕ
  pub valid : Bool
  pub writen_chars : ℕ
  pub content : List ℕ

-- `open`, with what `fopen` says; a file that is opened again counts from 0.
abbrev pub open_file : List ℕ → Bool → AppendFile
open_file path opens = record { path = path; valid = opens; writen_chars = 0; content = [] }

-- What `stat` says of the path: the file is the one that is open, or it is to be opened again, and
-- whether that succeeds.
pub data Stat : Type 0 where
  st_same : Stat
  st_other : Bool → Stat

-- `none` where the file cannot be opened again.
pub check_if_open : AppendFile → Stat → Bool × AppendFile
check_if_open f st_same = (true, f)
check_if_open f (st_other opens) = (opens, open_file f.path opens)

-- The loop of `append`, with the results of `fwrite`: every call writes from the start of the text.
-- It yields what remains, and the file's bytes; `none` while more results are awaited.
pub fwrite_loop : List ℕ → List ℕ → ℕ → List ℕ → Option (ℕ × List ℕ)
fwrite_loop [] text remain content = none
fwrite_loop (x ∷ xs) text remain content =
    let remain' = (remain + 2 ^ 64 - x) % 2 ^ 64 in
    let content' = content ++ take x text in
    let rest = fwrite_loop xs text remain' content' in
    if x == 0
    then some (remain, content)
    else if remain' == 0
    then some (remain', content')
    else rest

-- Behind the checks of `append`.
pub write_file : AppendFile → List ℕ → List ℕ → Option (ℕ × AppendFile)
write_file f text fwrites = do
  (remain, content) ← fwrite_loop fwrites text (length text) f.content
  let writen = (length text + 2 ^ 64 - remain) % 2 ^ 64
  some (writen, record f { writen_chars = (f.writen_chars + writen) % 2 ^ 64; content = content })

unfoldable pub append : AppendFile → List ℕ → Stat → List ℕ → Option (ℕ × AppendFile)
append f text stat fwrites =
    let (ok, f') = check_if_open f stat in
    let written = write_file f' text fwrites in
    if f.valid && ltb 0 (length text) then (if ok then written else some (0, f')) else some (0, f)

-- `closed` are the files written before, the oldest first.
pub record LogFile : Type 0 where
  pub closed : List AppendFile
  pub file : Option AppendFile
  pub dirname : List ℕ
  pub filename : List ℕ
  pub extension : List ℕ
  pub filepath : List ℕ
  pub roll_index : ℕ
  pub k_roll_size : ℕ

unfoldable pub base_path : LogFile → List ℕ
base_path f =
    if str_eq f.filepath []
    then f.dirname ++ (codes "/" ++ (f.filename ++ (codes "." ++ f.extension)))
    else f.filepath

-- The path that `roll` opens.
unfoldable pub roll_path : List ℕ → ℕ → List ℕ
roll_path base zero = base
roll_path base (suc n) = base ++ (codes "_" ++ decimal (suc n))

abbrev pub close_file : Option AppendFile → List AppendFile
close_file none = []
close_file (some f) = f ∷ []

unfoldable pub roll : LogFile → Bool → Bool × LogFile
roll f opens =
    let base = base_path f in
    if opens
    then (
      true,
      record f {
        closed = f.closed ++ close_file f.file;
        file = some (open_file (roll_path base f.roll_index) true);
        filepath = base;
        roll_index = (f.roll_index + 1) % 2 ^ 32;
      },
    )
    else (false, record f { filepath = base })

abbrev pub log_file : List ℕ → List ℕ → ℕ → List ℕ → Bool → LogFile
log_file dirname filename roll_size extension opens =
    (roll
      (record {
        closed = [];
        file = none;
        dirname = dirname;
        filename = filename;
        extension = extension;
        filepath = [];
        roll_index = 0;
        k_roll_size = roll_size;
      })
      opens).1

-- What a call of `LogFile::append` meets.
pub record Env : Type 0 where
  pub stat : Stat
  pub fwrites : List ℕ
  pub opens : Bool

-- The roll that `append` ends with.
pub roll_if_full : LogFile → ℕ → Bool → LogFile
roll_if_full f writen_chars opens =
    if ltb 0 f.k_roll_size && leb f.k_roll_size writen_chars then (roll f opens).1 else f

-- `none` where there is no file to append to.
pub log_append : LogFile → List ℕ → Env → Option (ℕ × LogFile)
log_append f text env = do
  file ← f.file
  (writen, file') ← append file text env.stat env.fwrites
  some (writen, roll_if_full (record f { file = some file' }) file'.writen_chars env.opens)
