-- ===== src/Log/Capture/Line.antt =====
-- The line that LogCapture of log/logging.cpp hands over.
use yamq.Prelude.{
  ℤ, ℕ, ◌^◌, ◌≤◌, ◌<◌, ◌≡◌, refl, sym, ap, ◌∙◌, inl, inr, Option-cases, Option, none, some, List,
  [], ◌∷◌, ◌++◌, arith, codes, length, length-take, ◌>>=◌,
}
use yamq.Log.FixedBuffer.{FixedBuffer, fixed_buffer, contents}
use yamq.Log.Convert.Decimal.{magnitude}
use yamq.Log.Stream.{k_max_log_message_len, Item, of_string, of_buffer, insert, insert_all}
use yamq.Log.Stream.Shown.{AreItems, shown, insert_all-shown}
use yamq.Log.Capture.{
  Level, log_trace, log_info, log_warning, log_error, log_fatal, is_fatal, ReadableTime,
  format_time, prefix_items, format_prefix, Ended, end_line, log_capture,
}
use yamq.Log.Capture.Heading.{heading, headed, fixed_buffer-Headed}

-- What comes behind the line.
abbrev pub end_items : Level → List ℕ → List Item
end_items log_fatal trace = of_string (codes "\n") ∷ of_buffer trace ∷ []
end_items _ trace = of_string (codes "\n") ∷ []

abbrev pub line_items : Level → ℤ → List ℕ → ℤ → List Item → List ℕ → List Item
line_items level tid file line items trace =
    prefix_items tid file line ++ (items ++ end_items level trace)

insert_all-append :
    (b : FixedBuffer) (xs ys : List Item)
    → insert_all b (xs ++ ys) ≡ (insert_all b xs >>= λ b'. insert_all b' ys)
unfolding insert_all
insert_all-append b [] ys = refl
insert_all-append b (x ∷ xs) ys = elim (Option-cases (insert b x)) [
  | inl e ↦ rw e refl
  | inr (b', e) ↦ rw e (insert_all-append b' xs ys)
]

end_line-contents :
    (b c : FixedBuffer) (level : Level) (trace : List ℕ)
    → insert_all b (end_items level trace) ≡ some c
    → (end_line b level trace).saved ≡ contents c
unfolding insert_all insert end_line
end_line-contents b c log_fatal trace e = cc
end_line-contents b c log_trace trace e = cc
end_line-contents b c log_info trace e = cc
end_line-contents b c log_warning trace e = cc
end_line-contents b c log_error trace e = cc

AreItems-append : (xs ys : List Item) → AreItems xs → AreItems ys → AreItems (xs ++ ys)
AreItems-append [] ys v w = w
AreItems-append (x ∷ xs) ys v w = (v.0, AreItems-append xs ys v.1 w)

end_items-AreItems : (level : Level) (trace : List ℕ) → AreItems (end_items level trace)
end_items-AreItems log_fatal trace = (tt, (tt, tt))
end_items-AreItems log_trace trace = (tt, tt)
end_items-AreItems log_info trace = (tt, tt)
end_items-AreItems log_warning trace = (tt, tt)
end_items-AreItems log_error trace = (tt, tt)

succeeds :
    (o : Option FixedBuffer) (f : FixedBuffer → Option FixedBuffer) (c : FixedBuffer)
    → (o >>= f) ≡ some c
    → (m : FixedBuffer) × (o ≡ some m) × (f m ≡ some c)
succeeds none f c e = cc
succeeds (some m) f c e = (m, refl, e)

-- Two runs in a row.
insert_all-split :
    (b c : FixedBuffer) (xs ys : List Item)
    → insert_all b (xs ++ ys) ≡ some c
    → (m : FixedBuffer) × (insert_all b xs ≡ some m) × (insert_all m ys ≡ some c)
insert_all-split b c xs ys e =
    succeeds (insert_all b xs) (λ m. insert_all m ys) c (sym (insert_all-append b xs ys) ∙ e)

-- What a line does: it hands over the text, and aborts where it is fatal.
pub record Captured (line : Option Ended) (level : Level) (text : List ℕ) : Type 0 where
  pub ended : Ended
  pub run : line ≡ some ended
  pub saved : ended.saved ≡ text
  pub fits : length ended.saved ≤ k_max_log_message_len
  pub aborts : ended.aborts ≡ is_fatal level

-- For a thread id and a line of 64 bits and items that LogStream takes, a log line is handed over
-- as the first letter of its level, the first 21 bytes of the time, and what its items show in the
-- 2978 bytes left: the thread id, the file and the line, the message, the end of the line and,
-- where it is fatal, the trace. It has at most 3000 bytes, and just a fatal line aborts.
pub log_capture-Captured :
    (level : Level) (tm : ReadableTime) (now : ℕ) (tid : ℤ) (file : List ℕ) (line : ℤ)
    (items : List Item) (trace : List ℕ)
    → magnitude tid < 2 ^ 64
    → magnitude line < 2 ^ 64
    → AreItems items
    → Captured
        (log_capture level tm now tid file line items trace)
        level
        (heading level tm now ++ shown 2978 (line_items level tid file line items trace))
unfolding log_capture format_prefix format_time
log_capture-Captured level tm now tid file line items trace ht hl hi =
    let h = fixed_buffer-Headed level tm now in
    let b = headed (fixed_buffer k_max_log_message_len) level tm now in
    let rest = items ++ end_items level trace in
    let (c, run, grown) = insert_all-shown b (line_items level tid file line items trace) h.inside (
      AreItems-append (prefix_items tid file line) rest (tt, (ht, (tt, (tt, (tt, (hl, (tt, tt)))))))
        (AreItems-append items (end_items level trace) hi (end_items-AreItems level trace))) in
    let (m, run₁, tail) = insert_all-split b c (prefix_items tid file line) rest run in
    let (n, run₂, last) = insert_all-split m c items (end_items level trace) tail in
    let saved = end_line-contents n c level trace last in
    record {
      ended = end_line n level trace;
      run = rw (h.asked, run₁, run₂) refl;
      saved = saved ∙ grown.same ∙ rw (h.left, h.same) refl;
      fits =
          omega
            (arith, h.size, grown.size, grown.inside, ap length saved, length-take c.cur c.data_);
      aborts = refl;
    }
