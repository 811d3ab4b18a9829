-- ===== src/Log/Laws.antt =====
-- Where log lines go, and the name of a file within its path.
use first_server.Common.{
  ℕ, suc, ◌+◌, ◌≡◌, refl, sym, ap, ◌∙◌, inl, inr, ◌⊎◌, List, [], ◌∷◌, ◌++◌, none, some, Bool, true,
  false, if◌then◌else◌, arith, append_assoc, append-nil, drop, Bool-cases, length,
}
use first_server.Log.{
  LogHandler, Entry, format_log, write_to_stdout, write_to_file, write_log, write_logs,
  is_separator, find_last_of, get_filename, destroy_handler, is_file_enabled,
}

abbrev pub formatted : Entry → List ℕ
formatted e = format_log e.level e.timestamp e.location e.message

abbrev pub all_lines : List (Entry × Bool) → List (List ℕ)
all_lines [] = []
all_lines ((e, written) ∷ more) = formatted e ∷ all_lines more

-- the lines before the first one that cannot be written
abbrev pub until_failure : List (Entry × Bool) → List (List ℕ)
until_failure [] = []
until_failure ((e, true) ∷ more) = formatted e ∷ until_failure more
until_failure ((e, false) ∷ more) = []

abbrev pub all_written : List (Entry × Bool) → Bool
all_written [] = true
all_written ((e, true) ∷ more) = all_written more
all_written ((e, false) ∷ more) = false

-- The stream is open and good, as it is while the output to a file is enabled.
abbrev pub IsValid : LogHandler → Type 0
IsValid h = (h.file_stream.is_open ≡ true) × (h.file_stream.good ≡ true)

-- What a run of `write_log` leaves, with the lines that the file takes.
pub record Logged (entries : List (Entry × Bool)) (to_file : List (List ℕ)) (enabled : Bool)
    (h h' : LogHandler) : Type 0 where
  pub out : h'.stdout ≡ h.stdout ++ all_lines entries
  pub file : h'.file_stream.lines ≡ h.file_stream.lines ++ to_file
  pub stays : h'.file_enabled ≡ enabled

Logged-cons :
    (e : Entry) (written : Bool) (more : List (Entry × Bool)) (now : List (List ℕ))
    {file : List (List ℕ)} {enabled : Bool} (h h1 h' : LogHandler)
    → h1.stdout ≡ h.stdout ++ (formatted e ∷ [])
    → h1.file_stream.lines ≡ h.file_stream.lines ++ now
    → Logged more file enabled h1 h'
    → Logged ((e, written) ∷ more) (now ++ file) enabled h h'
Logged-cons e written more now {file} h h1 h' o f later = record {
  out =
      later.out
      ∙ (ap (λ l. l ++ all_lines more) o
          ∙ append_assoc h.stdout (formatted e ∷ []) (all_lines more));
  file = later.file ∙ (ap (λ l. l ++ file) f ∙ append_assoc h.file_stream.lines now file);
  stays = later.stays;
}

write_log_off :
    (e : Entry) (written : Bool) (h : LogHandler)
    → h.file_enabled ≡ false
    → ((write_log written e h).stdout ≡ h.stdout ++ (formatted e ∷ []))
      × ((write_log written e h).file_stream.lines ≡ h.file_stream.lines ++ [])
      × ((write_log written e h).file_enabled ≡ false)
unfolding write_log write_to_stdout
write_log_off e written h off = ground (arith, off, append-nil h.file_stream.lines)

-- With file output disabled, a run of `write_log` puts every line on the standard output, in
-- order, and none into the file, and file output stays disabled.
pub write_logs_disabled :
    (entries : List (Entry × Bool)) (h : LogHandler)
    → h.file_enabled ≡ false
    → Logged entries [] false h (write_logs entries h)
unfolding write_logs
write_logs_disabled [] h off = record {
  out = sym (append-nil h.stdout);
  file = sym (append-nil h.file_stream.lines);
  stays = off;
}
write_logs_disabled ((e, written) ∷ more) h off =
    let (o, f, s) = write_log_off e written h off in
    Logged-cons e written more [] h (write_log written e h)
      (write_logs more (write_log written e h)) o f
      (write_logs_disabled more (write_log written e h) s)

write_log_on :
    (e : Entry) (h : LogHandler)
    → h.file_enabled ≡ true
    → IsValid h
    → ((write_log true e h).stdout ≡ h.stdout ++ (formatted e ∷ []))
      × ((write_log true e h).file_stream.lines ≡ h.file_stream.lines ++ (formatted e ∷ []))
      × ((write_log true e h).file_enabled ≡ true)
      × IsValid (write_log true e h)
unfolding write_log write_to_stdout write_to_file
write_log_on e h on v = ground (arith, on, v)

write_log_failed :
    (e : Entry) (h : LogHandler)
    → h.file_enabled ≡ true
    → IsValid h
    → ((write_log false e h).stdout ≡ h.stdout ++ (formatted e ∷ []))
      × ((write_log false e h).file_stream.lines ≡ h.file_stream.lines ++ [])
      × ((write_log false e h).file_enabled ≡ false)
unfolding write_log write_to_stdout write_to_file
write_log_failed e h on v = ground (arith, on, v, append-nil h.file_stream.lines)

-- With file output enabled and an open stream in good state, a run of `write_log` puts every line
-- on the standard output, in order, and into the file the lines before the first one that cannot
-- be written. File output stays enabled exactly if all of them could be written.
pub write_logs_lem :
    (entries : List (Entry × Bool)) (h : LogHandler)
    → h.file_enabled ≡ true
    → IsValid h
    → Logged entries (until_failure entries) (all_written entries) h (write_logs entries h)
unfolding write_logs
write_logs_lem [] h on v = record {
  out = sym (append-nil h.stdout);
  file = sym (append-nil h.file_stream.lines);
  stays = on;
}
write_logs_lem ((e, true) ∷ more) h on v =
    let (o, f, s, v') = write_log_on e h on v in
    Logged-cons e true more (formatted e ∷ []) h (write_log true e h)
      (write_logs more (write_log true e h)) o f (write_logs_lem more (write_log true e h) s v')
write_logs_lem ((e, false) ∷ more) h on v =
    let (o, f, s) = write_log_failed e h on v in
    Logged-cons e false more [] h (write_log false e h) (write_logs more (write_log false e h)) o f
      (write_logs_disabled more (write_log false e h) s)

abbrev pub has_separator : List ℕ → Bool
has_separator [] = false
has_separator (c ∷ cs) = if is_separator c then true else has_separator cs

-- Where the last separator of a path is.
abbrev Last : List ℕ → Type 0
Last path =
    ((find_last_of path ≡ none) × (has_separator path ≡ false))
    ⊎ ((front : List ℕ) × (c : ℕ) × (name : List ℕ) × (find_last_of path ≡ some (length front))
        × (path ≡ front ++ (c ∷ name))
        × (is_separator c ≡ true)
        × (has_separator name ≡ false))

find_last_of_lem : (path : List ℕ) → Last path
unfolding find_last_of
find_last_of_lem [] = inl (refl, refl)
find_last_of_lem (c ∷ cs) = elim (find_last_of_lem cs) [
  | inl (e, clear) ↦ elim (Bool-cases (is_separator c)) [
    | inl s ↦ inr ([], c, cs, rw (e, s) refl, refl, s, clear)
    | inr s ↦ inl (rw (e, s) refl, rw s clear)
  ]
  | inr (front, c', name, e, split, s, clear) ↦
      inr (c ∷ front, c', name, rw e refl, ap (◌∷◌ c) split, s, clear)
]

drop-front :
    (front : List ℕ) (c : ℕ) (name : List ℕ)
    → drop (suc (length front)) (front ++ (c ∷ name)) ≡ name
drop-front [] c name = refl
drop-front (x ∷ front) c name = drop-front front c name

-- The name that `get_filename` gives has no separator, and it is the whole path, or what follows a
-- separator in the path.
pub get_filename_lem :
    (path : List ℕ)
    → (has_separator (get_filename path) ≡ false)
      × ((get_filename path ≡ path)
          ⊎ ((front : List ℕ) × (c : ℕ) × (is_separator c ≡ true)
              × (path ≡ front ++ (c ∷ get_filename path))))
unfolding get_filename
get_filename_lem path = elim (find_last_of_lem path) [
  | inl (e, clear) ↦ rw (e, get_filename) (clear, inl refl)
  | inr (front, c, name, e, split, s, clear) ↦
      let next : length front + 1 ≡ suc (length front) = omega arith in
      let named : get_filename path ≡ name =
        rw (e, get_filename)
          (ap (λ n. drop n path) next
            ∙ ap (drop (suc (length front))) split
            ∙ drop-front front c name) in
      (
        ap has_separator named ∙ clear,
        inr (front, c, s, split ∙ ap (λ n. front ++ (c ∷ n)) (sym named)),
      )
]

-- A line that is written after the end of the handler reaches no file, and turns the output to the
-- file off.
write_log-destroy_handler :
    (written : Bool) (e : Entry) (h : LogHandler)
    → let h' = write_log written e (destroy_handler h) in
      (h'.file_stream.lines ≡ h.file_stream.lines) × (is_file_enabled h' ≡ false)
unfolding write_log write_to_file write_to_stdout destroy_handler is_file_enabled
write_log-destroy_handler written e h = (ground arith, ground arith)
