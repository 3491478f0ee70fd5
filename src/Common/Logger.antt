-- ===== src/Common/Logger.antt =====
-- common/logger.cc and common/logger.h: which lines are logged, and where they go. The clock and the name
-- of the thread are given with each call.
use file_server.Prelude.{
  ℕ, ◌+◌, ltb, leb, ◌≡◌, refl, sym, ap₂, ◌∙◌, Bool, true, false, not, ◌&&◌, Option, none, some,
  List, [], ◌∷◌, ◌++◌, if◌then◌else◌, append_assoc, append-nil,
}
use file_server.Prelude.Int.{ℤ}
use file_server.Prelude.Text.{Bytes}
use file_server.Prelude.Decimal.{to_string}
use file_server.Json.{utf8}
use file_server.Services.Filename.{Tm, padded}

pub data LogLevel : Type 0 where
  k_debug k_info k_warning k_error k_fatal : LogLevel

abbrev pub severity : LogLevel → ℕ
severity k_debug = 0
severity k_info = 1
severity k_warning = 2
severity k_error = 3
severity k_fatal = 4

-- `LevelToStr`
unfoldable pub level_to_str : LogLevel → Bytes
level_to_str k_debug = utf8 "DEBUG"
level_to_str k_info = utf8 "INFO "
level_to_str k_warning = utf8 "WARN "
level_to_str k_error = utf8 "ERROR"
level_to_str k_fatal = utf8 "FATAL"

-- `level_`; `file_stream_` with the path of the file that is open, and `use_file_`; and what was written
-- to the two streams of the process and, line by line, to files.
pub record Logger : Type 0 where
  pub level : LogLevel
  pub open_file : Option Bytes
  pub use_file : Bool
  pub out : Bytes
  pub err : Bytes
  pub written : List (Bytes × Bytes)

abbrev pub new_logger : Logger
new_logger = record {
  level = k_debug;
  open_file = none;
  use_file = false;
  out = [];
  err = [];
  written = [];
}

-- A call of `Log`, which a `LogStream` makes in its destructor.
pub record Entry : Type 0 where
  pub level : LogLevel
  pub file : Bytes
  pub line : ℤ
  pub func : Bytes
  pub message : Bytes
  pub now : Tm
  pub ms : ℕ
  pub thread : Bytes

unfoldable pub set_level : LogLevel → Logger → Logger
set_level level logger = record logger { level = level }

-- `SetLogFile`; the flag tells whether the file can be opened.
unfoldable pub set_log_file : Bytes → Bool → Logger → Logger
set_log_file path true logger = record logger { open_file = some path; use_file = true }
set_log_file path false logger = record logger {
  open_file = none;
  use_file = false;
  err = logger.err ++ (utf8 "[Logger] 无法打开日志文件: " ++ (path ++ utf8 "\n"));
}

unfoldable pub time_text : Tm → ℕ → Bytes
unfolding padded
time_text now ms =
    padded 4 (now.tm_year + 1900)
    ++ (b'-'
        ∷ (padded 2 (now.tm_mon + 1)
            ++ (b'-'
                ∷ (padded 2 now.tm_mday
                    ++ (32
                        ∷ (padded 2 now.tm_hour
                            ++ (b':'
                                ∷ (padded 2 now.tm_min
                                    ++ (b':'
                                        ∷ (padded 2 now.tm_sec ++ (b'.' ∷ padded 3 ms)))))))))))

-- The line of an entry.
unfoldable pub log_line : Entry → Bytes
unfolding time_text level_to_str
log_line e =
    time_text e.now e.ms
    ++ (utf8 " ["
        ++ (level_to_str e.level
            ++ (utf8 "] ["
                ++ (e.thread
                    ++ (utf8 "] ["
                        ++ (e.file
                            ++ (utf8 ":"
                                ++ (to_string e.line
                                    ++ (utf8 " "
                                        ++ (e.func
                                            ++ (utf8 "] " ++ (e.message ++ utf8 "\n"))))))))))))

-- The console's part of `Log`, and the file's.
unfoldable pub to_console : Bool → Bytes → Logger → Logger
to_console true line logger = record logger { err = logger.err ++ line }
to_console false line logger = record logger { out = logger.out ++ line }

unfoldable pub to_file : Option Bytes → Bool → Bytes → Logger → Logger
to_file none on line logger = logger
to_file (some path) false line logger = logger
to_file (some path) true line logger = record logger {
  written = logger.written ++ (path, line) ∷ [];
}

-- `Log`
unfoldable pub log : Entry → Logger → Logger
unfolding log_line to_console to_file
log e logger =
    if ltb (severity e.level) (severity logger.level)
    then logger
    else to_file logger.open_file logger.use_file (log_line e)
        (to_console (leb 3 (severity e.level)) (log_line e) logger)

unfoldable pub log_all : List Entry → Logger → Logger
unfolding log
log_all [] logger = logger
log_all (e ∷ es) logger = log_all es (log e logger)

-- The lines of the entries with a property, one behind the other.
abbrev pub lines : (Entry → Bool) → List Entry → Bytes
lines p [] = []
lines p (e ∷ es) = (if p e then log_line e else []) ++ lines p es

abbrev pub file_lines : Bytes → (Entry → Bool) → List Entry → List (Bytes × Bytes)
file_lines path p [] = []
file_lines path p (e ∷ es) = (if p e then (path, log_line e) ∷ [] else []) ++ file_lines path p es

abbrev at_least : LogLevel → Entry → Bool
at_least level e = not (ltb (severity e.level) (severity level))

abbrev pub wanted : Logger → Entry → Bool
wanted logger = at_least logger.level

abbrev pub is_error : Entry → Bool
is_error e = leb 3 (severity e.level)

-- What a call of `Log` changes.
abbrev Logged : Bool → Bool → Option Bytes → Bool → Bytes → Logger → Logger → Type 0
Logged low bad file on line l l' =
    (l'.level ≡ l.level)
    × (l'.open_file ≡ l.open_file)
    × (l'.use_file ≡ l.use_file)
    × (l'.err ≡ l.err ++ (if not low && bad then line else []))
    × (l'.out ≡ l.out ++ (if not low && not bad then line else []))
    × ((path : Bytes)
        → file ≡ some path
        → on ≡ true
        → l'.written ≡ l.written ++ (if not low then (path, line) ∷ [] else []))

logged :
    (low bad : Bool) (file : Option Bytes) (on : Bool) (line : Bytes) (l : Logger)
    → Logged low bad file on line l
        (if low then l else to_file file on line (to_console bad line l))
unfolding to_file to_console
logged true bad file on line l = (
  refl,
  refl,
  refl,
  sym (append-nil l.err),
  sym (append-nil l.out),
  λ p o u. sym (append-nil l.written),
)
logged false true none on line l =
    (refl, refl, refl, refl, sym (append-nil l.out), λ p o u. absurd (cc))
logged false true (some path) false line l =
    (refl, refl, refl, refl, sym (append-nil l.out), λ p o u. absurd (cc))
logged false true (some path) true line l =
    (refl, refl, refl, refl, sym (append-nil l.out), λ p o u. cc)
logged false false none on line l =
    (refl, refl, refl, sym (append-nil l.err), refl, λ p o u. absurd (cc))
logged false false (some path) false line l =
    (refl, refl, refl, sym (append-nil l.err), refl, λ p o u. absurd (cc))
logged false false (some path) true line l =
    (refl, refl, refl, sym (append-nil l.err), refl, λ p o u. cc)

log_step :
    (e : Entry) (l : Logger)
    → Logged
        (ltb (severity e.level) (severity l.level))
        (is_error e)
        l.open_file
        l.use_file
        (log_line e)
        l
        (log e l)
unfolding log
log_step e l =
    logged (ltb (severity e.level) (severity l.level)) (is_error e) l.open_file l.use_file
      (log_line e) l

-- From any logger on, each entry at or above its level is written, in order, to the error stream if it is
-- an error or worse and to the other stream if not, and, while a log file is in use, to the file; no
-- other entry is written.
pub log_all_lem :
    (es : List Entry) (logger : Logger)
    → ((log_all es logger).err ≡ logger.err ++ lines (λ e. wanted logger e && is_error e) es)
      × ((log_all es logger).out
          ≡ logger.out ++ lines (λ e. wanted logger e && not (is_error e)) es)
      × ((path : Bytes)
          → logger.open_file ≡ some path
          → logger.use_file ≡ true
          → (log_all es logger).written ≡ logger.written ++ file_lines path (wanted logger) es)
unfolding log_all
log_all_lem [] logger = (
  sym (append-nil logger.err),
  sym (append-nil logger.out),
  λ path o u. sym (append-nil logger.written),
)
log_all_lem (e ∷ es) logger =
    let (level, file, on, err, out, written) = log_step e logger in
    let (errs, outs, files) = log_all_lem es (log e logger) in
    (
      errs
          ∙ ap₂ (λ t l. t ++ lines (λ x. at_least l x && is_error x) es) err level
          ∙ append_assoc logger.err _ _,
      outs
          ∙ ap₂ (λ t l. t ++ lines (λ x. at_least l x && not (is_error x)) es) out level
          ∙ append_assoc logger.out _ _,
      λ path o u.
          files path (file ∙ o) (on ∙ u)
          ∙ ap₂ (λ w l. w ++ file_lines path (at_least l) es) (written path o u) level
          ∙ append_assoc logger.written _ _,
    )
