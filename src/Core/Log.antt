-- ===== src/Core/Log.antt =====
-- src/core/bm_log.c: the logger. A step takes what the calls in it return (a file handle is a number),
-- and gives the state afterwards and what it does to files and streams, in order.
pub mod Line
pub mod Files
use bm_sbc.Prelude.{
  ℕ, ◌+◌, ◌-◌, Bool, true, false, not, Option, none, some, List, [], ◌∷◌, ◌++◌, ltb, leb, ◌==◌,
  if◌then◌else◌, length, set, take, c_string,
}
use bm_sbc.Net.VirtualPort.SockPath.{hex_digits}

-- BM_LOG_BUF_SIZE, and the size of the array for a line.
abbrev pub buf_size : ℕ
buf_size = 1024

abbrev pub line_size : ℕ
line_size = buf_size + 256

-- The static variables.
pub record Logger : Type 0 where
  pub log_fp : Option ℕ
  pub log_path : List ℕ
  pub prefix : List ℕ
  pub min_level : ℕ
  pub also_stdout : Bool
  pub initialized : Bool
  pub reopen_flag : Bool

-- Calls that others see; an opening stands with the file that it yields.
pub data LogEvent : Type 0 where
  open_append : List ℕ → Option ℕ → LogEvent
  make_dir : List ℕ → LogEvent
  close_file : ℕ → LogEvent
  write_file : ℕ → List ℕ → LogEvent
  write_stdout write_stderr : List ℕ → LogEvent

abbrev pub default_dir : List ℕ
default_dir =
    b'/' ∷ b'v' ∷ b'a' ∷ b'r' ∷ b'/' ∷ b'l' ∷ b'o' ∷ b'g' ∷ b'/' ∷ b'b' ∷ b'm' ∷ b'_' ∷ b's' ∷ b'b'
    ∷ b'c' ∷ []

abbrev pub default_name : List ℕ
default_name = b'b' ∷ b'm' ∷ b'_' ∷ b's' ∷ b'b' ∷ b'c' ∷ []

abbrev pub node_text : List ℕ
node_text = b' ' ∷ b'n' ∷ b'o' ∷ b'd' ∷ b'e' ∷ b'=' ∷ b'0' ∷ b'x' ∷ []

abbrev pub log_text : List ℕ
log_text = b'.' ∷ b'l' ∷ b'o' ∷ b'g' ∷ []

abbrev pub given_or : List ℕ → Option (List ℕ) → List ℕ
given_or default none = default
given_or default (some text) = text

-- The two calls of `snprintf` in `bm_log_init`, into 128 and 512 bytes.
pub prefix_of : List ℕ → ℕ → List ℕ
prefix_of app_name node_id =
    take 127 (b'[' ∷ (app_name ++ (node_text ++ (hex_digits 16 node_id ++ (b']' ∷ b' ' ∷ [])))))

pub path_of : List ℕ → List ℕ → ℕ → List ℕ
path_of log_dir app_name node_id =
    take 511 (log_dir ++ (b'/' ∷ (app_name ++ (b'_' ∷ (hex_digits 16 node_id ++ log_text)))))

abbrev pub is_open : Option ℕ → Bool
is_open none = false
is_open (some fp) = true

-- `bm_log_init`: the state, whether 0 is returned, and the events; `opened` is what `fopen` returns.
pub bm_log_init :
    Option (List ℕ) → ℕ → Option (List ℕ) → Bool → Option ℕ → Logger → Logger × Bool × List LogEvent
bm_log_init app_name node_id log_dir also_stdout opened s =
    let name = given_or default_name app_name in
    let dir = given_or default_dir log_dir in
    (
      record s {
        prefix = prefix_of name node_id;
        log_path = path_of dir name node_id;
        log_fp = opened;
        also_stdout = (if is_open opened then also_stdout else true);
        initialized = true;
      },
      is_open opened,
      make_dir dir ∷ open_append (path_of dir name node_id) opened ∷ [],
    )

-- `bm_log_set_level`.
pub bm_log_set_level : ℕ → Logger → Logger
bm_log_set_level level s = record s { min_level = level }

-- `sighup_handler`.
pub sighup_handler : Logger → Logger
sighup_handler s = record s { reopen_flag = true }

-- Closing the file and opening it again, if it is open.
pub reopen : Option ℕ → Logger → Logger × List LogEvent
reopen opened s = elim s.log_fp [
  | none ↦ (s, [])
  | some fp ↦ (record s { log_fp = opened }, close_file fp ∷ open_append s.log_path opened ∷ [])
]

-- The test of the flag in `bm_log`.
abbrev pub reopen_if_asked : Option ℕ → Logger → Logger × List LogEvent
reopen_if_asked opened s =
    if s.reopen_flag then reopen opened (record s { reopen_flag = false }) else (s, [])

-- The newlines at the end are dropped.
pub strip_newlines : List ℕ → List ℕ
strip_newlines [] = []
strip_newlines (c ∷ cs) = elim (strip_newlines cs) [
  | [] ↦ if c == b'\n' then [] else c ∷ []
  | ◌∷◌ d ds ↦ c ∷ d ∷ ds
]

-- `msgbuf`: the formatted message, cut to its array, without the newlines at its end.
pub message : List ℕ → List ℕ
message formatted = c_string (strip_newlines (take (buf_size - 1) formatted))

-- `k_level_names[level_idx]`.
pub level_name : ℕ → List ℕ
level_name level =
    if level == 0
    then b'T' ∷ b'R' ∷ b'A' ∷ b'C' ∷ b'E' ∷ []
    else if level == 1
    then b'D' ∷ b'E' ∷ b'B' ∷ b'U' ∷ b'G' ∷ []
    else if level == 3
    then b'W' ∷ b'A' ∷ b'R' ∷ b'N' ∷ b' ' ∷ []
    else if level == 4
    then b'E' ∷ b'R' ∷ b'R' ∷ b'O' ∷ b'R' ∷ []
    else if level == 5
    then b'F' ∷ b'A' ∷ b'T' ∷ b'A' ∷ b'L' ∷ []
    else b'I' ∷ b'N' ∷ b'F' ∷ b'O' ∷ b' ' ∷ []

-- A line in an array of `size` bytes: if it does not fit, its last character becomes a newline.
pub fit_line : ℕ → List ℕ → List ℕ
fit_line size whole =
    if leb size (length whole) then set (take (size - 1) whole) (size - 2) b'\n' else whole

-- `line`, up to `total`: `stamp` is the time as `format_timestamp` writes it.
pub log_line : List ℕ → ℕ → List ℕ → List ℕ → List ℕ
log_line stamp level prefix formatted =
    fit_line line_size (
      stamp
      ++ (b' ' ∷ (level_name level ++ (b' ' ∷ (prefix ++ (message formatted ++ b'\n' ∷ []))))))

abbrev pub to_file : Option ℕ → List ℕ → List LogEvent
to_file none line = []
to_file (some fp) line = write_file fp line ∷ []

abbrev pub emit : List ℕ → Logger → List LogEvent
emit line s = to_file s.log_fp line ++ (if s.also_stdout then write_stdout line ∷ [] else [])

-- `bm_log`: `formatted` is the message as the format makes it, `opened` what `fopen` returns if it is
-- called.
pub bm_log : List ℕ → Option ℕ → ℕ → List ℕ → Logger → Logger × List LogEvent
bm_log stamp opened level formatted s =
    if ltb level s.min_level
    then (s, [])
    else if not s.initialized
    then (s, write_stderr formatted ∷ [])
    else let (s', events) = reopen_if_asked opened s in
      (s', events ++ emit (log_line stamp level s'.prefix formatted) s')

-- `bm_log_reopen`.
pub bm_log_reopen : Option ℕ → Logger → Logger × List LogEvent
bm_log_reopen opened s = reopen opened s

-- `bm_log_shutdown`.
pub bm_log_shutdown : Logger → Logger × List LogEvent
bm_log_shutdown s = elim s.log_fp [
  | none ↦ (record s { initialized = false }, [])
  | some fp ↦ (record s { log_fp = none; initialized = false }, close_file fp ∷ [])
]
