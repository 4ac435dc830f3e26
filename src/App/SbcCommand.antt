-- ===== src/App/SbcCommand.antt =====
-- apps/gateway/app_main.cpp: the command that the gateway runs once it has it and knows the time, and
-- what undoes it.
pub mod Once
use bm_sbc.Prelude.{
  ℕ, ◌-◌, Bool, true, false, not, Option, none, some, List, [], ◌∷◌, ◌++◌, ◌==◌, ◌&&◌, ◌||◌, ltb,
  leb, if◌then◌else◌, length, take, drop, c_string, starts_with,
}

-- What of CONTEXT and of the static variables the command needs; `sbc_command` is the array.
pub record Context : Type 0 where
  pub sbc_command_received : Bool
  pub system_time_synced : Bool
  pub sbc_command : List ℕ
  pub sbc_command_ran : Bool
  pub sbc_undo_command : List ℕ
  pub pre_exec_cb : Bool

-- What `system` returns: -1, an exit code, a signal.
pub data Status : Type 0 where
  not_run : Status
  exited signalled : ℕ → Status

pub data AppEvent : Type 0 where
  run_command : List ℕ → AppEvent

abbrev pub exec_text : List ℕ
exec_text = b'e' ∷ b'x' ∷ b'e' ∷ b'c' ∷ b' ' ∷ []

abbrev pub start_text : List ℕ
start_text =
    b's' ∷ b'y' ∷ b's' ∷ b't' ∷ b'e' ∷ b'm' ∷ b'c' ∷ b't' ∷ b'l' ∷ b' ' ∷ b's' ∷ b't' ∷ b'a' ∷ b'r'
    ∷ b't' ∷ b' ' ∷ []

abbrev pub stop_text : List ℕ
stop_text =
    b's' ∷ b'y' ∷ b's' ∷ b't' ∷ b'e' ∷ b'm' ∷ b'c' ∷ b't' ∷ b'l' ∷ b' ' ∷ b's' ∷ b't' ∷ b'o' ∷ b'p'
    ∷ b' ' ∷ []

pub skip_blanks : List ℕ → List ℕ
skip_blanks [] = []
skip_blanks (c ∷ cs) = let rest = skip_blanks cs in if c == b' ' then rest else c ∷ cs

-- `register_sbc_undo`; `size` is MAX_STR_LEN_BYTES of the stack.
pub register_sbc_undo : ℕ → List ℕ → Context → Context
register_sbc_undo size cmd s =
    let p = skip_blanks (if starts_with exec_text cmd then drop 5 cmd else cmd) in
    if starts_with start_text p
    then record s {
      sbc_undo_command = take (size - 1) (stop_text ++ drop 16 p);
      pre_exec_cb = true;
    }
    else s

abbrev pub after_run : ℕ → Status → List ℕ → Context → Context
after_run size not_run cmd s = s
after_run size (exited code) cmd s = if not (code == 0) then s else register_sbc_undo size cmd s
after_run size (signalled signal) cmd s = s

-- `run_sbc_command`.
unfoldable pub run_sbc_command : ℕ → Status → Context → Context × List AppEvent
run_sbc_command size status s =
    if s.system_time_synced && (not s.sbc_command_ran && s.sbc_command_received)
    then (
      after_run size status (c_string s.sbc_command) (record s { sbc_command_ran = true }),
      run_command (c_string s.sbc_command) ∷ [],
    )
    else (s, [])

-- `memcpy(CONTEXT.sbc_command, ...)`.
abbrev pub copied : List ℕ → Context → List ℕ
copied text s = text ++ drop (length text) s.sbc_command

-- `sbc_command_reply_cb`: `decoded` is the text of the reply, `none` where it does not decode. Nothing
-- is said, by `none`, of a reply that is written beyond the array, or leaves it without a terminator.
unfoldable pub sbc_command_reply_cb :
    ℕ → Option (List ℕ) → Status → Context → Option (Context × List AppEvent)
sbc_command_reply_cb size none status s = some (s, [])
sbc_command_reply_cb size (some text) status s =
    if length text == 0
    then some (s, [])
    else if ltb size (length text) || leb size (length (c_string (copied text s)))
    then none
    else some (
        run_sbc_command size status
          (record s { sbc_command_received = true; sbc_command = copied text s }))

-- The context at the start; the array holds zeros.
abbrev pub context : Context
context = record {
  sbc_command_received = false;
  system_time_synced = false;
  sbc_command = [];
  sbc_command_ran = false;
  sbc_undo_command = [];
  pre_exec_cb = false;
}
