-- ===== src/App/SbcCommand/Once.antt =====
-- When the command is run, and how often.
use bm_sbc.Prelude.{
  ℕ, ◌+◌, ◌-◌, ◌≡◌, refl, ap, Bool, true, false, Option, none, some, List, [], ◌++◌, ◌==◌, ◌&&◌,
  if◌then◌else◌, length, take-length, length-append, ◌<◌, drop, c_string, starts_with, zero, suc,
  replicate, ltb, leb, ◌||◌, by_if, arith,
}
use bm_sbc.App.SbcCommand.{
  Context, Status, not_run, exited, signalled, AppEvent, exec_text, start_text, stop_text,
  skip_blanks, register_sbc_undo, after_run, run_sbc_command, sbc_command_reply_cb, copied,
}

-- The command has been run exactly if there is one and the time is known.
abbrev pub IsSettled : Context → Type 0
IsSettled s = s.sbc_command_ran ≡ (s.system_time_synced && s.sbc_command_received)

abbrev pub runs : Bool → ℕ
runs true = 1
runs false = 0

abbrev pub Keeps : Context → Context × List AppEvent → Type 0
Keeps s r = IsSettled r.0 × (length r.1 + runs s.sbc_command_ran ≡ runs r.0.sbc_command_ran)

undo_flags :
    (size : ℕ) (cmd : List ℕ) (s : Context)
    → let s' = register_sbc_undo size cmd s in
      (s'.sbc_command_ran ≡ s.sbc_command_ran)
      × (s'.system_time_synced ≡ s.system_time_synced)
      × (s'.sbc_command_received ≡ s.sbc_command_received)
unfolding register_sbc_undo
undo_flags size cmd s = ground arith

after_run_flags :
    (size : ℕ) (status : Status) (cmd : List ℕ) (s : Context)
    → let s' = after_run size status cmd s in
      (s'.sbc_command_ran ≡ s.sbc_command_ran)
      × (s'.system_time_synced ≡ s.system_time_synced)
      × (s'.sbc_command_received ≡ s.sbc_command_received)
after_run_flags size not_run cmd s = (refl, refl, refl)
after_run_flags size (exited code) cmd s = ground (arith, undo_flags size cmd s)
after_run_flags size (signalled signal) cmd s = (refl, refl, refl)

-- Called where a flag may just have been set.
pub run_sbc_command-Keeps :
    (size : ℕ) (status : Status) (s : Context)
    → (s.sbc_command_ran ≡ true → (s.system_time_synced && s.sbc_command_received) ≡ true)
    → Keeps s (run_sbc_command size status s)
unfolding run_sbc_command
run_sbc_command-Keeps size status s h = ground (
  arith,
  after_run_flags size status (c_string s.sbc_command) (record s { sbc_command_ran = true }),
)

-- Running the command leaves the rest as it is.
pub run_sbc_command-flags :
    (size : ℕ) (status : Status) (s : Context)
    → ((run_sbc_command size status s).0.system_time_synced ≡ s.system_time_synced)
      × ((run_sbc_command size status s).0.sbc_command_received ≡ s.sbc_command_received)
unfolding run_sbc_command
run_sbc_command-flags size status s = ground (
  arith,
  after_run_flags size status (c_string s.sbc_command) (record s { sbc_command_ran = true }),
)

abbrev pub KeepsIf : Context → Option (Context × List AppEvent) → Type 0
KeepsIf s none = Unit
KeepsIf s (some r) = Keeps s r × (r.0.system_time_synced ≡ s.system_time_synced)

-- A reply leaves the knowledge of the time as it is.
pub reply-KeepsIf :
    (size : ℕ) (decoded : Option (List ℕ)) (status : Status) (s : Context)
    → IsSettled s
    → KeepsIf s (sbc_command_reply_cb size decoded status s)
unfolding sbc_command_reply_cb
reply-KeepsIf size none status s h = ((h, omega arith), refl)
reply-KeepsIf size (some text) status s h =
    let s' : Context = record s { sbc_command_received = true; sbc_command = copied text s } in
    by_if (KeepsIf s) (length text == 0) _ _ (λ e. ((h, omega arith), refl))
      (λ e.
        by_if (KeepsIf s) (ltb size (length text) || leb size (length (c_string (copied text s)))) _
          _ (λ over. tt)
          (λ fits. (
            run_sbc_command-Keeps size status s' (ground arith),
            (run_sbc_command-flags size status s').0,
          )))

-- A command that starts services: "exec " or not, any number of blanks, "systemctl start ", and the
-- services.
abbrev pub start_command : Bool → ℕ → List ℕ → List ℕ
start_command with_exec blanks services =
    (if with_exec then exec_text else []) ++ (replicate blanks b' ' ++ (start_text ++ services))

skip_blanks-replicate :
    (n : ℕ) (services : List ℕ)
    → skip_blanks (replicate n b' ' ++ (start_text ++ services)) ≡ start_text ++ services
unfolding skip_blanks
skip_blanks-replicate zero services = refl
skip_blanks-replicate (suc n) services = skip_blanks-replicate n services

no_exec :
    (n : ℕ) (services : List ℕ)
    → starts_with exec_text (replicate n b' ' ++ (start_text ++ services)) ≡ false
unfolding starts_with
no_exec zero services = refl
no_exec (suc n) services = refl

-- What follows "exec ", if it stands in front.
without_exec :
    (with_exec : Bool) (n : ℕ) (services : List ℕ)
    → (if starts_with exec_text (start_command with_exec n services)
        then drop 5 (start_command with_exec n services)
        else start_command with_exec n services)
      ≡ replicate n b' ' ++ (start_text ++ services)
unfolding starts_with
without_exec true n services = refl
without_exec false n services = rw (no_exec n services) refl

-- Such a command is undone by "systemctl stop" with the same services, if that fits the array; and the
-- undoing is installed.
pub register_sbc_undo_lem :
    (size : ℕ) (with_exec : Bool) (blanks : ℕ) (services : List ℕ) (s : Context)
    → length services + 15 < size
    → register_sbc_undo size (start_command with_exec blanks services) s
      ≡ record s { sbc_undo_command = stop_text ++ services; pre_exec_cb = true }
unfolding register_sbc_undo starts_with
register_sbc_undo_lem size with_exec blanks services s h =
    let whole =
      take-length (size - 1) (stop_text ++ services)
        (omega (arith, length-append stop_text services)) in
    rw (without_exec with_exec blanks services, skip_blanks-replicate blanks services)
      (ap (λ t. record s { sbc_undo_command = t; pre_exec_cb = true }) whole)
