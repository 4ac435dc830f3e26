-- ===== src/App/InitLog/Atomic.antt =====
-- The file with the mote's configuration is whole, old or new: apps/gateway/app_main.cpp.
use bm_sbc.Prelude.{
  ℕ, ◌≡◌, ◌≢◌, ◌⊎◌, refl, sym, true, false, none, some, List, [], ◌∷◌, ◌++◌, c_string, Option, take,
  arith,
}
use bm_sbc.Platform.Files.{Files, FileOp, apply, replay, Always, same_text_refl, same_text-ne}
use bm_sbc.App.InitLog.{
  Entry, entry_line, print_entries, Paths, WriteCalls, Outcome, returned, thrown, app_text,
  line_end, print_all, write_init_log_file,
}

-- The lines of all entries.
pub all_lines : List Entry → List ℕ
all_lines [] = []
all_lines (e ∷ entries) = elim e.key [
  | none ↦ []
  | some key ↦ entry_line key e.value ++ all_lines entries
]

printed_all :
    (entries : List Entry)
    → (print_entries entries).0 ≡ true
    → (print_entries entries).1 ≡ all_lines entries
unfolding print_entries all_lines
printed_all [] ok = refl
printed_all (e ∷ entries) ok = ground (arith, printed_all entries)

pub record Apart (p : Paths) : Type 0 where
  pub log-tmp : p.init_log ≢ p.tmp
  pub log-backup : p.init_log ≢ p.backup
  pub tmp-backup : p.tmp ≢ p.backup

abbrev pub whole_text : List ℕ → List Entry → List ℕ
whole_text app_name entries = app_text ++ (c_string app_name ++ (line_end ++ all_lines entries))

-- A target that a copy has left unfinished: as it was, or the first bytes of the text.
abbrev pub Torn : Option (List ℕ) → List ℕ → Option (List ℕ) → Type 0
Torn old text now = (now ≡ old) ⊎ ((n : ℕ) × (now ≡ some (take n text)))

-- What the files are when the call is over.
abbrev pub Ends : Paths → Files → List ℕ → Outcome → Files → Type 0
Ends p fs text (returned true) now =
    (now p.init_log ≡ some text) × (now p.backup ≡ some text) × (now p.tmp ≡ none)
Ends p fs text (returned false) now =
    (now p.init_log ≡ fs p.init_log) × (now p.backup ≡ fs p.backup)
Ends p fs text thrown now =
    (now p.init_log ≡ some text) × Torn (fs p.backup) text (now p.backup) × (now p.tmp ≡ none)

module _ (c : WriteCalls) (p : Paths) (app_name : List ℕ) (entries : List Entry) (fs : Files) where
  abbrev pub Written : Outcome × List FileOp → Type 0
  Written r =
      Always
        (λ now.
          (now p.init_log ≡ fs p.init_log)
          ⊎ (now p.init_log ≡ some (c.written (whole_text app_name entries))))
        r.1 fs
      × Ends p fs (c.written (whole_text app_name entries)) r.0 (replay r.1 fs)

  all_or_nothing :
      (print_all c app_name entries).0 ≡ true
      → (print_all c app_name entries).1 ≡ whole_text app_name entries
  unfolding print_all
  all_or_nothing ok = ground (arith, printed_all entries)

  -- Whatever the calls of the CBOR library and of the system return, and at whichever of the calls on
  -- the files the process stops, the file of the configuration is what it was, or holds the name of
  -- the program and a line for every entry of the map, as far as fprintf and fputs write them. It is
  -- the latter, and the backup too, if true is returned; if false is returned, both are as they were.
  -- The one other end is that of a copy to the backup that throws: the new file is in place, and the
  -- backup is as it was or holds the first bytes of the new text.
  pub write_init_log_file_lem : Apart p → Written (write_init_log_file c p app_name entries)
  unfolding write_init_log_file apply replay
  write_init_log_file_lem apart = ground (
    arith,
    all_or_nothing,
    same_text_refl p.tmp,
    same_text_refl p.init_log,
    same_text_refl p.backup,
    same_text-ne p.tmp p.init_log (λ e. apart.log-tmp (sym e)),
    same_text-ne p.init_log p.tmp apart.log-tmp,
    same_text-ne p.tmp p.backup apart.tmp-backup,
    same_text-ne p.backup p.tmp (λ e. apart.tmp-backup (sym e)),
    same_text-ne p.init_log p.backup apart.log-backup,
    same_text-ne p.backup p.init_log (λ e. apart.log-backup (sym e)),
  )
