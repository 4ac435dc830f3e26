-- ===== src/Core/Log/Files.antt =====
-- What the logger does to its file.
use bm_sbc.Prelude.{
  ℕ, ◌≤◌, ◌<◌, ◌≡◌, refl, ap, ◌∙◌, Bool, true, false, not, Option, none, some, Option-cases, inl,
  inr, List, [], ◌∷◌, ◌++◌, ltb, ◌==◌, ◌&&◌, if◌then◌else◌, by_if, arith,
}
use bm_sbc.Core.Log.{
  Logger, LogEvent, open_append, make_dir, close_file, write_file, write_stdout, write_stderr,
  is_open, emit, log_line, reopen, reopen_if_asked, bm_log_init, bm_log_set_level, sighup_handler,
  bm_log, bm_log_reopen, bm_log_shutdown,
}

-- The file that is open after some calls, or `none` at the first that misuses it: a write or a close
-- of another than the open one, or an opening while one is open.
abbrev pub use_file : Option ℕ → LogEvent → Option (Option ℕ)
use_file none (open_append path opened) = some opened
use_file (some fp) (open_append path opened) = none
use_file none (close_file fp) = none
use_file (some open_fp) (close_file fp) = if open_fp == fp then some none else none
use_file none (write_file fp line) = none
use_file (some open_fp) (write_file fp line) = if open_fp == fp then some (some open_fp) else none
use_file cur (make_dir dir) = some cur
use_file cur (write_stdout line) = some cur
use_file cur (write_stderr text) = some cur

pub use_files : Option ℕ → List LogEvent → Option (Option ℕ)
use_files cur [] = some cur
use_files cur (e ∷ es) = elim (use_file cur e) [ none ↦ none | some cur' ↦ use_files cur' es ]

use_files-append :
    (cur mid : Option ℕ) (xs ys : List LogEvent)
    → use_files cur xs ≡ some mid
    → use_files cur (xs ++ ys) ≡ use_files mid ys
unfolding use_files
use_files-append cur mid [] ys e = ap (λ o. use_files o ys) (some_injective e)
  where
    some_injective : some cur ≡ some mid → cur ≡ mid
    some_injective e = cc
use_files-append cur mid (x ∷ xs) ys e = go (use_file cur x) (λ c. use_files-append c mid xs ys) e
  where
    go :
        (o : Option (Option ℕ))
        → ((c : Option ℕ) → use_files c xs ≡ some mid → use_files c (xs ++ ys) ≡ use_files mid ys)
        → elim o as (λ x'. Option (Option ℕ)) [ none ↦ none | some c ↦ use_files c xs ] ≡ some mid
        → elim o as (λ x'. Option (Option ℕ)) [ none ↦ none | some c ↦ use_files c (xs ++ ys) ]
          ≡ use_files mid ys
    go none k e = cc
    go (some c) k e = k c e

pub data LogCall : Type 0 where
  log_call : List ℕ → Option ℕ → ℕ → List ℕ → LogCall
  level_call : ℕ → LogCall
  reopen_call : Option ℕ → LogCall
  sighup shutdown : LogCall

pub perform : LogCall → Logger → Logger × List LogEvent
perform (log_call stamp opened level formatted) s = bm_log stamp opened level formatted s
perform (level_call level) s = (bm_log_set_level level s, [])
perform (reopen_call opened) s = bm_log_reopen opened s
perform sighup s = (sighup_handler s, [])
perform shutdown s = bm_log_shutdown s

pub run : List LogCall → Logger → Logger × List LogEvent
run [] s = (s, [])
run (c ∷ cs) s =
    let (s', events) = perform c s in let (s'', later) = run cs s' in (s'', events ++ later)

same : (fp : ℕ) → (fp == fp) ≡ true
same fp = ground arith

close_use :
    (fp : ℕ) (es : List LogEvent) → use_files (some fp) (close_file fp ∷ es) ≡ use_files none es
unfolding use_files
close_use fp es = ground (arith, same fp)

write_use :
    (fp : ℕ) (line : List ℕ) (es : List LogEvent)
    → use_files (some fp) (write_file fp line ∷ es) ≡ use_files (some fp) es
unfolding use_files
write_use fp line es = ground (arith, same fp)

reopen-use :
    (opened : Option ℕ) (s : Logger)
    → use_files s.log_fp (reopen opened s).1 ≡ some (reopen opened s).0.log_fp
unfolding use_files reopen
reopen-use opened s = elim (Option-cases s.log_fp) [
  | inl e ↦ rw e refl
  | inr (fp, e) ↦ rw e (close_use fp (open_append s.log_path opened ∷ []))
]

-- A step that uses the file well.
abbrev UsesWell : Option ℕ → Logger × List LogEvent → Type 0
UsesWell cur r = use_files cur r.1 ≡ some r.0.log_fp

emit-use : (line : List ℕ) (s : Logger) → use_files s.log_fp (emit line s) ≡ some s.log_fp
unfolding use_files
emit-use line s = elim (Option-cases s.log_fp) [
  | inl e ↦ rw e (
      by_if (λ es. use_files none es ≡ some none) s.also_stdout (write_stdout line ∷ []) []
        (λ t. refl) (λ f. refl))
  | inr (fp, e) ↦ rw e (
      write_use fp line (if s.also_stdout then write_stdout line ∷ [] else [])
      ∙ by_if (λ es. use_files (some fp) es ≡ some (some fp)) s.also_stdout (write_stdout line ∷ [])
          [] (λ t. refl) (λ f. refl))
]

reopen_if_asked-use :
    (opened : Option ℕ) (s : Logger) → UsesWell s.log_fp (reopen_if_asked opened s)
unfolding use_files
reopen_if_asked-use opened s =
    by_if {A = Logger × List LogEvent} (UsesWell s.log_fp) s.reopen_flag _ _
      (λ t. reopen-use opened (record s { reopen_flag = false })) (λ f. refl)

bm_log-use :
    (stamp : List ℕ) (opened : Option ℕ) (level : ℕ) (formatted : List ℕ) (s : Logger)
    → UsesWell s.log_fp (bm_log stamp opened level formatted s)
unfolding use_files bm_log
bm_log-use stamp opened level formatted s =
    by_if {A = Logger × List LogEvent} (UsesWell s.log_fp) (ltb level s.min_level) _ _ (λ t. refl)
      (λ f.
        by_if {A = Logger × List LogEvent} (UsesWell s.log_fp) (not s.initialized) _ _ (λ t. refl)
          (λ f.
            let r = reopen_if_asked opened s in
            let line = log_line stamp level r.0.prefix formatted in
            use_files-append s.log_fp r.0.log_fp r.1 (emit line r.0) (reopen_if_asked-use opened s)
            ∙ emit-use line r.0))

shutdown-use : (s : Logger) → UsesWell s.log_fp (bm_log_shutdown s)
unfolding use_files bm_log_shutdown
shutdown-use s = elim (Option-cases s.log_fp) [
  | inl e ↦ rw e refl
  | inr (fp, e) ↦ rw e (close_use fp [])
]

perform-use : (c : LogCall) (s : Logger) → UsesWell s.log_fp (perform c s)
unfolding perform use_files bm_log_set_level sighup_handler bm_log_reopen
perform-use (log_call stamp opened level formatted) s = bm_log-use stamp opened level formatted s
perform-use (level_call level) s = refl
perform-use (reopen_call opened) s = reopen-use opened s
perform-use sighup s = refl
perform-use shutdown s = shutdown-use s

run-use : (cs : List LogCall) (s : Logger) → UsesWell s.log_fp (run cs s)
unfolding run use_files
run-use [] s = refl
run-use (c ∷ cs) s =
    use_files-append s.log_fp (perform c s).0.log_fp (perform c s).1 _ (perform-use c s)
    ∙ run-use cs (perform c s).0

-- After `bm_log_init` of a logger without an open file, and any calls after that, with signals for
-- rotation in between, the logger has written to and closed no file but the one that was open, has
-- never opened one while another was open, and holds the one that is open at the end.
pub bm_log_init-run :
    (app_name log_dir : Option (List ℕ)) (node_id : ℕ) (also_stdout : Bool) (opened : Option ℕ)
    (s : Logger) (cs : List LogCall)
    → s.log_fp ≡ none
    → let (s1, done, first) = bm_log_init app_name node_id log_dir also_stdout opened s in
      let (s2, later) = run cs s1 in use_files s.log_fp (first ++ later) ≡ some s2.log_fp
unfolding bm_log_init use_files
bm_log_init-run app_name log_dir node_id also_stdout opened s cs e =
    rw e (run-use cs (bm_log_init app_name node_id log_dir also_stdout opened s).0)

reopen_if_asked-state :
    (opened : Option ℕ) (s : Logger)
    → let (s', events) = reopen_if_asked opened s in
      (s'.reopen_flag ≡ false)
      × (s'.log_fp ≡ (if s.reopen_flag && is_open s.log_fp then opened else s.log_fp))
      × (s'.prefix ≡ s.prefix)
      × (s.reopen_flag ≡ false → events ≡ [])
unfolding reopen
reopen_if_asked-state opened s = ground arith

bm_log-on :
    (stamp : List ℕ) (opened : Option ℕ) (level : ℕ) (formatted : List ℕ) (s : Logger)
    → s.initialized ≡ true
    → s.min_level ≤ level
    → bm_log stamp opened level formatted s ≡ (
      (reopen_if_asked opened s).0,
      (reopen_if_asked opened s).1
          ++ emit
              (log_line stamp level (reopen_if_asked opened s).0.prefix formatted)
              (reopen_if_asked opened s).0,
    )
unfolding bm_log
bm_log-on stamp opened level formatted s i le =
    let low : ltb level s.min_level ≡ false = ground arith in rw (low, i) refl

-- A message under the level has no effect. Any other, on a logger that is initialised, puts one and
-- the same line on the file, if there is one, and on the standard output, if asked for; before that
-- the file is closed and opened again if a signal came since the last message, and only then.
pub bm_log_lem :
    (stamp : List ℕ) (opened : Option ℕ) (level : ℕ) (formatted : List ℕ) (s : Logger)
    → s.initialized ≡ true
    → let (s', events) = bm_log stamp opened level formatted s in
      (level < s.min_level → (s' ≡ s) × (events ≡ []))
      × (s.min_level ≤ level
          → (s'.reopen_flag ≡ false)
            × (s'.log_fp ≡ (if s.reopen_flag && is_open s.log_fp then opened else s.log_fp))
            × ((before : List LogEvent) × (events
                  ≡ before ++ emit (log_line stamp level s.prefix formatted) s')
                × (s.reopen_flag ≡ false → before ≡ [])))
unfolding bm_log reopen
bm_log_lem stamp opened level formatted s i =
    let r = reopen_if_asked opened s in
    let kept = reopen_if_asked-state opened s in
    (
      λ lt. ground arith,
      λ le. rw (bm_log-on stamp opened level formatted s i le) (
        kept.0,
        kept.1,
        (r.1, ap (λ p. r.1 ++ emit (log_line stamp level p formatted) r.0) kept.2, kept.3),
      ),
    )
