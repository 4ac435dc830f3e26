-- ===== src/App/Configs/Retrieved.antt =====
-- What file of the configuration the gateway of apps/gateway/app_main.cpp starts with.
use bm_sbc.Prelude.{
  ℕ, zero, suc, ◌+◌, ◌≤◌, ◌<◌, ◌≡◌, ◌⊎◌, inl, inr, refl, sym, ap, ◌∙◌, true, false, not, Option,
  none, some, List, [], ◌∷◌, append-nil, ◌==◌, ◌||◌, leb, by_if, take, arith,
}
use bm_sbc.Platform.Files.{
  Files, FileOp, replay, replay-append, apply, put, same_text_refl, same_text-ne,
}
use bm_sbc.App.Requests.{service_timeout}
use bm_sbc.App.Requests.Retries.{got_lem}
use bm_sbc.App.InitLog.{
  Paths, WriteCalls, Outcome, returned, thrown, MapReply, config_map_reply_cb, restore_backup,
  restored, write_init_log_file, Copy, completes, throws,
}
use bm_sbc.App.InitLog.Atomic.{Apart, Torn, Ends, whole_text, write_init_log_file_lem}
use bm_sbc.App.Configs.{
  Answer, prepend, after_callback, configs_loop, without_result, or_restore,
  get_mote_system_configs,
}

module _ (p : Paths) (app_name : List ℕ) where
  -- The text that a reply is written as.
  abbrev pub reply_text : WriteCalls → MapReply → List ℕ
  reply_text c r = c.written (whole_text app_name r.entries)

  -- After one callback.
  abbrev CallbackEnds : WriteCalls → Option MapReply → Files → Outcome → Files → Type 0
  CallbackEnds c reply fs (returned true) now =
      (r : MapReply) × (reply ≡ some r)
      × (now p.init_log ≡ some (reply_text c r))
      × (now p.backup ≡ some (reply_text c r))
  CallbackEnds c reply fs (returned false) now =
      (now p.init_log ≡ fs p.init_log) × (now p.backup ≡ fs p.backup)
  CallbackEnds c reply fs thrown now =
      (r : MapReply) × (reply ≡ some r)
      × (now p.init_log ≡ some (reply_text c r))
      × Torn (fs p.backup) (reply_text c r) (now p.backup)

  written-CallbackEnds :
      (c : WriteCalls) (r : MapReply) (fs : Files) (outcome : Outcome) (now : Files)
      → Ends p fs (reply_text c r) outcome now
      → CallbackEnds c (some r) fs outcome now
  written-CallbackEnds c r fs (returned true) now (log, backup, tmp) = (r, refl, log, backup)
  written-CallbackEnds c r fs (returned false) now ends = ends
  written-CallbackEnds c r fs thrown now (log, backup, tmp) = (r, refl, log, backup)

  abbrev Callback : WriteCalls → Option MapReply → Files → Outcome × List FileOp → Type 0
  Callback c reply fs r = CallbackEnds c reply fs r.0 (replay r.1 fs)

  reply_cb-CallbackEnds :
      (c : WriteCalls) (reply : Option MapReply) (fs : Files)
      → Apart p
      → Callback c reply fs (config_map_reply_cb c p app_name reply)
  unfolding config_map_reply_cb replay
  reply_cb-CallbackEnds c none fs apart = (refl, refl)
  reply_cb-CallbackEnds c (some r) fs apart =
      by_if (Callback c (some r) fs) (not r.decodes) _ _ (λ _. (refl, refl))
        (λ _.
          by_if (Callback c (some r) fs) (not r.success || (not r.has_data || r.map_len == 0)) _ _
            (λ _. (refl, refl))
            (λ _.
              let written = write_init_log_file c p app_name r.entries in
              written-CallbackEnds c r fs written.0 (replay written.1 fs)
                (write_init_log_file_lem c p app_name r.entries fs apart).1))

  module _ (answers : ℕ → Answer) where
    -- The file holds the entries of the reply to one of the five requests, and the backup is as is said
    -- of the same text.
    abbrev pub Replied : (List ℕ → Type 0) → Files → Type 0
    Replied Backup now =
        (k : ℕ) × (r : MapReply) × (k < 5)
        × ((answers k).reply ≡ some r)
        × (now p.init_log ≡ some (reply_text (answers k).calls r))
        × Backup (reply_text (answers k).calls r)

    abbrev pub BothReplied : Files → Type 0
    BothReplied now = Replied (λ text. now p.backup ≡ some text) now

    abbrev pub BackupTorn : Files → Files → Type 0
    BackupTorn fs now = Replied (λ text. Torn (fs p.backup) text (now p.backup)) now

    abbrev LoopEnds : Files → Outcome → Files → Type 0
    LoopEnds fs (returned true) now = BothReplied now
    LoopEnds fs (returned false) now =
        (now p.init_log ≡ fs p.init_log) × (now p.backup ≡ fs p.backup)
    LoopEnds fs thrown now = BackupTorn fs now

    abbrev Loop : Files → Outcome × List FileOp → Type 0
    Loop fs r = LoopEnds fs r.0 (replay r.1 fs)

    -- Operations that leave both files alone, in front.
    prepend-Loop :
        (front : List FileOp) (fs : Files) (rest : Outcome × List FileOp)
        → replay front fs p.init_log ≡ fs p.init_log
        → replay front fs p.backup ≡ fs p.backup
        → Loop (replay front fs) rest
        → Loop fs (prepend front rest)
    prepend-Loop front fs (returned true, ops) log backup ends =
        rw (replay-append front ops fs) ends
    prepend-Loop front fs (returned false, ops) log backup ends =
        rw (replay-append front ops fs) (ends.0 ∙ log, ends.1 ∙ backup)
    prepend-Loop front fs (thrown, ops) log backup ends =
        rw (replay-append front ops fs, sym backup) ends

    after_callback-Loop :
        (attempt : ℕ) (fs : Files) (r rest : Outcome × List FileOp)
        → attempt < 5
        → leb (answers attempt).after service_timeout ≡ true
        → Callback (answers attempt).calls (answers attempt).reply fs r
        → ((fs' : Files) → Loop fs' rest)
        → Loop fs (after_callback (answers attempt).after r rest)
    after_callback-Loop attempt fs (returned true, ops) rest lt came (r, is, log, backup) later =
        rw (got_lem service_timeout (some (answers attempt).after) refl ∙ came)
          (attempt, r, lt, is, log, backup)
    after_callback-Loop attempt fs (returned false, ops) rest lt came (log, backup) later =
        prepend-Loop ops fs rest log backup (later (replay ops fs))
    after_callback-Loop attempt fs (thrown, ops) rest lt came (r, is, log, backup) later =
        (attempt, r, lt, is, log, backup)

    configs_loop-Loop :
        (retries attempt : ℕ) (fs : Files)
        → attempt + retries ≤ 5
        → Apart p
        → Loop fs (configs_loop p app_name answers retries attempt)
    unfolding configs_loop replay
    configs_loop-Loop zero attempt fs within apart = (refl, refl)
    configs_loop-Loop (suc retries) attempt fs within apart =
        let a = answers attempt in
        let rest = configs_loop p app_name answers retries (suc attempt) in
        let later : (fs' : Files) → Loop fs' rest =
          λ fs'. configs_loop-Loop retries (suc attempt) fs' (omega arith) apart in
        by_if (Loop fs) (leb a.after service_timeout) _ _
          (λ came.
            after_callback-Loop attempt fs (config_map_reply_cb a.calls p app_name a.reply) rest
              (omega arith) came (reply_cb-CallbackEnds a.calls a.reply fs apart) later)
          (λ _. later fs)

    abbrev pub or_file : Option (List ℕ) → Option (List ℕ) → Option (List ℕ)
    or_file none file = file
    or_file (some bytes) file = some bytes

    -- The file is a copy of the backup that is not finished.
    abbrev pub LogTorn : Files → Files → Type 0
    LogTorn fs now =
        (bytes : List ℕ) × (fs p.backup ≡ some bytes)
        × Torn (fs p.init_log) bytes (now p.init_log)
        × (now p.backup ≡ fs p.backup)

    abbrev pub Starts : Files → Outcome → Files → Type 0
    Starts fs (returned true) now = BothReplied now
    Starts fs (returned false) now =
        (now p.init_log ≡ or_file (fs p.backup) (fs p.init_log)) × (now p.backup ≡ fs p.backup)
    Starts fs thrown now = BackupTorn fs now ⊎ LogTorn fs now

    abbrev pub StartsWith : Files → Outcome × List FileOp → Type 0
    StartsWith fs r = Starts fs r.0 (replay r.1 fs)

    restored-Starts :
        (copies : Copy) (ops : List FileOp) (fs : Files) (backup : Option (List ℕ))
        → Apart p
        → replay ops fs p.backup ≡ backup
        → replay ops fs p.init_log ≡ fs p.init_log
        → replay ops fs p.backup ≡ fs p.backup
        → StartsWith fs (without_result ops (restored copies p backup))
    unfolding apply replay
    restored-Starts copies ops fs none apart is log same =
        rw (append-nil ops) (log ∙ ap (λ f. or_file f (fs p.init_log)) (sym is ∙ same), same)
    restored-Starts completes ops fs (some bytes) apart is log same =
        rw (replay-append ops (put p.init_log [] ∷ put p.init_log bytes ∷ []) fs) (
          ground (
            arith,
            sym is ∙ same,
            same_text_refl p.init_log,
            same_text-ne p.init_log p.backup apart.log-backup,
          ))
    restored-Starts (throws none) ops fs (some bytes) apart is log same =
        rw (append-nil ops) (inr (bytes, sym same ∙ is, inl log, same))
    restored-Starts (throws (some n)) ops fs (some bytes) apart is log same =
        rw (replay-append ops (put p.init_log [] ∷ put p.init_log (take n bytes) ∷ []) fs) (
          inr (
            bytes,
            sym same ∙ is,
            inr (n, ground (arith, same_text_refl p.init_log)),
            ground (arith, same, same_text-ne p.init_log p.backup apart.log-backup),
          ))

    or_restore-Starts :
        (copies : Copy) (fs : Files) (r : Outcome × List FileOp)
        → Apart p
        → Loop fs r
        → StartsWith fs (or_restore copies p fs r)
    unfolding restore_backup
    or_restore-Starts copies fs (returned true, ops) apart ends = ends
    or_restore-Starts copies fs (returned false, ops) apart (log, backup) =
        restored-Starts copies ops fs (replay ops fs p.backup) apart refl log backup
    or_restore-Starts copies fs (thrown, ops) apart torn = inl torn

    -- Whatever comes in answer to the five requests, and whatever the calls return: if the flag is set at
    -- the end, the file of the configuration holds the name of the program and a line for every entry of
    -- one of the replies, as far as fprintf and fputs write them, and the backup holds the same. If it is
    -- not, the file is the backup where there is one, and else as it was, and the backup is as it was.
    -- Where a copy throws, either the file is that of a reply and the backup as it was or the first bytes
    -- of the same text, or the file is as it was or the first bytes of the backup, which is as it was.
    pub configs_retrieved :
        (copies : Copy) (fs : Files)
        → Apart p
        → StartsWith fs (get_mote_system_configs p app_name answers copies fs)
    unfolding get_mote_system_configs
    configs_retrieved copies fs apart =
        or_restore-Starts copies fs (configs_loop p app_name answers 5 0) apart
          (configs_loop-Loop 5 0 fs (omega arith) apart)
