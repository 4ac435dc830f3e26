-- ===== src/Core/PcapSink.antt =====
-- src/core/pcap_file_sink.cpp: the file that captured packets go to. Each function is one step under the
-- lock. A handle of a file is a number; `opened` is what `fopen` returns.
use bm_sbc.Prelude.{ℕ, ◌≡◌, refl, ap, Bool, true, false, Option, none, some, List, [], ◌∷◌, ◌++◌}

pub data PcapEvent : Type 0 where
  open_write : List ℕ → Option ℕ → PcapEvent
  write : ℕ → List ℕ → PcapEvent
  close : ℕ → PcapEvent
  pcap_init : PcapEvent

-- `file_write_cb`, on `s_file`.
pub file_write_cb : List ℕ → Option ℕ → Option ℕ × List PcapEvent
file_write_cb bytes none = (none, [])
file_write_cb bytes (some fp) = (some fp, write fp bytes ∷ [])

abbrev pub init_if : Option ℕ → List PcapEvent
init_if none = []
init_if (some fp) = pcap_init ∷ []

abbrev pub is_open : Option ℕ → Bool
is_open none = false
is_open (some fp) = true

-- `pcap_file_sink_open`: the handle, whether 0 is returned, the events. A file that is open stays so,
-- without a handle.
pub pcap_file_sink_open : Option (List ℕ) → Option ℕ → Option ℕ → Option ℕ × Bool × List PcapEvent
pcap_file_sink_open none opened s = (s, false, [])
pcap_file_sink_open (some path) opened s =
    (opened, is_open opened, open_write path opened ∷ init_if opened)

-- `pcap_file_sink_close`.
pub pcap_file_sink_close : Option ℕ → Option ℕ × List PcapEvent
pcap_file_sink_close none = (none, [])
pcap_file_sink_close (some fp) = (none, close fp ∷ [])

pub data PcapCall : Type 0 where
  packet : List ℕ → PcapCall
  close_call : PcapCall

pub call : PcapCall → Option ℕ → Option ℕ × List PcapEvent
call (packet bytes) s = file_write_cb bytes s
call close_call s = pcap_file_sink_close s

pub run : List PcapCall → Option ℕ → Option ℕ × List PcapEvent
run [] s = (s, [])
run (c ∷ cs) s =
    let (s', events) = call c s in let (s'', later) = run cs s' in (s'', events ++ later)

-- The packets up to the first close.
pub until_close : List PcapCall → List (List ℕ)
until_close [] = []
until_close (packet bytes ∷ cs) = bytes ∷ until_close cs
until_close (close_call ∷ cs) = []

pub writes : List PcapEvent → List (List ℕ)
writes [] = []
writes (write fp bytes ∷ events) = bytes ∷ writes events
writes (open_write p o ∷ events) = writes events
writes (close fp ∷ events) = writes events
writes (pcap_init ∷ events) = writes events

closed_silent : (cs : List PcapCall) → run cs none ≡ (none, [])
unfolding run call file_write_cb pcap_file_sink_close
closed_silent [] = refl
closed_silent (packet bytes ∷ cs) = rw (closed_silent cs) refl
closed_silent (close_call ∷ cs) = rw (closed_silent cs) refl

-- An open sink writes every packet up to the first close, in order, and none after it.
pub run_lem : (cs : List PcapCall) (fp : ℕ) → writes (run cs (some fp)).1 ≡ until_close cs
unfolding run call file_write_cb pcap_file_sink_close writes until_close
run_lem [] fp = refl
run_lem (packet bytes ∷ cs) fp = ap (◌∷◌ bytes) (run_lem cs fp)
run_lem (close_call ∷ cs) fp = rw (closed_silent cs) refl
