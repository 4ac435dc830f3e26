-- ===== src/App/Wifi.antt =====
-- apps/gateway/app_main.cpp: the Wi-Fi is turned on or off as the mote says.
use bm_sbc.Prelude.{
  ℕ, zero, suc, ◌<◌, ◌≡◌, refl, ap, Bool, true, false, not, leb, arith, Option, none, some, List,
  [], ◌∷◌, ◌++◌, ◌==◌, if◌then◌else◌,
}
use bm_sbc.App.Requests.{config_timeout}

abbrev pub rfkill_text : List ℕ
rfkill_text = b'r' ∷ b'f' ∷ b'k' ∷ b'i' ∷ b'l' ∷ b'l' ∷ b' ' ∷ []

abbrev pub unblock_text : List ℕ
unblock_text = b'u' ∷ b'n' ∷ b'b' ∷ b'l' ∷ b'o' ∷ b'c' ∷ b'k' ∷ []

abbrev pub block_text : List ℕ
block_text = b'b' ∷ b'l' ∷ b'o' ∷ b'c' ∷ b'k' ∷ []

abbrev pub wifi_text : List ℕ
wifi_text = b' ' ∷ b'w' ∷ b'i' ∷ b'f' ∷ b'i' ∷ []

abbrev pub systemctl_text : List ℕ
systemctl_text = b's' ∷ b'y' ∷ b's' ∷ b't' ∷ b'e' ∷ b'm' ∷ b'c' ∷ b't' ∷ b'l' ∷ b' ' ∷ []

abbrev pub enable_text : List ℕ
enable_text = b'e' ∷ b'n' ∷ b'a' ∷ b'b' ∷ b'l' ∷ b'e' ∷ []

abbrev pub disable_text : List ℕ
disable_text = b'd' ∷ b'i' ∷ b's' ∷ b'a' ∷ b'b' ∷ b'l' ∷ b'e' ∷ []

abbrev pub manager_text : List ℕ
manager_text =
    b' ' ∷ b'-' ∷ b'-' ∷ b'n' ∷ b'o' ∷ b'w' ∷ b' ' ∷ b'N' ∷ b'e' ∷ b't' ∷ b'w' ∷ b'o' ∷ b'r' ∷ b'k'
    ∷ b'M' ∷ b'a' ∷ b'n' ∷ b'a' ∷ b'g' ∷ b'e' ∷ b'r' ∷ []

abbrev pub modprobe_text : List ℕ
modprobe_text = b'm' ∷ b'o' ∷ b'd' ∷ b'p' ∷ b'r' ∷ b'o' ∷ b'b' ∷ b'e' ∷ b' ' ∷ []

abbrev pub remove_text : List ℕ
remove_text = b'-' ∷ b'r' ∷ b' ' ∷ []

abbrev pub driver_text : List ℕ
driver_text = b'b' ∷ b'r' ∷ b'c' ∷ b'm' ∷ b'f' ∷ b'm' ∷ b'a' ∷ b'c' ∷ []

abbrev pub dependency_text : List ℕ
dependency_text =
    b' ' ∷ b'm' ∷ b'o' ∷ b'd' ∷ b'p' ∷ b'r' ∷ b'o' ∷ b'b' ∷ b'e' ∷ b' ' ∷ b'-' ∷ b'r' ∷ b' ' ∷ b'b'
    ∷ b'r' ∷ b'c' ∷ b'm' ∷ b'u' ∷ b't' ∷ b'i' ∷ b'l' ∷ []

-- What of CONTEXT the Wi-Fi needs.
pub record Wifi : Type 0 where
  pub wifi_enabled : ℕ
  pub wifi_command_received : Bool

-- `wifi_enabled_reply_cb`: `decoded` is the value and the length that the decoder gives, `none` where
-- the reply is null or does not decode.
pub wifi_enabled_reply_cb : Option (ℕ × ℕ) → Wifi → Wifi
wifi_enabled_reply_cb none s = s
wifi_enabled_reply_cb (some (value, len)) s =
    if not (len == 0)
    then record { wifi_enabled = value; wifi_command_received = true }
    else record s { wifi_enabled = value }

-- The commands of `get_wifi_enable`, in order.
pub wifi_commands : ℕ → List (List ℕ)
wifi_commands wifi_enabled =
    let off = wifi_enabled == 0 in
    (rfkill_text ++ ((if off then block_text else unblock_text) ++ wifi_text))
    ∷ (systemctl_text ++ ((if off then disable_text else enable_text) ++ manager_text))
    ∷ (modprobe_text ++ ((if off then remove_text else []) ++ driver_text))
    ∷ (if off then dependency_text ∷ [] else [])

-- The call of the callback in one wait: when, in milliseconds, and with what, as above.
pub record WifiAnswer : Type 0 where
  pub after : ℕ
  pub decoded : Option (ℕ × ℕ)

abbrev pub after_wait : WifiAnswer → Wifi → Wifi
after_wait a s = if leb a.after config_timeout then wifi_enabled_reply_cb a.decoded s else s

-- The loop of `get_wifi_enable`, with the requests that are left and the number of the next one.
pub wifi_loop : (ℕ → WifiAnswer) → ℕ → ℕ → Wifi → Wifi
unfolding wifi_enabled_reply_cb
wifi_loop answers zero attempt s = s
wifi_loop answers (suc retries_remaining) attempt s =
    let rest = wifi_loop answers retries_remaining (suc attempt) (after_wait (answers attempt) s) in
    if s.wifi_command_received then s else rest

-- `get_wifi_enable`: the state, and the commands that are run.
pub get_wifi_enable : (ℕ → WifiAnswer) → Wifi → Wifi × List (List ℕ)
unfolding wifi_loop wifi_commands
get_wifi_enable answers s = let s' = wifi_loop answers 3 0 s in (s', wifi_commands s'.wifi_enabled)

-- The state at the start.
abbrev pub wifi : Wifi
wifi = record { wifi_enabled = 1; wifi_command_received = false }

abbrev in_time : WifiAnswer → Option ℕ
in_time a = elim a.decoded [
  | none ↦ none
  | some (value, len) ↦ if leb a.after config_timeout then some value else none
]

-- The first value that comes in time, and 1 if there is none.
first_value : (ℕ → WifiAnswer) → ℕ → ℕ → ℕ
first_value answers zero attempt = 1
first_value answers (suc retries) attempt =
    let rest = first_value answers retries (suc attempt) in
    elim (in_time (answers attempt)) [ none ↦ rest | some value ↦ value ]

-- No value is empty.
abbrev HasValue : Option (ℕ × ℕ) → Type 0
HasValue none = Unit
HasValue (some (value, len)) = 0 < len

loop_received :
    (answers : ℕ → WifiAnswer) (retries attempt : ℕ) (s : Wifi)
    → s.wifi_command_received ≡ true
    → wifi_loop answers retries attempt s ≡ s
unfolding wifi_loop
loop_received answers zero attempt s received = refl
loop_received answers (suc retries) attempt s received = ground (arith, received)

loop_value :
    (answers : ℕ → WifiAnswer) (retries attempt : ℕ)
    → ((k : ℕ) → HasValue (answers k).decoded)
    → (wifi_loop answers retries attempt wifi).wifi_enabled ≡ first_value answers retries attempt
unfolding wifi_loop wifi_enabled_reply_cb first_value
loop_value answers zero attempt values = refl
loop_value answers (suc retries) attempt values = ground (
  arith,
  values attempt,
  loop_value answers retries (suc attempt) values,
  loop_received answers retries (suc attempt) (after_wait (answers attempt) wifi),
)

-- The Wi-Fi is turned on or off as the first reply in time says, and on if there is none.
get_wifi_enable_lem :
    (answers : ℕ → WifiAnswer)
    → ((k : ℕ) → HasValue (answers k).decoded)
    → (get_wifi_enable answers wifi).1 ≡ wifi_commands (first_value answers 3 0)
unfolding get_wifi_enable
get_wifi_enable_lem answers values = ap wifi_commands (loop_value answers 3 0 values)
