-- ===== src/Log/Message.antt =====
-- The public functions of log.c: whole lines.
use chypervisor.Prelude.{ℕ, zero, suc, ◌≡◌, ◌≢◌}
use chypervisor.Prelude.{Option, none, some, List, [], ◌∷◌, ◌++◌, ltb, ◌==◌, if◌then◌else◌, ◌>>=◌}
use chypervisor.Prelude.Texts.{Bytes, codes, length, replicate}
use chypervisor.Serial.{SerialDevice}
use chypervisor.Log.Format.{Arg, serial_write, write_scope_field, kvprintf}
use chypervisor.Log.Render.{Item}
use chypervisor.Log.Shown.{with_returns, Prints}

-- The static variables, and what has been sent to the device.
pub record Klog : Type 0 where
  pub g_ser : Option SerialDevice
  pub g_level : ℕ
  pub sent : Bytes

unfoldable pub klog_init : Option SerialDevice → ℕ → Klog → Klog
klog_init dev level s = record s { g_ser = dev; g_level = level }

unfoldable pub klog_set_level : ℕ → Klog → Klog
klog_set_level level s = record s { g_level = level }

-- `klog_level_t`
abbrev pub level_tag : ℕ → Bytes
level_tag level =
    if level == 0
    then codes "[DEBUG] "
    else (if level == 1
        then codes "[INFO ] "
        else (if level == 2
            then codes "[WARN ] "
            else (if level == 3 then codes "[ERROR] " else codes "[?????] ")))

-- The bytes reach the port if the device has its function for them.
abbrev pub send : SerialDevice → Bytes → Klog → Klog
send dev bytes s = if dev.write_byte then record s { sent = s.sent ++ bytes } else s

-- The body of `klog_vlogf` for the device in `g_ser`.
unfoldable pub log_on :
    Option SerialDevice → ℕ → Option Bytes → Bytes → List Arg → Klog → Option Klog
log_on none level scope fmt args s = some s
log_on (some dev) level scope fmt args s =
    let line : Option Bytes = (do
      body ← kvprintf fmt args
      some (
          serial_write (level_tag level)
          ++ (write_scope_field scope ++ (body ++ serial_write (b'\r' ∷ b'\n' ∷ []))))) in
    if ltb level s.g_level then some s else (line >>= λ bytes. some (send dev bytes s))

unfoldable pub klog_vlogf : ℕ → Option Bytes → Bytes → List Arg → Klog → Option Klog
klog_vlogf level scope fmt args s = log_on s.g_ser level scope fmt args s

abbrev pub take : ℕ → Bytes → Bytes
take zero s = []
take (suc n) [] = []
take (suc n) (c ∷ s) = c ∷ take n s

-- The first seven bytes of a scope, filled up with spaces, and a mark where there are more.
abbrev pub scope_text : Bytes → Bytes
scope_text scope =
    take 7 (scope ++ replicate 7 b' ')
    ++ (if ltb 7 (length scope) then codes "-| " else codes " | ")

abbrev pub IsText : Bytes → Type 0
IsText [] = Unit
IsText (c ∷ s) = (c ≢ 0) × IsText s

-- The tag of a level.
abbrev pub tag_of : ℕ → Bytes
tag_of zero = codes "[DEBUG] "
tag_of (suc zero) = codes "[INFO ] "
tag_of (suc (suc zero)) = codes "[WARN ] "
tag_of (suc (suc (suc zero))) = codes "[ERROR] "
tag_of (suc (suc (suc (suc other)))) = codes "[?????] "

-- The line of a message: its level, its scope, its body and the end of the line.
abbrev pub line_of : ℕ → Bytes → Bytes → Bytes
line_of level scope body =
    tag_of level ++ (with_returns (scope_text scope) ++ (body ++ (b'\r' ∷ b'\r' ∷ b'\n' ∷ [])))

module _ (level : ℕ) (scope : Bytes) (items : List Item) (args : List Arg) (s : Klog) where
  -- The line is sent after what has been sent.
  abbrev pub SendsLine : Option Klog → Type 0
  SendsLine run =
      (body : Bytes) × Prints items args body
      × (run ≡ some (record s { sent = s.sent ++ line_of level scope body }))
