-- ===== src/Log/Tests.antt =====
-- Runs of the log.
use chypervisor.Prelude.{◌≡◌, ◌^◌, ◌-◌, refl, true, false, none, some, List, [], ◌∷◌}
use chypervisor.Prelude.Texts.{codes}
use chypervisor.Serial.{SerialDevice}
use chypervisor.Log.{write_uint_padded, write_int_padded, store_digits}
use chypervisor.Log.Format.{
  Arg, word, len_ll, kvprintf, kvprintf_from, take_flags, take_width, take_length,
}
use chypervisor.Log.Render.{Item, literal, spec, hex_conv}
use chypervisor.Log.Message.{Klog}

-- Spaces stand between the sign and the digits.
write_int_padded-minus : write_int_padded (2 ^ 64 - 42) 6 false ≡ some (codes "-   42")
unfolding write_int_padded write_uint_padded store_digits
write_int_padded-minus = refl

kvprintf-percent : kvprintf (codes "50%") [] ≡ none
unfolding kvprintf kvprintf_from take_flags take_width take_length
kvprintf-percent = refl

-- "v=%08llx\n"
abbrev items : List Item
items = literal b'v' ∷ literal b'=' ∷ spec true (codes "8") len_ll hex_conv ∷ literal b'\n' ∷ []

abbrev args : List Arg
args = word 0xBEEF ∷ []

abbrev com1 : SerialDevice
com1 = record { base = 0x3F8; baud = 115200; write_byte = true }

abbrev quiet : Klog
quiet = record { g_ser = some com1; g_level = 1; sent = [] }
