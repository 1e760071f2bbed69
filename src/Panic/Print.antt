-- ===== src/Panic/Print.antt =====
-- `mini_vsnprintf` (panic.c) prints what its format must print.
use chypervisor.Prelude.{ℕ}
use chypervisor.Prelude.{List}
use chypervisor.Log.Format.{Arg}
use chypervisor.Log.Render.{Conv, letter}
use chypervisor.Log.Shown.{after}
use chypervisor.Log.Print.{Gives}
use chypervisor.Panic.{conversion}
use chypervisor.Panic.Shown.{want, Shows}

abbrev Right : Conv → ℕ → List Arg → Type 0
Right k longcnt args =
    Gives (conversion longcnt (letter k) args) (after (want k) args) (Shows k longcnt args)
