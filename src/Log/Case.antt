-- ===== src/Log/Case.antt =====
-- The case of the digits that log.c stores.
use chypervisor.Prelude.{ℕ, zero, suc, ◌-◌, ◌/◌, ◌%◌, ◌<◌, ◌≡◌, arith, refl}
use chypervisor.Prelude.{
  Bool, true, false, Option, none, some, [], ◌∷◌, ◌++◌, ltb, ◌==◌, ◌>>=◌, if_all, if◌then◌else◌,
}
use chypervisor.Prelude.Texts.{Bytes, length, replicate}
use chypervisor.Log.{digit, store_digits, write_uint_padded}
use chypervisor.Log.Shown.{is_case, IsCase}

-- All bytes of a text that is there are in the case.
abbrev pub AllCase : Bool → Option Bytes → Type 0
AllCase up none = Unit
AllCase up (some out) = IsCase up out

digit-is_case : (up : Bool) (d : ℕ) → d < 16 → is_case up (digit up d) ≡ true
digit-is_case true d h = ground arith
digit-is_case false d h = ground arith

pub store_digits-AllCase :
    (room v : ℕ) (up : Bool) (tmp : Bytes)
    → IsCase up tmp
    → AllCase up (store_digits room v 16 up tmp)
unfolding store_digits
store_digits-AllCase zero v up tmp h = omega arith
store_digits-AllCase (suc room) v up tmp h =
    let stored = digit up (v % 16) ∷ tmp in
    let next : IsCase up stored = (digit-is_case up (v % 16) (omega arith), h) in
    if_all (AllCase up) (v / 16 == 0) (some stored) (store_digits room (v / 16) 16 up stored)
      (λ last. next) (λ more. store_digits-AllCase room (v / 16) up stored next)

padding-IsCase :
    (up zero_pad : Bool) (n : ℕ) (s : Bytes)
    → IsCase up s
    → IsCase up (replicate n (if zero_pad then b'0' else b' ') ++ s)
padding-IsCase up zero_pad zero s h = h
padding-IsCase true true (suc n) s h = (refl, padding-IsCase true true n s h)
padding-IsCase true false (suc n) s h = (refl, padding-IsCase true false n s h)
padding-IsCase false true (suc n) s h = (refl, padding-IsCase false true n s h)
padding-IsCase false false (suc n) s h = (refl, padding-IsCase false false n s h)

-- The digits of a hexadecimal number, behind its padding.
pub write_uint_padded-AllCase :
    (v width : ℕ) (zero_pad up : Bool) → AllCase up (write_uint_padded v 16 width zero_pad up)
unfolding write_uint_padded
write_uint_padded-AllCase v width zero_pad up =
    elim (store_digits 32 v 16 up [])
        as (λ o.
          AllCase up o
          → AllCase up (
              o >>= λ tmp. some (
                replicate (if ltb (length tmp) width then width - length tmp else 0)
                  (if zero_pad then b'0' else b' ')
                ++ tmp))) [
                  | none ↦ λ h. h
                  | some tmp ↦ λ h.
                      padding-IsCase up zero_pad
                        (if ltb (length tmp) width then width - length tmp else 0) tmp h
                ]
      (store_digits-AllCase 32 v up [] (omega arith))
