-- ===== src/Strings/Tests.antt =====
-- src/kernel/main.c: the string functions on a memory that holds two short strings.
use kernal.Prelude.{◌==◌, inr, [], ◌∷◌, arith, if◌then◌else◌}
use kernal.Strings.{Bytes, strcpy}
use kernal.Strings.Text.{IsString, Copied, strcpy-Copied}

-- "hi" at 10 and "ho" at 20.
abbrev two_strings : Bytes
two_strings = λ a.
    if a == 10
    then 104
    else if a == 11
    then 105
    else if a == 20
    then 104
    else if a == 21
    then 111
    else 0

first-IsString : IsString two_strings 10 (104 ∷ 105 ∷ [])
first-IsString = ground arith

second-IsString : IsString two_strings 20 (104 ∷ 111 ∷ [])
second-IsString = ground arith

strcpy-Copied_example : Copied 30 10 (104 ∷ 105 ∷ []) two_strings (strcpy 3 30 10 two_strings)
strcpy-Copied_example =
    strcpy-Copied 3 30 10 two_strings (104 ∷ 105 ∷ []) first-IsString (inr (omega arith))
      (omega arith)
