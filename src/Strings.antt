-- ===== src/Strings.antt =====
-- src/kernel/main.c: the string functions of the kernel, over a memory of bytes.
pub mod Text
pub mod Blocks
mod Tests
use kernal.Prelude.{
  ℕ, zero, suc, ◌+◌, ◌-◌, ◌%◌, ◌^◌, Bool, true, false, not, ◌&&◌, Option, none, some, ◌==◌, ltb,
  if◌then◌else◌,
}
use kernal.Prelude.Int.{ℤ, pos, negsuc, ◌-ℤ◌}

abbrev pub Bytes : Type 0
Bytes = ℕ → ℕ

abbrev pub store : ℕ → ℕ → Bytes → Bytes
store p v m a = if a == p then v else m a

-- The rounds of `while (*s++)`; `none` when the fuel runs out, here and below.
pub strlen_loop : ℕ → ℕ → ℕ → Bytes → Option ℕ
strlen_loop zero s len m = none
strlen_loop (suc k) s len m =
    let rest = strlen_loop k (s + 1) (len + 1) m in if m s == 0 then some len else rest

pub strlen : ℕ → ℕ → Bytes → Option ℕ
strlen fuel s m = strlen_loop fuel s 0 m

-- The memory after the copy; the source returns `dest`.
pub strcpy : ℕ → ℕ → ℕ → Bytes → Option Bytes
strcpy zero dest src m = none
strcpy (suc k) dest src m =
    let rest = strcpy k (dest + 1) (src + 1) (store dest (m src) m) in
    if m src == 0 then some (store dest (m src) m) else rest

-- A `char` of x86_64 is signed.
abbrev pub char_value : ℕ → ℤ
char_value b = if ltb b 128 then pos b else negsuc (255 - b)

pub strcmp : ℕ → ℕ → ℕ → Bytes → Option ℤ
strcmp zero s1 s2 m = none
strcmp (suc k) s1 s2 m =
    let rest = strcmp k (s1 + 1) (s2 + 1) m in
    if not (m s1 == 0) && (not (m s2 == 0) && (m s1 == m s2))
    then rest
    else some (char_value (m s1) -ℤ char_value (m s2))

pub memset : ℕ → ℕ → ℕ → Bytes → Bytes
memset p c zero m = m
memset p c (suc n) m = memset (p + 1) c n (store p (c % 256) m)

pub memcpy : ℕ → ℕ → ℕ → Bytes → Bytes
memcpy d s zero m = m
memcpy d s (suc n) m = memcpy (d + 1) (s + 1) n (store d (m s) m)
