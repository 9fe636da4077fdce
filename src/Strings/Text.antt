-- ===== src/Strings/Text.antt =====
-- src/kernel/main.c: `strlen`, `strcpy` and `strcmp` on strings that end in a zero byte.
use native.Mathlib.Decide.{ℕ_discrete}
use kernal.Prelude.{
  ℕ, zero, suc, subst, sym, ◌+◌, ◌<◌, ◌≡◌, ◌≢◌, ◌⊎◌, inl, inr, ◌↔◌, refl, Option, none, some, List,
  [], ◌∷◌, arith, length,
}
use kernal.Prelude.Int.{ℤ, pos, ◌-ℤ◌}
use kernal.Strings.{Bytes, store, strlen_loop, strlen, strcpy, strcmp, char_value}

-- From `s` the bytes `cs`, none of them zero, and then a zero byte.
abbrev pub IsString : Bytes → ℕ → List ℕ → Type 0
IsString m s [] = m s ≡ 0
IsString m s (c ∷ cs) = (m s ≡ c) × (c ≢ 0) × (c < 256) × IsString m (s + 1) cs

strlen_loop-length :
    (k s len : ℕ) (m : Bytes) (cs : List ℕ)
    → IsString m s cs
    → length cs < k
    → strlen_loop k s len m ≡ some (len + length cs)
unfolding strlen_loop
strlen_loop-length zero s len m cs i f = absurd (omega arith)
strlen_loop-length (suc k) s len m [] i f = ground arith
strlen_loop-length (suc k) s len m (c ∷ cs) i f =
    ground (arith, strlen_loop-length k (s + 1) (len + 1) m cs i.3 (omega arith))

-- For a string that ends in a zero byte, strlen ends within one round for each byte and answers
-- the number of bytes before the zero.
pub strlen-length :
    (fuel s : ℕ) (m : Bytes) (cs : List ℕ)
    → IsString m s cs
    → length cs < fuel
    → strlen fuel s m ≡ some (length cs)
unfolding strlen
strlen-length fuel s m cs i f = ground (arith, strlen_loop-length fuel s 0 m cs i f)

-- A write before or behind a string leaves it.
IsString-store :
    (a v s : ℕ) (m : Bytes) (cs : List ℕ)
    → (a < s) ⊎ (s + length cs < a)
    → IsString m s cs
    → IsString (store a v m) s cs
IsString-store a v s m [] o i = ground arith
IsString-store a v s m (c ∷ cs) o i =
    (ground arith, i.1, i.2, IsString-store a v (s + 1) m cs (omega arith) i.3)

-- What a copy of a string leaves.
abbrev pub Copied : ℕ → ℕ → List ℕ → Bytes → Option Bytes → Type 0
Copied dest src cs m none = ⊥
Copied dest src cs m (some m') =
    IsString m' dest cs × ((a : ℕ) → (a < dest) ⊎ (dest + length cs < a) → m' a ≡ m a)

strcpy-end :
    (k dest src : ℕ) (m : Bytes)
    → m src ≡ 0
    → strcpy (suc k) dest src m ≡ some (store dest (m src) m)
unfolding strcpy
strcpy-end k dest src m z = ground arith

strcpy-step :
    (k dest src : ℕ) (m : Bytes)
    → m src ≢ 0
    → strcpy (suc k) dest src m ≡ strcpy k (dest + 1) (src + 1) (store dest (m src) m)
unfolding strcpy
strcpy-step k dest src m z = ground arith

-- The first byte of the copy, and the copy of the rest.
Copied-step :
    (dest src c : ℕ) (cs : List ℕ) (m : Bytes) (r : Option Bytes)
    → m src ≡ c
    → c ≢ 0
    → c < 256
    → Copied (dest + 1) (src + 1) cs (store dest (m src) m) r
    → Copied dest src (c ∷ cs) m r
Copied-step dest src c cs m none e z l q = q
Copied-step dest src c cs m (some m') e z l q = (
  (ground (arith, q.1 dest (inl (omega arith))), z, l, q.0),
  λ a h. ground (arith, q.1 a (omega arith)),
)

-- For a string that ends in a zero byte, and a destination that lies before it or wholly behind
-- it, strcpy ends within one round for each byte, leaves the string at the destination, its zero
-- byte included, and changes no byte outside.
pub strcpy-Copied :
    (fuel dest src : ℕ) (m : Bytes) (cs : List ℕ)
    → IsString m src cs
    → (dest < src) ⊎ (src + length cs < dest)
    → length cs < fuel
    → Copied dest src cs m (strcpy fuel dest src m)
strcpy-Copied zero dest src m cs i o f = absurd (omega arith)
strcpy-Copied (suc k) dest src m [] i o f =
    subst (λ r. Copied dest src [] m r) (sym (strcpy-end k dest src m i))
      (ground arith, λ a h. ground arith)
strcpy-Copied (suc k) dest src m (c ∷ cs) i o f =
    subst (λ r. Copied dest src (c ∷ cs) m r) (sym (strcpy-step k dest src m (ground arith)))
      (Copied-step dest src c cs m _ i.0 i.1 i.2 (
        strcpy-Copied k (dest + 1) (src + 1) (store dest (m src) m) cs
          (IsString-store dest (m src) (src + 1) m cs (omega arith) i.3) (omega arith)
          (omega arith)))

difference_zero : (x y : ℕ) → x < 256 → y < 256 → (char_value x -ℤ char_value y ≡ pos 0) ↔ (x ≡ y)
unfolding ◌-ℤ◌
difference_zero x y l k = (λ e. ground arith, λ e. ground arith)

strcmp-end :
    (k s t : ℕ) (m : Bytes)
    → (m s ≡ 0) ⊎ (m t ≡ 0) ⊎ (m s ≢ m t)
    → strcmp (suc k) s t m ≡ some (char_value (m s) -ℤ char_value (m t))
unfolding strcmp
strcmp-end k s t m h = ground arith

strcmp-step :
    (k s t : ℕ) (m : Bytes)
    → m s ≢ 0
    → m s ≡ m t
    → strcmp (suc k) s t m ≡ strcmp k (s + 1) (t + 1) m
unfolding strcmp
strcmp-step k s t m h e = ground arith

-- What a comparison answers: zero exactly for equal strings.
abbrev pub Compared : List ℕ → List ℕ → Option ℤ → Type 0
Compared cs ds none = ⊥
Compared cs ds (some r) = (r ≡ pos 0) ↔ (cs ≡ ds)

strcmp-Compared_end :
    (k s t : ℕ) (m : Bytes) (cs ds : List ℕ)
    → (m s ≡ 0) ⊎ (m t ≡ 0) ⊎ (m s ≢ m t)
    → m s < 256
    → m t < 256
    → (m s ≡ m t) ↔ (cs ≡ ds)
    → Compared cs ds (strcmp (suc k) s t m)
strcmp-Compared_end k s t m cs ds h l l' q =
    subst (λ r. Compared cs ds r) (sym (strcmp-end k s t m h))
      (
        λ e. q.0 ((difference_zero (m s) (m t) l l').0 e),
        λ e. (difference_zero (m s) (m t) l l').1 (q.1 e),
      )

Compared-∷ :
    (c d : ℕ) (cs ds : List ℕ) (r : Option ℤ)
    → c ≡ d
    → Compared cs ds r
    → Compared (c ∷ cs) (d ∷ ds) r
Compared-∷ c d cs ds none e q = q
Compared-∷ c d cs ds (some r) e q = (λ z. rw (e, q.0 z), λ z. q.1 (grind arith))

-- For two strings that end in a zero byte, strcmp ends within one round for each byte of the
-- first, and answers zero exactly when the two are equal.
pub strcmp-Compared :
    (fuel s t : ℕ) (m : Bytes) (cs ds : List ℕ)
    → IsString m s cs
    → IsString m t ds
    → length cs < fuel
    → Compared cs ds (strcmp fuel s t m)
strcmp-Compared zero s t m cs ds i j f = absurd (omega arith)
strcmp-Compared (suc k) s t m [] [] i j f =
    strcmp-Compared_end k s t m [] [] (inl i) (omega arith) (omega arith)
      (λ _. refl, λ _. omega arith)
strcmp-Compared (suc k) s t m [] (d ∷ ds) i j f =
    strcmp-Compared_end k s t m [] (d ∷ ds) (inl i) (omega (arith, i)) (ground arith)
      (λ e. absurd (ground arith), λ e. absurd (ground arith))
strcmp-Compared (suc k) s t m (c ∷ cs) [] i j f =
    strcmp-Compared_end k s t m (c ∷ cs) [] (inr (inl j)) (ground arith) (omega arith)
      (λ e. absurd (ground arith), λ e. absurd (ground arith))
strcmp-Compared (suc k) s t m (c ∷ cs) (d ∷ ds) i j f = elim (ℕ_discrete c d) [
  | yes e ↦
      subst (λ r. Compared (c ∷ cs) (d ∷ ds) r)
        (sym (strcmp-step k s t m (ground arith) (omega (arith, i.0, j.0, e))))
        (Compared-∷ c d cs ds _ e (strcmp-Compared k (s + 1) (t + 1) m cs ds i.3 j.3 (omega arith)))
  | no n ↦
      strcmp-Compared_end k s t m (c ∷ cs) (d ∷ ds) (inr (inr (ground arith))) (ground arith)
        (ground arith) (λ e. absurd (ground arith), λ e. absurd (ground arith))
]
