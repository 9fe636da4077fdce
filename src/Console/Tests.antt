-- ===== src/Console/Tests.antt =====
-- A concrete console, and what `printk` does on it.
use kernal.Prelude.{
  ℕ, zero, suc, ◌+◌, ◌≤◌, ◌<◌, ◌≡◌, refl, ap, ◌∙◌, inl, some, List, [], ◌∷◌, ◌++◌, length, take,
  ◌==◌, if◌then◌else◌, arith,
}
use kernal.Console.{read, serial_port, Ports, FormatOps, printk}
use kernal.Console.Sent.{read-ext, ReadyIn, printed, printk-sent}

-- A port that is always ready; the state is what was sent.
abbrev ready_port : Ports (List ℕ)
ready_port = record {
  inb = λ p s. (0x20, s);
  outb = λ p c s. if p == serial_port then s ++ c ∷ [] else s;
  sent = λ s. s;
  inb-sent = λ p s. refl;
  outb-sent = λ c s. refl;
}

abbrev store : (ℕ → ℕ) → ℕ → ℕ → ℕ → ℕ
store m j x i = if i == j then x else m i

store-other : (m : ℕ → ℕ) (j x i : ℕ) → j < i → store m j x i ≡ m i
store-other m j x i l = ground arith

-- `fill n t j m` writes the text and a zero to the `n` places from `j` on.
abbrev fill : ℕ → List ℕ → ℕ → (ℕ → ℕ) → ℕ → ℕ
fill zero t j m = m
fill (suc n) [] j m = store m j 0
fill (suc zero) (x ∷ t) j m = store m j 0
fill (suc (suc n)) (x ∷ t) j m = store (fill (suc n) t (j + 1) m) j x

fill-text :
    (n : ℕ) (t : List ℕ) (j : ℕ) (m : ℕ → ℕ)
    → read (fill (suc n) t j m) j (length (take n t)) ≡ take n t
fill-text zero t j m = refl
fill-text (suc n) [] j m = refl
fill-text (suc n) (x ∷ t) j m =
    let f = fill (suc n) t (j + 1) m in
    rw
      (
        read-ext (store f j x) f (j + 1) (length (take n t)) (λ i l. ground arith),
        fill-text n t (j + 1) m,
      )
      (ap (λ a. a ∷ take n t) (ground arith))

fill-end : (n : ℕ) (t : List ℕ) (j : ℕ) (m : ℕ → ℕ) → fill (suc n) t j m (j + length (take n t)) ≡ 0
fill-end zero [] j m = ground arith
fill-end zero (x ∷ t) j m = ground arith
fill-end (suc n) [] j m = ground arith
fill-end (suc n) (x ∷ t) j m =
    store-other (fill (suc n) t (j + 1) m) j x (j + suc (length (take n t))) (omega arith)
    ∙ ap (fill (suc n) t (j + 1) m) (omega arith)
    ∙ fill-end n t (j + 1) m

fill-kept : (n : ℕ) (t : List ℕ) (j : ℕ) (m : ℕ → ℕ) (i : ℕ) → j + n ≤ i → fill n t j m i ≡ m i
fill-kept zero t j m i l = refl
fill-kept (suc n) [] j m i l = ground arith
fill-kept (suc zero) (x ∷ t) j m i l = ground arith
fill-kept (suc (suc n)) (x ∷ t) j m i l = ground (arith, fill-kept (suc n) t (j + 1) m i)

abbrev plain_format : FormatOps
plain_format = record {
  vsnprintf = λ n t m. (length t, fill n t 0 m);
  vsnprintf-length = λ n t m. refl;
  vsnprintf-text = λ n t m. fill-text n t 0 m;
  vsnprintf-end = λ n t m. ap (fill (suc n) t 0 m) (omega arith) ∙ fill-end n t 0 m;
  vsnprintf-kept = λ n t m i l. fill-kept n t 0 m i (omega arith);
}

abbrev letters : ℕ → List ℕ
letters zero = []
letters (suc n) = 65 ∷ letters n

always_ready : (s : List ℕ) → ReadyIn ready_port 1 s
always_ready s = inl (λ e. omega arith)

short_text : printk ready_port plain_format 1 (72 ∷ 105 ∷ []) (λ i. 7) [] ≡ some (2, 72 ∷ 105 ∷ [])
unfolding printk
short_text = refl

printk-sent_example :
    (s' : List ℕ) × (printk ready_port plain_format 1 (letters 1030) (λ i. 7) []
      ≡ some (length (letters 1030), s'))
    × (s' ≡ [] ++ printed (letters 1030) (λ i. 7))
printk-sent_example = printk-sent ready_port plain_format 1 (letters 1030) (λ i. 7) [] always_ready
