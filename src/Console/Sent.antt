-- ===== src/Console/Sent.antt =====
-- src/kernel/main.c: what `printk` sends.
use Prim.Native.Nat.{bit_and}
use mathlib.Core.List.{append_assoc, append-nil}
use kernal.Prelude.{
  ℕ, zero, suc, ◌+◌, ◌-◌, ◌≤◌, ◌<◌, ◌≡◌, ◌≢◌, refl, sym, ap, subst, ◌∙◌, ◌⊎◌, inl, inr, Option,
  some, List, [], ◌∷◌, ◌++◌, length, take, length-take, ◌==◌, Bool, true, false, ltb, ltb→lt,
  if◌then◌else◌, Bool-cases, ==_iff, arith,
}
use kernal.Fair.Load.{◌>>=◌}
use kernal.Console.{
  read, serial_port, Ports, FormatOps, serial_wait, serial_putc, write_loop, console_write, printk,
}

read-same : (m : ℕ → ℕ) (i j a b : ℕ) → i ≡ j → a ≡ b → read m i a ≡ read m j b
read-same m i j a b p q = rw (p, q) refl

read-append : (m : ℕ → ℕ) (i a b : ℕ) → read m i (a + b) ≡ read m i a ++ read m (i + a) b
read-append m i zero b = read-same m i (i + 0) (0 + b) b (omega arith) (omega arith)
read-append m i (suc a) b =
    read-same m i i (suc a + b) (suc (a + b)) refl (omega arith)
    ∙ ap (λ r. m i ∷ r)
        (read-append m (i + 1) a b
          ∙ ap (λ r. read m (i + 1) a ++ r)
              (read-same m (i + 1 + a) (i + suc a) b b (omega arith) refl))

pub read-ext : (m m' : ℕ → ℕ) (i n : ℕ) → ((j : ℕ) → i ≤ j → m j ≡ m' j) → read m i n ≡ read m' i n
read-ext m m' i zero h = refl
read-ext m m' i (suc n) h =
    rw (h i (omega arith), read-ext m m' (i + 1) n (λ j l. h j (omega arith))) refl

take_all : (n : ℕ) (t : List ℕ) → length t ≤ n → take n t ≡ t
take_all zero [] l = refl
take_all zero (x ∷ t) l = absurd (omega arith)
take_all (suc n) [] l = refl
take_all (suc n) (x ∷ t) l = ap (λ r. x ∷ r) (take_all n t (omega arith))

-- What a text puts on the port: itself where it fits `buffer`, and otherwise its first part, the
-- zero, and what the stack holds behind `buffer`, up to its length.
abbrev pub printed : List ℕ → (ℕ → ℕ) → List ℕ
printed text stack =
    if ltb (length text) 1024
    then text
    else take 1023 text ++ 0 ∷ read stack 1024 (length text - 1024)

if-same {ℓ} :
    {A : Type ℓ} (t : Bool) (z x y : A)
    → (t ≡ true → z ≡ x)
    → (t ≡ false → z ≡ y)
    → z ≡ (if t then x else y)
if-same true z x y p q = p refl
if-same false z x y p q = q refl

module _ {S : Type 0} (P : Ports S) where
  open P use {inb, outb, sent, inb-sent, outb-sent}

  -- Of the next `k` reads of the state of the port one finds it ready.
  abbrev pub ReadyIn : ℕ → S → Type 0
  ReadyIn zero s = ⊥
  ReadyIn (suc k) s =
      let (state, s1) = inb (serial_port + 5) s in (bit_and state 0x20 ≢ 0) ⊎ ReadyIn k s1

  serial_wait-sent :
      (k : ℕ) (s : S) → ReadyIn k s → (s' : S) × (serial_wait P k s ≡ some s') × (sent s' ≡ sent s)
  unfolding serial_wait
  serial_wait-sent zero s r = absurd r
  serial_wait-sent (suc k) s r =
      let s1 = (inb (serial_port + 5) s).1 in
      elim (Bool-cases (bit_and (inb (serial_port + 5) s).0 0x20 == 0)) [
        | inl e ↦
            let (s', ran, same) =
              serial_wait-sent k s1
                (elim r [ inl n ↦ absurd (n ((==_iff _ _).0 e)) | inr q ↦ q ]) in
            (s', rw e ran, same ∙ inb-sent (serial_port + 5) s)
        | inr e ↦ (s1, rw e refl, inb-sent (serial_port + 5) s)
      ]

  serial_putc-sent :
      (k c : ℕ) (s : S)
      → ReadyIn k s
      → (s' : S) × (serial_putc P k c s ≡ some s') × (sent s' ≡ sent s ++ c ∷ [])
  unfolding serial_putc
  serial_putc-sent k c s r =
      let (s1, ran, same) = serial_wait-sent k s r in
      (
        outb serial_port c s1,
        ap (λ w. w >>= λ s2. some (outb serial_port c s2)) ran,
        outb-sent c s1 ∙ ap (λ w. w ++ c ∷ []) same,
      )

  write_loop-sent :
      (k : ℕ) (m : ℕ → ℕ) (n i : ℕ) (s : S)
      → ((x : S) → ReadyIn k x)
      → (s' : S) × (write_loop P k m n i s ≡ some s') × (sent s' ≡ sent s ++ read m i n)
  unfolding write_loop
  write_loop-sent k m zero i s ready = (s, refl, sym (append-nil (sent s)))
  write_loop-sent k m (suc n) i s ready =
      let (s1, put, one) = serial_putc-sent k (m i) s (ready s) in
      let (s', ran, rest) = write_loop-sent k m n (i + 1) s1 ready in
      (
        s',
        ap (λ w. w >>= λ x. write_loop P k m n (i + 1) x) put ∙ ran,
        rest
            ∙ ap (λ w. w ++ read m (i + 1) n) one
            ∙ append_assoc (sent s) (m i ∷ []) (read m (i + 1) n),
      )

  answer :
      {n n' : ℕ} {o : Option S} {s' : S}
      → n ≡ n'
      → o ≡ some s'
      → ◌>>=◌ {B = ℕ × S} o (λ s1. some (n, s1)) ≡ some (n', s')
  answer p q = rw (p, q) refl

  module _ (F : FormatOps) where
    open F use {vsnprintf, vsnprintf-length, vsnprintf-text, vsnprintf-end, vsnprintf-kept}

    read-short :
        (t : List ℕ) (m : ℕ → ℕ) → length t < 1024 → read (vsnprintf 1024 t m).1 0 (length t) ≡ t
    read-short t m l =
        subst (λ w. read (vsnprintf 1024 t m).1 0 (length w) ≡ w) (take_all 1023 t (omega arith))
          (vsnprintf-text 1023 t m)

    read-long :
        (t : List ℕ) (m : ℕ → ℕ)
        → 1024 ≤ length t
        → read (vsnprintf 1024 t m).1 0 (length t)
          ≡ take 1023 t ++ 0 ∷ read m 1024 (length t - 1024)
    read-long t m l =
        let b = (vsnprintf 1024 t m).1 in
        let n = length-take 1023 t in
        read-same b 0 0 (length t) (length (take 1023 t) + suc (length t - 1024)) refl (omega arith)
        ∙ read-append b 0 (length (take 1023 t)) (suc (length t - 1024))
        ∙ ap (λ w. w ++ read b (0 + length (take 1023 t)) (suc (length t - 1024)))
            (vsnprintf-text 1023 t m)
        ∙ ap (λ w. take 1023 t ++ w)
            (ap (λ w. w ∷ read b (0 + length (take 1023 t) + 1) (length t - 1024))
                (ap b (omega arith) ∙ vsnprintf-end 1023 t m)
              ∙ ap (λ w. 0 ∷ w)
                  (read-same b (0 + length (take 1023 t) + 1) 1024 (length t - 1024)
                      (length t - 1024) (omega arith) refl
                    ∙ read-ext b m 1024 (length t - 1024) (λ j k. vsnprintf-kept 1024 t m j k)))

    -- Where the port is ready within as many reads of its state as there is fuel: printk ends and
    -- answers the length of the text that the format makes. It sends a text below 1024 bytes as it
    -- is. Of a longer one it sends the first 1023 bytes, the zero that ends the buffer, and then
    -- what the stack holds behind the buffer, up to the length of the text.
    read-printed : (t : List ℕ) (m : ℕ → ℕ) → read (vsnprintf 1024 t m).1 0 (length t) ≡ printed t m
    read-printed t m =
        if-same (ltb (length t) 1024) _ _ _ (λ e. read-short t m (ltb→lt _ _ e))
          (λ e. read-long t m (ground arith))

    -- Where the port is ready within as many reads of its state as there is fuel: printk ends and
    -- answers the length of the text that the format makes. It sends a text below 1024 bytes as it
    -- is. Of a longer one it sends the first 1023 bytes, the zero that ends the buffer, and then
    -- what the stack holds behind the buffer, up to the length of the text.
    pub printk-sent :
        (k : ℕ) (text : List ℕ) (stack : ℕ → ℕ) (s : S)
        → ((x : S) → ReadyIn k x)
        → (s' : S) × (printk P F k text stack s ≡ some (length text, s'))
          × (sent s' ≡ sent s ++ printed text stack)
    unfolding printk console_write
    printk-sent k text stack s ready =
        let (s', ran, all) =
          write_loop-sent k (vsnprintf 1024 text stack).1 (length text) 0 s ready in
        let len = vsnprintf-length 1024 text stack in
        (
          s',
          answer len (
              subst (λ n. console_write P k (vsnprintf 1024 text stack).1 n s ≡ some s') (sym len)
                ran),
          all ∙ ap (λ w. sent s ++ w) (read-printed text stack),
        )
