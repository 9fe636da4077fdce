-- ===== src/Fair/Load.antt =====
-- kernel/core/sched/sched_fair.c: the weighted time of an entity.
use kernal.Prelude.{
  ℕ, zero, suc, ◌+◌, ◌-◌, ◌*◌, ◌/◌, ◌%◌, ◌^◌, ◌≡◌, not, Option, none, some, ◌==◌, leb,
  if◌then◌else◌,
}
use kernal.Task.Fields.{LoadWeight}

-- The scaling that no file defines, with what it is documented to be: no increased resolution, the
-- numbers 2^32 - 1 and 32, and a product of 64 bits that is shifted down.
pub record ScaleOps : Type 0 where
  pub scale_load_down : ℕ → ℕ
  pub wmult_const : ℕ
  pub wmult_shift : ℕ
  pub mul_u64_u32_shr : ℕ → ℕ → ℕ → ℕ
  pub scale-same : (w : ℕ) → scale_load_down w ≡ w
  pub const-max : wmult_const ≡ 2 ^ 32 - 1
  pub shift-width : wmult_shift ≡ 32
  pub mul-shr : (a m s : ℕ) → mul_u64_u32_shr a m s ≡ a * m / 2 ^ s % 2 ^ 64

abbrev pub nice_0_load : ℕ
nice_0_load = 1024

infixl 5 ◌>>=◌
abbrev pub ◌>>=◌ {ℓ κ} : {A : Type ℓ} {B : Type κ} → Option A → (A → Option B) → Option B
none >>= f = none
some a >>= f = f a

-- The rounds of `while (fact >> 32)`; `shift` is the bit pattern of an int.
unfoldable pub halve : ℕ → ℕ → ℕ → Option (ℕ × ℕ)
halve zero fact shift = none
halve (suc k) fact shift =
    let rest = halve k (fact / 2) ((shift + 2 ^ 32 - 1) % 2 ^ 32) in
    if fact / 2 ^ 32 == 0 then some (fact, shift) else rest

-- A number of 64 bits is below 2^32 after 32 rounds.
abbrev pub halvings : ℕ
halvings = 33

module _ (S : ScaleOps) where
  open S use {scale_load_down, wmult_const, wmult_shift, mul_u64_u32_shr}

  -- `w` is a ulong, of 32 bits.
  unfoldable pub __update_inv_weight : LoadWeight → LoadWeight
  __update_inv_weight lw =
      if not (lw.inv_weight == 0)
      then lw
      else let w = scale_load_down lw.weight % 2 ^ 32 in
        record lw {
          inv_weight =
              if leb wmult_const w then 1 else if w == 0 then wmult_const else wmult_const / w;
        }

  unfoldable pub __calc_delta : ℕ → ℕ → LoadWeight → Option (ℕ × LoadWeight)
  __calc_delta delta_exec weight lw = do
    let lw' = __update_inv_weight lw
    (fact, shift) ← halve halvings (scale_load_down weight) wmult_shift
    (fact', shift') ← halve halvings (fact % 2 ^ 32 * lw'.inv_weight % 2 ^ 64) shift
    some (mul_u64_u32_shr delta_exec fact' shift', lw')

  unfoldable pub calc_delta_fair : ℕ → LoadWeight → Option (ℕ × LoadWeight)
  calc_delta_fair delta lw =
      if not (lw.weight == nice_0_load) then __calc_delta delta nice_0_load lw else some (delta, lw)
