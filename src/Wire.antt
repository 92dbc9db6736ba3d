-- ===== src/Wire.antt =====
-- Reading and writing bytes. The `bytes` crate (`Buf`, `BufMut`, `Bytes`) is not part of the
-- repository: its calls are the fields of `Buf`, with the documented behaviour as laws.
pub mod Laws
use webrtc_unreliable_client.Prelude.{
  ℕ, ◌+◌, ◌-◌, ◌*◌, ◌/◌, ◌%◌, ◌<◌, ◌≤◌, ◌≡◌, refl, List, [], ◌∷◌, Option, none, some, length, take,
  drop, if◌then◌else◌, leb, arith, ◌&&◌, Bool, true, false,
}

-- What a call that may fail returns: a value, an error, or a panic.
pub data Outcome (E : Type 0) (A : Type 0) : Type 0 where
  ok : A → Outcome E A
  err : E → Outcome E A
  panic : Outcome E A

infixl 5 ◌>>=◌ ◌>>◌
abbrev pub ◌>>=◌ : {E A B : Type 0} → Outcome E A → (A → Outcome E B) → Outcome E B
ok a >>= f = f a
err e >>= f = err e
panic >>= f = panic

abbrev pub ◌>>◌ : {E B : Type 0} → Outcome E (Unit {0}) → Outcome E B → Outcome E B
m >> k = m >>= λ _. k

-- A read that panics where there is nothing to read.
abbrev pub or_panic : {E A : Type 0} → Option A → Outcome E A
or_panic none = panic
or_panic (some a) = ok a

-- `if c { return Err(e); }`
abbrev pub fail_if : {E : Type 0} → Bool → E → Outcome E (Unit {0})
fail_if true e = err e
fail_if false e = ok tt

-- A byte string is a list of numbers below 256. Reads take from the front, and `none` is a panic;
-- `slice bs b e` is `bs.slice(b..e)`.
pub record Buf : Type 0 where
  pub put_u8 : ℕ → List ℕ
  pub put_u16 : ℕ → List ℕ
  pub put_u32 : ℕ → List ℕ
  pub get_u8 : List ℕ → Option (ℕ × List ℕ)
  pub get_u16 : List ℕ → Option (ℕ × List ℕ)
  pub get_u32 : List ℕ → Option (ℕ × List ℕ)
  pub slice : List ℕ → ℕ → ℕ → Option (List ℕ)
  pub put_u8_lem : (v : ℕ) → put_u8 v ≡ (v % 256) ∷ []
  pub put_u16_lem : (v : ℕ) → put_u16 v ≡ (v / 256 % 256) ∷ (v % 256) ∷ []
  pub put_u32_lem :
      (v : ℕ)
      → put_u32 v ≡ (v / 16777216 % 256) ∷ (v / 65536 % 256) ∷ (v / 256 % 256) ∷ (v % 256) ∷ []
  pub get_u8_lem : (a : ℕ) (r : List ℕ) → get_u8 (a ∷ r) ≡ some (a, r)
  pub get_u16_lem : (a b : ℕ) (r : List ℕ) → get_u16 (a ∷ b ∷ r) ≡ some (a * 256 + b, r)
  pub get_u32_lem :
      (a b c d : ℕ) (r : List ℕ)
      → get_u32 (a ∷ b ∷ c ∷ d ∷ r) ≡ some (a * 16777216 + b * 65536 + c * 256 + d, r)
  pub get_u8_short : (bs : List ℕ) → length bs < 1 → get_u8 bs ≡ none
  pub get_u16_short : (bs : List ℕ) → length bs < 2 → get_u16 bs ≡ none
  pub get_u32_short : (bs : List ℕ) → length bs < 4 → get_u32 bs ≡ none
  pub slice_lem :
      (bs : List ℕ) (b e : ℕ)
      → b ≤ e
      → e ≤ length bs
      → slice bs b e ≡ some (take (e - b) (drop b bs))
  pub slice_reversed : (bs : List ℕ) (b e : ℕ) → e < b → slice bs b e ≡ none
  pub slice_past_end : (bs : List ℕ) (b e : ℕ) → length bs < e → slice bs b e ≡ none

take_u8 : List ℕ → Option (ℕ × List ℕ)
take_u8 [] = none
take_u8 (a ∷ r) = some (a, r)

take_u16 : List ℕ → Option (ℕ × List ℕ)
take_u16 (a ∷ b ∷ r) = some (a * 256 + b, r)
take_u16 bs = none

take_u32 : List ℕ → Option (ℕ × List ℕ)
take_u32 (a ∷ b ∷ c ∷ d ∷ r) = some (a * 16777216 + b * 65536 + c * 256 + d, r)
take_u32 bs = none

take_slice : List ℕ → ℕ → ℕ → Option (List ℕ)
take_slice bs b e = if leb b e && leb e (length bs) then some (take (e - b) (drop b bs)) else none

take_u16_short : (bs : List ℕ) → length bs < 2 → take_u16 bs ≡ none
unfolding take_u16
take_u16_short [] h = refl
take_u16_short (a ∷ []) h = refl
take_u16_short (a ∷ b ∷ r) h = absurd (omega arith)

take_u32_short : (bs : List ℕ) → length bs < 4 → take_u32 bs ≡ none
unfolding take_u32
take_u32_short [] h = refl
take_u32_short (a ∷ []) h = refl
take_u32_short (a ∷ b ∷ []) h = refl
take_u32_short (a ∷ b ∷ c ∷ []) h = refl
take_u32_short (a ∷ b ∷ c ∷ d ∷ r) h = absurd (omega arith)

take_u8_short : (bs : List ℕ) → length bs < 1 → take_u8 bs ≡ none
unfolding take_u8
take_u8_short [] h = refl
take_u8_short (a ∷ r) h = absurd (omega arith)

take_slice_lem :
    (bs : List ℕ) (b e : ℕ)
    → b ≤ e
    → e ≤ length bs
    → take_slice bs b e ≡ some (take (e - b) (drop b bs))
unfolding take_slice
take_slice_lem bs b e h k = ground arith

take_slice_reversed : (bs : List ℕ) (b e : ℕ) → e < b → take_slice bs b e ≡ none
unfolding take_slice
take_slice_reversed bs b e h = ground arith

take_slice_past_end : (bs : List ℕ) (b e : ℕ) → length bs < e → take_slice bs b e ≡ none
unfolding take_slice
take_slice_past_end bs b e h = ground arith

-- Byte strings that behave as documented.
unfoldable pub big_endian : Buf
unfolding take_u8 take_u16 take_u32 take_slice take_u8_short take_u16_short take_u32_short
    take_slice_lem take_slice_reversed take_slice_past_end
big_endian = record {
  put_u8 = λ v. (v % 256) ∷ [];
  put_u16 = λ v. (v / 256 % 256) ∷ (v % 256) ∷ [];
  put_u32 = λ v. (v / 16777216 % 256) ∷ (v / 65536 % 256) ∷ (v / 256 % 256) ∷ (v % 256) ∷ [];
  get_u8 = take_u8;
  get_u16 = take_u16;
  get_u32 = take_u32;
  slice = take_slice;
  put_u8_lem = λ v. refl;
  put_u16_lem = λ v. refl;
  put_u32_lem = λ v. refl;
  get_u8_lem = λ a r. refl;
  get_u16_lem = λ a b r. refl;
  get_u32_lem = λ a b c d r. refl;
  get_u8_short = take_u8_short;
  get_u16_short = take_u16_short;
  get_u32_short = take_u32_short;
  slice_lem = take_slice_lem;
  slice_reversed = take_slice_reversed;
  slice_past_end = take_slice_past_end;
}
