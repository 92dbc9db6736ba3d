-- ===== src/Wire/Laws.antt =====
-- What is written is read back.
use webrtc_unreliable_client.Prelude.{
  ℕ, ◌≡◌, ◌+◌, ◌-◌, ◌≤◌, ◌/◌, ◌%◌, ◌∙◌, ap, List, ◌++◌, some, length, length-append, drop,
  take-length, drop-length, arith,
}
use webrtc_unreliable_client.Prelude.Words.{IsU8, IsU16, IsU32}
use webrtc_unreliable_client.Wire.{Buf}

module _ (w : Buf) where
  open w use {put_u8, put_u16, put_u32, get_u8, get_u16, get_u32}

  pub get_u8-put_u8 : (v : ℕ) (r : List ℕ) → IsU8 v → get_u8 (put_u8 v ++ r) ≡ some (v, r)
  get_u8-put_u8 v r h = ground (arith, w.put_u8_lem v, w.get_u8_lem (v % 256) r)

  pub get_u16-put_u16 : (v : ℕ) (r : List ℕ) → IsU16 v → get_u16 (put_u16 v ++ r) ≡ some (v, r)
  get_u16-put_u16 v r h = ground (arith, w.put_u16_lem v, w.get_u16_lem (v / 256 % 256) (v % 256) r)

  pub get_u32-put_u32 : (v : ℕ) (r : List ℕ) → IsU32 v → get_u32 (put_u32 v ++ r) ≡ some (v, r)
  get_u32-put_u32 v r h = ground (
    arith,
    w.put_u32_lem v,
    w.get_u32_lem (v / 16777216 % 256) (v / 65536 % 256) (v / 256 % 256) (v % 256) r,
  )

  pub length-put_u8 : (v : ℕ) → length (put_u8 v) ≡ 1
  length-put_u8 v = ap length (w.put_u8_lem v)

  pub length-put_u16 : (v : ℕ) → length (put_u16 v) ≡ 2
  length-put_u16 v = ap length (w.put_u16_lem v)

  pub length-put_u32 : (v : ℕ) → length (put_u32 v) ≡ 4
  length-put_u32 v = ap length (w.put_u32_lem v)

  -- The part between two others.
  pub slice_middle :
      (front middle rest : List ℕ) (b e : ℕ)
      → length front ≡ b
      → b + length middle ≡ e
      → w.slice (front ++ (middle ++ rest)) b e ≡ some middle
  slice_middle front middle rest b e hb he =
      let d : drop b (front ++ (middle ++ rest)) ≡ middle ++ rest =
        rw (← hb) (drop-length front (middle ++ rest)) in
      let n : e - b ≡ length middle = omega arith in
      let long : e ≤ length (front ++ (middle ++ rest)) =
        omega (arith, length-append front (middle ++ rest), length-append middle rest) in
      w.slice_lem (front ++ (middle ++ rest)) b e (omega arith) long
      ∙ ap some (rw (d, n) (take-length middle rest))
