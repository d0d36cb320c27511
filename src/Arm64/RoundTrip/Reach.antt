-- ===== src/Arm64/RoundTrip/Reach.antt =====
-- Program-counter relative distances: what the writer puts into a field leads the decoder back to
-- the target, for each width of field.
use hoox.Prelude.{ℕ, ◌+◌, ◌%◌, ◌^◌, ◌<◌, ◌≡◌, true, arith}
use hoox.Prelude.Words.{◌<<◌, u64, sub64, sdiv, srem, is_within_int, sign_extend}
use hoox.Arm64.Decoder.Masks.{sign_extend_16, sign_extend_21, sign_extend_28}

module _ (pc target : ℕ) (pc_fits : pc < 2 ^ 64) (target_fits : target < 2 ^ 64)
    (aligned : srem (sub64 target pc) 4 ≡ 0) where
  abbrev words : ℕ
  words = sdiv (sub64 target pc) 4

  -- A field of 26 bits, checked as a distance of 28.
  pub reach_26 :
      is_within_int 28 (sub64 target pc) ≡ true
      → u64 (pc + sign_extend ((words % 2 ^ 26) << 2) 28) ≡ target
  reach_26 near = ground (arith, sign_extend_28 ((words % 2 ^ 26) << 2))

  -- A field of 19 bits.
  pub reach_19 :
      is_within_int 19 words ≡ true → u64 (pc + sign_extend ((words % 2 ^ 19) << 2) 21) ≡ target
  reach_19 near = ground (arith, sign_extend_21 ((words % 2 ^ 19) << 2))

  -- A field of 14 bits.
  pub reach_14 :
      is_within_int 14 words ≡ true → u64 (pc + sign_extend ((words % 2 ^ 14) << 2) 16) ≡ target
  reach_14 near = ground (arith, sign_extend_16 ((words % 2 ^ 14) << 2))
