-- ===== src/WebSocket/Mask.antt =====
-- The masking of upsgi_websockets_parse, over bytes.
use upsgi.Common.{
  ℕ, zero, suc, ◌+◌, ◌%◌, ◌<◌, ◌≡◌, refl, arith, Bool, true, List, [], ◌∷◌, ◌==◌, get_or, bit_xor,
}
use upsgi.Common.Ranges.{passes_from, passes_from-true}
use upsgi.Buffer.Numbers.{AllBytes}
use upsgi.WebSocket.Receive.{unmask}

-- masking a byte twice, for a byte of the mask and for both
restores : ℕ → ℕ → Bool
restores c m = bit_xor (bit_xor c m) m == c

restores_byte : ℕ → Bool
restores_byte c = passes_from (restores c) 0 256

restores_bytes : passes_from restores_byte 0 256 ≡ true
unfolding passes_from restores restores_byte
restores_bytes = refl

bit_xor_twice : (c m : ℕ) → c < 256 → m < 256 → bit_xor (bit_xor c m) m ≡ c
unfolding restores restores_byte
bit_xor_twice c m hc hm =
    let mask_passes =
      passes_from-true restores_byte 0 256 {c = c} restores_bytes (omega arith)
        (omega (arith, hc)) in
    let passes =
      passes_from-true (restores c) 0 256 {c = m} mask_passes (omega arith) (omega (arith, hm)) in
    ground (arith, passes)

get_or-lt : (mask : List ℕ) (i : ℕ) → AllBytes mask → get_or mask i 0 < 256
get_or-lt [] i h = omega arith
get_or-lt (x ∷ mask) zero (h, hs) = h
get_or-lt (x ∷ mask) (suc i) (h, hs) = get_or-lt mask i hs

pub unmask-unmask :
    (mask : List ℕ) (i : ℕ) (msg : List ℕ)
    → AllBytes mask
    → AllBytes msg
    → unmask mask i (unmask mask i msg) ≡ msg
unfolding unmask
unmask-unmask mask i [] hm h = refl
unmask-unmask mask i (c ∷ msg) hm (h, hs) = ground (
  arith,
  bit_xor_twice c (get_or mask (i % 4) 0) h (get_or-lt mask (i % 4) hm),
  unmask-unmask mask (i + 1) msg hm hs,
)
