-- ===== src/Hex/RoundTrip.antt =====
-- Bytes survive the way through `bin2hex` and `hex2bin`.
use Prim.Native.Nat.{bit_and, bit_or}
use esdm.Base.{
  ℕ, zero, suc, ◌+◌, ◌*◌, ◌/◌, ◌%◌, ◌≤◌, ◌<◌, Bool, true, false, ◌&&◌, List, [], ◌∷◌, ok, ◌≡◌, refl,
  arith, ◌==◌, length, All,
}
use esdm.Hex.{
  bin_char, hex_char, hex_pairs, hex2bin, hex2bin_alloc, hex_digits, bin2hex, bin2hex_alloc,
}

abbrev pub IsByte : ℕ → Type 0
IsByte b = b < 256

-- Whether a function keeps each number below the bound.
keeps : (ℕ → ℕ) → ℕ → Bool
keeps f zero = true
keeps f (suc bound) = f bound == bound && keeps f bound

kept : (f : ℕ → ℕ) (bound : ℕ) → keeps f bound ≡ true → (b : ℕ) → b < bound → f b ≡ b
unfolding keeps
kept f zero all b below = absurd (omega arith)
kept f (suc bound) all b below =
    ground (arith, λ (rest : keeps f bound ≡ true). kept f bound rest b)

-- The byte that the two digits of a byte stand for.
abbrev recoded : Bool → ℕ → ℕ
unfolding bin_char hex_char
recoded u b =
    bit_or (bin_char (hex_char (b / 16) u) * 16 % 256) (bin_char (hex_char (bit_and b 15) u))

digits_table : (u : Bool) → keeps (recoded u) 256 ≡ true
unfolding keeps bin_char hex_char
digits_table true = refl
digits_table false = refl

digits_lem : (u : Bool) (b : ℕ) → IsByte b → recoded u b ≡ b
digits_lem u b h = kept (recoded u) 256 (digits_table u) b h

hex_pairs-hex_digits :
    (u : Bool) (bin : List ℕ)
    → All IsByte bin
    → hex_pairs (length bin) (hex_digits (length bin) bin u) ≡ bin
unfolding hex_pairs hex_digits
hex_pairs-hex_digits u [] h = refl
hex_pairs-hex_digits u (b ∷ bin) h = rw (digits_lem u b h.0, hex_pairs-hex_digits u bin h.1)

length-hex_digits :
    (u : Bool) (bin : List ℕ) → length (hex_digits (length bin) bin u) ≡ length bin * 2
unfolding hex_digits
length-hex_digits u [] = refl
length-hex_digits u (b ∷ bin) = omega (arith, length-hex_digits u bin)

-- The digits of either case, read into a buffer of at least as many bytes, are the bytes again.
pub hex2bin-bin2hex :
    (u : Bool) (bin : List ℕ) (binlen : ℕ)
    → All IsByte bin
    → length bin ≤ binlen
    → hex2bin (bin2hex bin (length bin * 2) u) binlen ≡ bin
unfolding hex2bin bin2hex
hex2bin-bin2hex u bin binlen h fits =
    ground (arith, length-hex_digits u bin, hex_pairs-hex_digits u bin h)

-- Where the memory is there, at least one byte is given and every byte is below 256, the
-- allocating coder makes two characters of each byte, from which the allocating decoder makes
-- the same bytes.
pub hex2bin_alloc-bin2hex_alloc :
    (bin : List ℕ)
    → All IsByte bin
    → 0 < length bin
    → (hex : List ℕ) × (bin2hex_alloc true bin ≡ ok hex)
      × (length hex ≡ length bin * 2)
      × (hex2bin_alloc true hex ≡ ok bin)
unfolding bin2hex_alloc hex2bin_alloc bin2hex
hex2bin_alloc-bin2hex_alloc bin h some_byte = (
  bin2hex bin (length bin * 2) false,
  ground arith,
  ground (arith, length-hex_digits false bin),
  ground
      (arith, length-hex_digits false bin, hex2bin-bin2hex false bin ((length bin * 2 + 1) / 2) h),
)
