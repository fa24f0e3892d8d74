-- ===== src/Rpc/Headers.antt =====
-- The memory images of the headers and of packed messages.
use esdm.Base.{
  ℕ, ◌+◌, ◌≤◌, ◌<◌, false, List, [], ◌∷◌, ◌++◌, ◌≡◌, refl, sym, ◌∙◌, arith, ltb, length,
  length-append, drop,
}
use mathlib.Core.List.{append_assoc, append-nil}
use esdm.Rpc.{
  max_msg_size, image32, read32, cs_header, sc_header, write_data_to_buf, append_data, packed_size,
}
use esdm.Rpc.Receive.{concat}

pub length-concat : (message : List (List ℕ)) → length (concat message) ≡ packed_size message
length-concat [] = refl
length-concat (piece ∷ message) =
    omega (arith, length-append piece (concat message), length-concat message)

-- No piece is left out of a message that is not too long.
pub append_data-concat :
    (message : List (List ℕ)) (written : List ℕ)
    → length written + packed_size message ≤ max_msg_size
    → append_data message written ≡ written ++ concat message
unfolding append_data write_data_to_buf
append_data-concat [] written h = sym (append-nil written)
append_data-concat (piece ∷ message) written h =
    let fits : ltb max_msg_size (length written + length piece) ≡ false = ground arith in
    let len = length-append written piece in
    rw (fits, append_data)
      (append_data-concat message (written ++ piece) (omega (arith, len))
        ∙ append_assoc written piece (concat message))

-- The fields of the two headers, read back.
pub cs_fields :
    (m l r : ℕ) (rest : List ℕ)
    → m < 4294967296
    → l < 4294967296
    → r < 4294967296
    → (read32 0 (cs_header m l r ++ rest) ≡ m)
      × (read32 4 (cs_header m l r ++ rest) ≡ l)
      × (read32 8 (cs_header m l r ++ rest) ≡ r)
      × (drop 12 (cs_header m l r ++ rest) ≡ rest)
unfolding read32 cs_header image32
cs_fields m l r rest hm hl hr = (omega arith, omega arith, omega arith, refl)

pub sc_fields :
    (c m l r : ℕ) (rest : List ℕ)
    → c < 4294967296
    → l < 4294967296
    → (read32 0 (sc_header c m l r ++ rest) ≡ c)
      × (read32 8 (sc_header c m l r ++ rest) ≡ l)
      × (drop 16 (sc_header c m l r ++ rest) ≡ rest)
unfolding read32 sc_header image32
sc_fields c m l r rest hc hl = (omega arith, omega arith, refl)
