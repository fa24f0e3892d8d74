-- ===== src/Hex.antt =====
-- The hexadecimal coder of common/binhexbin.c. Characters are their codes and buffers are lists of
-- bytes; an output buffer is the list of the bytes written to it, from its start on.
pub mod RoundTrip
pub mod Html
use Prim.Native.Nat.{bit_and, bit_or}
use esdm.Base.{
  ℕ, zero, suc, ◌+◌, ◌*◌, ◌/◌, ◌%◌, Bool, true, false, ◌&&◌, List, [], ◌∷◌, ◌++◌, Result, ok, err,
  einval, enomem, Option, none, some, Run, ◌>>=◌, ◌||◌, ◌-◌, ltb, leb, ◌==◌, if◌then◌else◌, length,
  get_or, drop,
}

unfoldable pub bin_char : ℕ → ℕ
bin_char hex =
    if leb 48 hex && leb hex 57
    then hex - 48
    else if leb 65 hex && leb hex 70
    then hex - 55
    else if leb 97 hex && leb hex 102
    then hex - 87
    else 0

-- "0123456789abcdef" and "0123456789ABCDEF".
abbrev pub hex_char_map_l : List ℕ
hex_char_map_l =
    48 ∷ 49 ∷ 50 ∷ 51 ∷ 52 ∷ 53 ∷ 54 ∷ 55 ∷ 56 ∷ 57 ∷ 97 ∷ 98 ∷ 99 ∷ 100 ∷ 101 ∷ 102 ∷ []

abbrev pub hex_char_map_u : List ℕ
hex_char_map_u = 48 ∷ 49 ∷ 50 ∷ 51 ∷ 52 ∷ 53 ∷ 54 ∷ 55 ∷ 56 ∷ 57 ∷ 65 ∷ 66 ∷ 67 ∷ 68 ∷ 69 ∷ 70 ∷ []

-- 88 is the character X.
unfoldable pub hex_char : ℕ → Bool → ℕ
hex_char bin u =
    if ltb bin 16
    then (if u then get_or hex_char_map_u bin 88 else get_or hex_char_map_l bin 88)
    else 88

-- The loop of `hex2bin` over as many pairs.
unfoldable pub hex_pairs : ℕ → List ℕ → List ℕ
unfolding bin_char
hex_pairs zero hex = []
hex_pairs (suc chars) hex =
    bit_or (bin_char (get_or hex 0 0) * 16 % 256) (bin_char (get_or hex 1 0))
    ∷ hex_pairs chars (drop 2 hex)

-- The bytes written to a buffer of `binlen` bytes.
unfoldable pub hex2bin : List ℕ → ℕ → List ℕ
unfolding hex_pairs
hex2bin hex binlen =
    let half = length hex / 2 in
    let chars = if ltb half binlen then half else binlen in
    if length hex % 2 == 1
    then bin_char (get_or hex 0 0) ∷ hex_pairs chars (drop 1 hex)
    else hex_pairs chars hex

-- `memory`: the allocation succeeds.
unfoldable pub hex2bin_alloc : Bool → List ℕ → Result (List ℕ)
unfolding hex2bin
hex2bin_alloc memory hex =
    if length hex == 0
    then err einval
    else if memory
    then ok (hex2bin hex ((length hex + 1) / 2))
    else err enomem

-- The loop of `bin2hex` over as many bytes.
unfoldable pub hex_digits : ℕ → List ℕ → Bool → List ℕ
unfolding hex_char
hex_digits zero bin u = []
hex_digits (suc chars) bin u =
    let b = get_or bin 0 0 in
    hex_char (b / 16) u ∷ hex_char (bit_and b 15) u ∷ hex_digits chars (drop 1 bin) u

-- The characters written to a buffer of `hexlen` characters.
unfoldable pub bin2hex : List ℕ → ℕ → Bool → List ℕ
unfolding hex_digits
bin2hex bin hexlen u =
    hex_digits (if ltb (hexlen / 2) (length bin) then hexlen / 2 else length bin) bin u

unfoldable pub bin2hex_alloc : Bool → List ℕ → Result (List ℕ)
unfolding bin2hex
bin2hex_alloc memory bin =
    if length bin == 0
    then err einval
    else if memory
    then ok (bin2hex bin (length bin * 2) false)
    else err enomem

-- The bytes of the character that starts with `byte`, none for a byte that starts no character.
unfoldable pub charbytes : ℕ → Option ℕ
charbytes byte =
    if bit_and byte 0x80 == 0
    then some 1
    else if bit_and byte 0xe0 == 0xc0
    then some 2
    else if bit_and byte 0xf0 == 0xe0
    then some 3
    else if bit_and byte 0xf8 == 0xf0
    then some 4
    else none

unfoldable pub contains : List ℕ → ℕ → Bool
contains [] byte = false
contains (c ∷ cs) byte = if byte == c then true else contains cs byte

-- Whether a byte is copied as it is, by the list of such bytes.
unfoldable pub is_unreserved : List ℕ → ℕ → ℕ → Bool
unfolding contains
is_unreserved unreserved bytes byte = if bytes == 1 then contains unreserved byte else false

unfoldable pub hexbytes : List ℕ → ℕ → ℕ → ℕ
hexbytes unreserved bytes byte = if is_unreserved unreserved bytes byte then bytes else bytes * 3

-- The counting pass of `_bin2hex_html` over what is left of the input, one round per character. A
-- character that is longer than what is left makes the unsigned length wrap: the pass then reads
-- past the input (`none`). As many rounds as bytes are enough.
unfoldable pub html_count : ℕ → List ℕ → List ℕ → ℕ → Run (Result ℕ)
html_count zero unreserved [] reqlen = some (ok (reqlen + 1))
html_count zero unreserved (c ∷ str) reqlen = none
html_count (suc fuel) unreserved [] reqlen = some (ok (reqlen + 1))
html_count (suc fuel) unreserved (c ∷ str) reqlen = elim (charbytes c) [
  | none ↦ some (err einval)
  | some bytes ↦ elim (leb bytes (suc (length str))) [
    | true ↦
        html_count fuel unreserved (drop bytes (c ∷ str)) (reqlen + hexbytes unreserved bytes c)
    | false ↦ none
  ]
]

-- The characters of one round of the writing pass.
unfoldable pub html_char : Bool → ℕ → List ℕ → ℕ → List ℕ
unfolding bin2hex
html_char copied zero str htmllen = []
html_char copied (suc bytes) str htmllen =
    (if copied then get_or str 0 0 ∷ [] else 37 ∷ bin2hex (get_or str 0 0 ∷ []) (htmllen - 1) true)
    ++ html_char copied bytes (drop 1 str) (htmllen - (if copied then 1 else 3))

-- The writing pass of `_bin2hex_html` with what is left of the output buffer, and the closing zero.
unfoldable pub html_write : ℕ → List ℕ → List ℕ → ℕ → List ℕ → Run (Result (List ℕ))
html_write zero unreserved [] htmllen html = some (ok (html ++ 0 ∷ []))
html_write zero unreserved (c ∷ str) htmllen html = none
html_write (suc fuel) unreserved [] htmllen html = some (ok (html ++ 0 ∷ []))
html_write (suc fuel) unreserved (c ∷ str) htmllen html = elim (charbytes c) [
  | none ↦ some (err einval)
  | some bytes ↦ elim (leb htmllen (hexbytes unreserved bytes c) || ltb (suc (length str)) bytes) [
    | true ↦ some (err enomem)
    | false ↦
        html_write fuel unreserved (drop bytes (c ∷ str)) (htmllen - hexbytes unreserved bytes c)
          (html ++ html_char (is_unreserved unreserved bytes c) bytes (c ∷ str) htmllen)
  ]
]

-- `bin2hex_html_alloc`: the output, with its terminating zero, and the length handed out with it.
unfoldable pub bin2hex_html_alloc : Bool → List ℕ → List ℕ → Run (Result (List ℕ × ℕ))
unfolding html_count html_write
bin2hex_html_alloc memory unreserved str =
    if length str == 0
    then some (err einval)
    else html_count (length str) unreserved str 0 >>= λ r. elim r [
      | err e ↦ some (err e)
      | ok outlen ↦
          if memory
          then (html_write (length str) unreserved str outlen [] >>= λ w. elim w [
            | err e ↦ some (err e)
            | ok html ↦ some (ok (html, outlen))
          ])
          else some (err enomem)
    ]
