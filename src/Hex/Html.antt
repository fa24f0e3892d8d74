-- ===== src/Hex/Html.antt =====
-- The two passes of `_bin2hex_html` agree.
use esdm.Base.{ℕ, zero, suc, ◌-◌, List, [], ◌∷◌, none, some, Result, ok, err, ◌≡◌, length, einval}
use esdm.Hex.{charbytes}

-- What the writing pass returns where the counting pass returned `n`.
abbrev pub Fits : ℕ → Result (List ℕ) → Type 0
Fits n (err e) = ⊥
Fits n (ok html) = length html ≡ n

-- No character is cut off at the end; `skip` bytes belong to the character that is under way. The
-- part after a byte that starts no character does not matter.
abbrev pub IsWhole : ℕ → List ℕ → Type 0
IsWhole zero [] = Unit
IsWhole (suc skip) [] = ⊥
IsWhole zero (c ∷ str) = elim (charbytes c) [ none ↦ Unit | some bytes ↦ IsWhole (bytes - 1) str ]
IsWhole (suc skip) (c ∷ str) = IsWhole skip str

-- The counting pass: a number of bytes, or EINVAL.
abbrev Counted : Result ℕ → Type 0
Counted (err e) = e ≡ einval
Counted (ok n) = Unit

-- What `bin2hex_html_alloc` returns: no error but EINVAL, or the output with its length.
abbrev pub Handed : Result (List ℕ × ℕ) → Type 0
Handed (err e) = e ≡ einval
Handed (ok (html, outlen)) = length html ≡ outlen
