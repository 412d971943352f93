-- ===== src/Crypto/Text/Hex.antt =====
-- The hexadecimal text of bytes can be read back.
use Prim.Native.Char.{code}
use blockchain_application.Prelude.{
  ℕ, zero, suc, ◌+◌, ◌*◌, ◌/◌, ◌%◌, ◌<◌, ◌≡◌, refl, ap, ◌∙◌, Bool, true, false, ◌&&◌, not, Option,
  none, some, List, [], ◌∷◌, arith, ◌==◌, nat_eq, All, all,
}
use blockchain_application.Crypto.Text.{
  Bytes, codes, hex_char, hex, hex_value, is_space, unhex, from_hex,
}

abbrev pub IsByte : ℕ → Type 0
IsByte b = b < 256

-- The numbers below a bound, the largest first.
upto : ℕ → List ℕ
upto zero = []
upto (suc n) = n ∷ upto n

every_upto : (p : ℕ → Bool) (x bound : ℕ) → all p (upto bound) ≡ true → x < bound → p x ≡ true
unfolding upto
every_upto p x zero h small = absurd (omega arith)
every_upto p x (suc n) h small = ground (arith, every_upto p x n)

abbrev reads_as : Option ℕ → ℕ → Bool
reads_as none n = false
reads_as (some m) n = m == n

readable : ℕ → Bool
readable n = not (is_space (code (hex_char n))) && reads_as (hex_value (code (hex_char n))) n

nibbles_readable : all readable (upto 16) ≡ true
unfolding upto readable hex_char hex_value nat_eq
nibbles_readable = refl

reads_as_lem : (o : Option ℕ) (n : ℕ) → reads_as o n ≡ true → o ≡ some n
reads_as_lem none n h = ground arith
reads_as_lem (some m) n h = ground arith

hex_char_digit :
    (n : ℕ)
    → n < 16
    → (is_space (code (hex_char n)) ≡ false) × (hex_value (code (hex_char n)) ≡ some n)
unfolding readable
hex_char_digit n lt = ground (
  arith,
  every_upto readable n 16 nibbles_readable lt,
  reads_as_lem (hex_value (code (hex_char n))) n,
)

unhex-pair :
    (c d h l : ℕ) (r : List ℕ) {bs : Bytes}
    → is_space c ≡ false
    → hex_value c ≡ some h
    → hex_value d ≡ some l
    → unhex r ≡ some bs
    → unhex (c ∷ d ∷ r) ≡ some ((h * 16 + l) ∷ bs)
unfolding unhex
unhex-pair c d h l r skip high low rest = rw (skip, high, low, rest, unhex)

unhex-hex : (bs : Bytes) → All IsByte bs → unhex (codes (hex bs)) ≡ some bs
unfolding unhex hex
unhex-hex [] h = refl
unhex-hex (b ∷ bs) (small, h) =
    let (plain, high) = hex_char_digit (b / 16) (omega arith) in
    let low = (hex_char_digit (b % 16) (omega arith)).1 in
    unhex-pair (code (hex_char (b / 16))) (code (hex_char (b % 16))) (b / 16) (b % 16)
      (codes (hex bs)) plain high low (unhex-hex bs h)
    ∙ ap (λ n. some (n ∷ bs)) (omega arith)

-- For numbers below 256, `bytes.fromhex` reads back what `bytes.hex` wrote.
pub from_hex-hex : (bs : Bytes) → All IsByte bs → from_hex (hex bs) ≡ some bs
unfolding from_hex
from_hex-hex bs h = unhex-hex bs h
