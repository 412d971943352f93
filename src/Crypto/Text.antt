-- ===== src/Crypto/Text.antt =====
-- Text as code points, decimal numerals, and the hexadecimal text of bytes (Python's `str`,
-- `bytes.hex` and `bytes.fromhex`).
pub mod Hex
use Prim.Native.Char.{Char, code}
use blockchain_application.Prelude.{
  ℕ, zero, suc, ◌+◌, ◌-◌, ◌*◌, ◌/◌, ◌%◌, String, Bool, ◌&&◌, ◌||◌, Option, none, some, List, [],
  ◌∷◌, ltb, leb, if◌then◌else◌, ◌==◌, nat_eq,
}

abbrev pub Bytes : Type 0
Bytes = List ℕ

abbrev pub codes : String → List ℕ
codes String.[] = []
codes (String.◌∷◌ c s) = code c ∷ codes s

-- The order of Python's strings, on their code points.
unfoldable pub lex_ltb : List ℕ → List ℕ → Bool
unfolding nat_eq
lex_ltb [] [] = Bool.false
lex_ltb [] (y ∷ ys) = Bool.true
lex_ltb (x ∷ xs) [] = Bool.false
lex_ltb (x ∷ xs) (y ∷ ys) = ltb x y || ((x == y) && lex_ltb xs ys)

-- The digits of `n`, before those of `acc`.
decimal_from : ℕ → ℕ → Bytes → Bytes
decimal_from zero n acc = acc
decimal_from (suc fuel) n acc =
    let digits = (48 + n % 10) ∷ acc in
    let rest = decimal_from fuel (n / 10) digits in if ltb n 10 then digits else rest

unfoldable pub decimal : ℕ → Bytes
unfolding decimal_from
decimal n = decimal_from (suc n) n []

abbrev pick_char : List Char → ℕ → Char
pick_char [] n = "0"
pick_char (c ∷ cs) zero = c
pick_char (c ∷ cs) (suc n) = pick_char cs n

unfoldable pub hex_char : ℕ → Char
hex_char n =
    pick_char
      ("0" ∷ "1" ∷ "2" ∷ "3" ∷ "4" ∷ "5" ∷ "6" ∷ "7" ∷ "8" ∷ "9" ∷ "a" ∷ "b" ∷ "c" ∷ "d" ∷ "e" ∷ "f"
        ∷ [])
      n

-- `bytes.hex`
unfoldable pub hex : Bytes → String
hex [] = String.[]
hex (b ∷ bs) = String.◌∷◌ (hex_char (b / 16)) (String.◌∷◌ (hex_char (b % 16)) (hex bs))

unfoldable pub hex_value : ℕ → Option ℕ
hex_value c =
    if leb b'0' c && leb c b'9'
    then some (c - b'0')
    else if leb b'a' c && leb c b'f'
    then some (c - b'a' + 10)
    else if leb b'A' c && leb c b'F'
    then some (c - b'A' + 10)
    else none

-- ASCII white space, which `bytes.fromhex` skips between bytes.
abbrev pub is_space : ℕ → Bool
is_space c = (leb 9 c && leb c 13) || (leb 32 c && leb c 32)

abbrev pub join_nibbles : Option ℕ → Option ℕ → Option Bytes → Option Bytes
join_nibbles (some h) (some l) (some bs) = some ((h * 16 + l) ∷ bs)
join_nibbles _ _ _ = none

unfoldable pub unhex : List ℕ → Option Bytes
unfolding hex_value
unhex [] = some []
unhex (c ∷ []) = if is_space c then some [] else none
unhex (c ∷ d ∷ r) = elim (is_space c) [
  | Bool.true ↦ unhex (d ∷ r)
  | Bool.false ↦ join_nibbles (hex_value c) (hex_value d) (unhex r)
]

-- `bytes.fromhex`; `none` is its `ValueError`.
unfoldable pub from_hex : String → Option Bytes
unfolding unhex
from_hex s = unhex (codes s)
