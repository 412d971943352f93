-- ===== src/Crypto/Encoding.antt =====
-- src/crypto/encoding.py: canonical JSON (`json.dumps` with sorted keys, no white space and ASCII
-- escapes) and SHA-256 over it. SHA-256 is a parameter.
pub mod Order
use blockchain_application.Prelude.{
  ℕ, ◌+◌, ◌-◌, ◌/◌, ◌%◌, String, Bool, ◌&&◌, List, [], ◌∷◌, ◌++◌, map, ltb, leb, if◌then◌else◌,
  ◌==◌, nat_eq,
}
use blockchain_application.Crypto.Text.{Bytes, codes, lex_ltb, decimal, hex, hex_char}
use Prim.Native.Char.{code}

-- A JSON-safe Python object. The program's only floats are whole numbers.
mutual
  pub data Json : Type 0 where
    null : Json
    bool : Bool → Json
    int : ℕ → Json
    float : ℕ → Json
    str : String → Json
    list : Items → Json
    dict : Fields → Json

  pub data Items : Type 0 where
    nil : Items
    cons : Json → Items → Items

  pub data Fields : Type 0 where
    end : Fields
    field : String → Json → Fields → Fields

-- `\uXXXX`
abbrev unicode_escape : ℕ → Bytes
unicode_escape c =
    b'\\'
    ∷ b'u'
    ∷ map (λ n. code (hex_char n)) (c / 4096 % 16 ∷ c / 256 % 16 ∷ c / 16 % 16 ∷ c % 16 ∷ [])

-- One character of a text under `ensure_ascii`.
escape : ℕ → Bytes
unfolding nat_eq hex_char
escape c =
    if c == b'"'
    then b'\\' ∷ b'"' ∷ []
    else if c == b'\\'
    then b'\\' ∷ b'\\' ∷ []
    else if c == 10
    then b'\\' ∷ b'n' ∷ []
    else if c == 13
    then b'\\' ∷ b'r' ∷ []
    else if c == 9
    then b'\\' ∷ b't' ∷ []
    else if c == 12
    then b'\\' ∷ b'f' ∷ []
    else if c == 8
    then b'\\' ∷ b'b' ∷ []
    else if leb 32 c && leb c 126
    then c ∷ []
    else if ltb c 0x10000
    then unicode_escape c
    else unicode_escape (0xd800 + (c - 0x10000) / 1024) ++ unicode_escape (0xdc00 + c % 1024)

escape_all : List ℕ → Bytes
unfolding escape
escape_all [] = []
escape_all (c ∷ cs) = escape c ++ escape_all cs

quote : String → Bytes
unfolding escape_all
quote s = b'"' ∷ (escape_all (codes s) ++ (b'"' ∷ []))

-- The parts of a list or a dict, separated by commas.
join : List Bytes → Bytes
join [] = []
join (x ∷ []) = x
join (x ∷ y ∷ xs) = x ++ (b',' ∷ join (y ∷ xs))

-- `sort_keys=True`: a key goes before the first one that is greater.
unfoldable pub insert_key {ℓ} : {A : Type ℓ} → String → A → List (String × A) → List (String × A)
unfolding lex_ltb
insert_key k v [] = (k, v) ∷ []
insert_key k v ((j, w) ∷ l) =
    let rest = insert_key k v l in
    if lex_ltb (codes k) (codes j) then (k, v) ∷ ((j, w) ∷ l) else (j, w) ∷ rest

unfoldable pub sort_keys {ℓ} : {A : Type ℓ} → List (String × A) → List (String × A)
unfolding insert_key
sort_keys [] = []
sort_keys ((k, v) ∷ l) = insert_key k v (sort_keys l)

abbrev render_field : String × Bytes → Bytes
render_field (k, v) = quote k ++ (b':' ∷ v)

unfoldable mutual
  unfolding decimal quote join sort_keys

  pub dumps : Json → Bytes
  dumps null = codes "null"
  dumps (bool b) = if b then codes "true" else codes "false"
  dumps (int n) = decimal n
  dumps (float n) = decimal n ++ codes ".0"
  dumps (str s) = quote s
  dumps (list xs) = b'[' ∷ (join (dump_items xs) ++ (b']' ∷ []))
  dumps (dict fs) = b'{' ∷ (join (map render_field (sort_keys (dump_fields fs))) ++ (b'}' ∷ []))

  dump_items : Items → List Bytes
  dump_items nil = []
  dump_items (cons x xs) = dumps x ∷ dump_items xs

  dump_fields : Fields → List (String × Bytes)
  dump_fields end = []
  dump_fields (field k v fs) = (k, dumps v) ∷ dump_fields fs

abbrev pub to_items : List String → Items
to_items [] = nil
to_items (s ∷ ss) = cons (str s) (to_items ss)

abbrev pub to_fields : List (String × String) → Fields
to_fields [] = end
to_fields ((k, v) ∷ d) = field k (str v) (to_fields d)

unfoldable pub canonical_bytes : Json → Bytes
unfolding dumps
canonical_bytes obj = dumps obj

-- `hashlib.sha256(data).digest()` as a parameter.
module _ (digest : Bytes → Bytes) where
  unfoldable pub sha256_hex : Bytes → String
  unfolding hex
  sha256_hex bytes = hex (digest bytes)

  unfoldable pub hash_obj : Json → String
  unfolding sha256_hex canonical_bytes
  hash_obj obj = sha256_hex (canonical_bytes obj)
