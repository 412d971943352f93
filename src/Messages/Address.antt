-- ===== src/Messages/Address.antt =====
-- `short_addr` of src/types/messages.py, and the slices of a text that it takes.
use blockchain_application.Prelude.{ℕ, zero, suc, ◌-◌, String, ◌<>◌}

abbrev text_length : String → ℕ
text_length String.[] = 0
text_length (String.◌∷◌ c s) = suc (text_length s)

-- `s[:n]`
abbrev take_text : ℕ → String → String
take_text zero s = String.[]
take_text (suc n) String.[] = String.[]
take_text (suc n) (String.◌∷◌ c s) = String.◌∷◌ c (take_text n s)

-- `s[n:]`
abbrev pub drop_text : ℕ → String → String
drop_text zero s = s
drop_text (suc n) String.[] = String.[]
drop_text (suc n) (String.◌∷◌ c s) = drop_text n s

-- The prefix and the suffix have three characters each; a shorter text is its own suffix.
unfoldable pub short_addr : String → String
short_addr addr = take_text 3 addr <> "..." <> drop_text (text_length addr - 3) addr
