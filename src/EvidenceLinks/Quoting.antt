-- ===== src/EvidenceLinks/Quoting.antt =====
-- `urllib.parse.quote(text, safe="/")` and `str.rstrip("/")`, on a text as its code points.
use test_exchange_backend.Base.{
  ℕ, ◌+◌, ◌/◌, ◌%◌, Bool, ◌&&◌, ◌||◌, List, [], ◌∷◌, ◌++◌, ◌==◌, ltb, leb, if◌then◌else◌, reverse,
}

-- the UTF-8 bytes of a code point
unfoldable pub utf8 : ℕ → List ℕ
utf8 c =
    if ltb c 128
    then c ∷ []
    else if ltb c 2048
    then (192 + c / 64) ∷ (128 + c % 64) ∷ []
    else if ltb c 65536
    then (224 + c / 4096) ∷ (128 + c / 64 % 64) ∷ (128 + c % 64) ∷ []
    else (240 + c / 262144) ∷ (128 + c / 4096 % 64) ∷ (128 + c / 64 % 64) ∷ (128 + c % 64) ∷ []

unfoldable pub encode : List ℕ → List ℕ
unfolding utf8
encode [] = []
encode (c ∷ rest) = utf8 c ++ encode rest

-- a letter, a digit, one of `_.-~`, or the slash
unfoldable pub is_safe : ℕ → Bool
is_safe b =
    leb b'a' b && leb b b'z'
    || leb b'A' b && leb b b'Z'
    || leb b'0' b && leb b b'9'
    || b == b'_'
    || b == b'.'
    || b == b'-'
    || b == b'~'
    || b == b'/'

-- a hexadecimal digit in upper case
unfoldable pub upper_digit : ℕ → ℕ
upper_digit d = if ltb d 10 then b'0' + d else b'7' + d

unfoldable pub quote_byte : ℕ → List ℕ
unfolding is_safe upper_digit
quote_byte b = if is_safe b then b ∷ [] else b'%' ∷ upper_digit (b / 16) ∷ upper_digit (b % 16) ∷ []

unfoldable pub quote_bytes : List ℕ → List ℕ
unfolding quote_byte
quote_bytes [] = []
quote_bytes (b ∷ rest) = quote_byte b ++ quote_bytes rest

unfoldable pub quote : List ℕ → List ℕ
unfolding encode quote_bytes
quote text = quote_bytes (encode text)

unfoldable pub lstrip_slash : List ℕ → List ℕ
lstrip_slash [] = []
lstrip_slash (c ∷ rest) =
    let stripped = lstrip_slash rest in if c == b'/' then stripped else c ∷ rest

unfoldable pub rstrip_slash : List ℕ → List ℕ
unfolding lstrip_slash
rstrip_slash text = reverse (lstrip_slash (reverse text))
