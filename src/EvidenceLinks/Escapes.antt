-- ===== src/EvidenceLinks/Escapes.antt =====
-- Percent-encoding, against the decoding that the reader of a link does.
use test_exchange_backend.Base.{
  ℕ, String, not, ◌+◌, ◌-◌, ◌*◌, ◌/◌, ◌%◌, ◌<◌, Bool, true, false, List, [], ◌∷◌, ◌++◌, ◌≡◌, refl,
  ap, ◌∙◌, arith, inl, inr, ◌==◌, ltb, Bool-cases, all, if◌then◌else◌,
}
use test_exchange_backend.Workflow.StorageKey.{codes}
use test_exchange_backend.EvidenceLinks.{sign_path}
use test_exchange_backend.EvidenceLinks.Quoting.{
  is_safe, upper_digit, quote_byte, quote_bytes, encode, utf8, quote,
}

-- the value of a hexadecimal digit in upper case
abbrev digit_value : ℕ → ℕ
digit_value c = if ltb c b'A' then c - b'0' else c - b'7'

-- `%XY` is the byte XY, and every other byte is itself
unfoldable pub unquote : List ℕ → List ℕ
unquote [] = []
unquote (c ∷ []) = c ∷ []
unquote (c ∷ high ∷ []) = c ∷ high ∷ []
unquote (c ∷ high ∷ low ∷ rest) =
    let escaped = unquote rest in
    let plain = unquote (high ∷ low ∷ rest) in
    if c == b'%' then (digit_value high * 16 + digit_value low) ∷ escaped else c ∷ plain

unquote-plain :
    (b : ℕ) (rest : List ℕ) → (b == b'%') ≡ false → unquote (b ∷ rest) ≡ b ∷ unquote rest
unfolding unquote
unquote-plain b [] h = refl
unquote-plain b (x ∷ []) h = refl
unquote-plain b (x ∷ y ∷ rest) h = rw h refl

digit_value-upper_digit : (d : ℕ) → d < 16 → digit_value (upper_digit d) ≡ d
unfolding upper_digit
digit_value-upper_digit d h = ground arith

safe-plain : (b : ℕ) → is_safe b ≡ true → (b == b'%') ≡ false
unfolding is_safe
safe-plain b h = ground arith

unquote-quote_byte :
    (b : ℕ) (rest : List ℕ) → b < 256 → unquote (quote_byte b ++ rest) ≡ b ∷ unquote rest
unfolding quote_byte unquote
unquote-quote_byte b rest h = elim (Bool-cases (is_safe b)) [
  | inl safe ↦ rw safe (unquote-plain b rest (safe-plain b safe))
  | inr unsafe ↦
      rw
        (
          unsafe,
          digit_value-upper_digit (b / 16) (omega arith),
          digit_value-upper_digit (b % 16) (omega arith),
        )
        (ap (λ n. n ∷ unquote rest) (omega arith))
]

-- Percent-decoding a quoted text gives back its bytes.
unquote-quote_bytes :
    (bytes : List ℕ) → all (λ b. ltb b 256) bytes ≡ true → unquote (quote_bytes bytes) ≡ bytes
unfolding quote_bytes unquote all
unquote-quote_bytes [] h = refl
unquote-quote_bytes (b ∷ rest) h =
    unquote-quote_byte b (quote_bytes rest) (ground arith)
    ∙ ap (λ l. b ∷ l) (unquote-quote_bytes rest (ground arith))

all-append : (p : ℕ → Bool) (x y : List ℕ) → all p x ≡ true → all p y ≡ true → all p (x ++ y) ≡ true
unfolding all
all-append p [] y h k = k
all-append p (a ∷ x) y h k = ground (arith, all-append p x y)

utf8-bytes : (c : ℕ) → ltb c 1114112 ≡ true → all (λ b. ltb b 256) (utf8 c) ≡ true
unfolding utf8 all
utf8-bytes c h = ground arith

encode-bytes :
    (text : List ℕ)
    → all (λ c. ltb c 1114112) text ≡ true
    → all (λ b. ltb b 256) (encode text) ≡ true
unfolding encode all
encode-bytes [] h = refl
encode-bytes (c ∷ rest) h =
    all-append (λ b. ltb b 256) (utf8 c) (encode rest) (utf8-bytes c (ground arith))
      (encode-bytes rest (ground arith))

quote-unquote :
    (text : List ℕ) → all (λ c. ltb c 1114112) text ≡ true → unquote (quote text) ≡ encode text
unfolding quote
quote-unquote text h = unquote-quote_bytes (encode text) (encode-bytes text h)

unquote-append :
    (x y : List ℕ) → all (λ c. not (c == b'%')) x ≡ true → unquote (x ++ y) ≡ x ++ unquote y
unfolding all
unquote-append [] y h = refl
unquote-append (c ∷ x) y h =
    unquote-plain c (x ++ y) (ground arith) ∙ ap (λ l. c ∷ l) (unquote-append x y (ground arith))

-- The path of a signing request loses nothing of the storage key: percent-decoding it gives the
-- bucket's address and then the UTF-8 bytes of the key, for code points that Unicode has.
pub sign_path-decodes :
    (storage_key : String)
    → all (λ c. ltb c 1114112) (codes storage_key) ≡ true
    → unquote (sign_path storage_key)
      ≡ codes "/object/sign/test-evidence/" ++ encode (codes storage_key)
unfolding sign_path all
sign_path-decodes storage_key h =
    unquote-append (codes "/object/sign/test-evidence/") (quote (codes storage_key)) refl
    ∙ ap (λ l. codes "/object/sign/test-evidence/" ++ l) (quote-unquote (codes storage_key) h)
