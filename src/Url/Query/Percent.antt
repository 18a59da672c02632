-- ===== src/Url/Query/Percent.antt =====
-- Percent-coding of `urllib.parse`, and UTF-8.
use social_media_scraper.Base.{
  ℕ, ◌+◌, ◌-◌, ◌*◌, ◌/◌, ◌%◌, ◌&&◌, ◌||◌, Option, none, some, List, [], ◌∷◌, ◌++◌, ltb, leb, ◌==◌,
  if◌then◌else◌, Text, map,
}
use social_media_scraper.Text.{is_alnum, is_digit}

utf8 : ℕ → List ℕ
utf8 c =
    if ltb c 0x80
    then c ∷ []
    else if ltb c 0x800
    then (0xC0 + c / 64) ∷ (0x80 + c % 64) ∷ []
    else if ltb c 0x1_0000
    then (0xE0 + c / 4096) ∷ (0x80 + c / 64 % 64) ∷ (0x80 + c % 64) ∷ []
    else (0xF0 + c / 262144) ∷ (0x80 + c / 4096 % 64) ∷ (0x80 + c / 64 % 64) ∷ (0x80 + c % 64) ∷ []

hex_digit : ℕ → ℕ
hex_digit n = if ltb n 10 then b'0' + n else b'A' + (n - 10)

quote_byte : ℕ → Text
unfolding is_alnum hex_digit
quote_byte b =
    if is_alnum b || b == b'_' || b == b'.' || b == b'-' || b == b'~'
    then b ∷ []
    else if b == b' '
    then b'+' ∷ []
    else b'%' ∷ hex_digit (b / 16) ∷ hex_digit (b % 16) ∷ []

quote_bytes : List ℕ → Text
unfolding quote_byte
quote_bytes [] = []
quote_bytes (b ∷ bs) = quote_byte b ++ quote_bytes bs

-- `quote_plus(s)`
unfoldable pub quote_plus : Text → Text
unfolding utf8 quote_bytes
quote_plus [] = []
quote_plus (c ∷ s) = quote_bytes (utf8 c) ++ quote_plus s

-- What a percent-coded text spells: bytes, and code points past ASCII that stand for themselves.
pub data Piece : Type 0 where
  byte : ℕ → Piece
  char : ℕ → Piece

hex_value : ℕ → Option ℕ
unfolding is_digit
hex_value c =
    if is_digit c
    then some (c - b'0')
    else if leb b'A' c && leb c b'F'
    then some (c - b'A' + 10)
    else if leb b'a' c && leb c b'f'
    then some (c - b'a' + 10)
    else none

hex_pair : ℕ → ℕ → Option ℕ
unfolding hex_value
hex_pair h l = elim (hex_value h) [
  | none ↦ none
  | some m ↦ elim (hex_value l) [ none ↦ none | some n ↦ some (m * 16 + n) ]
]

plain : ℕ → Piece
plain c = if ltb c 0x80 then byte c else char c

pieces : Text → List Piece
unfolding hex_pair plain
pieces (c ∷ h ∷ l ∷ s) =
    let coded = pieces s in
    let rest = pieces (h ∷ l ∷ s) in
    if c == b'%'
    then elim (hex_pair h l) [ none ↦ plain c ∷ rest | some b ↦ byte b ∷ coded ]
    else plain c ∷ rest
pieces (c ∷ d ∷ []) = plain c ∷ plain d ∷ []
pieces (c ∷ []) = plain c ∷ []
pieces [] = []

-- A decoder between two bytes: at a boundary, or inside a sequence, with the bits so far, the
-- number of bytes to come and the range that the next one must lie in.
pub data Decoder : Type 0 where
  boundary : Decoder
  inside : ℕ → ℕ → ℕ → ℕ → Decoder

lead_byte : ℕ → List ℕ × Decoder
lead_byte b =
    if ltb b 0x80
    then (b ∷ [], boundary)
    else if leb 0xC2 b && leb b 0xDF
    then ([], inside (b - 0xC0) 1 0x80 0xBF)
    else if leb 0xE0 b && leb b 0xEF
    then (
      [],
      inside (b - 0xE0) 2 (if b == 0xE0 then 0xA0 else 0x80) (if b == 0xED then 0x9F else 0xBF),
    )
    else if leb 0xF0 b && leb b 0xF4
    then (
      [],
      inside (b - 0xF0) 3 (if b == 0xF0 then 0x90 else 0x80) (if b == 0xF4 then 0x8F else 0xBF),
    )
    else (0xFFFD ∷ [], boundary)

flush : Decoder → List ℕ
flush boundary = []
flush (inside _ _ _ _) = 0xFFFD ∷ []

feed : Decoder → ℕ → List ℕ × Decoder
unfolding lead_byte
feed boundary b = lead_byte b
feed (inside bits left lo hi) b =
    let bits' = bits * 64 + (b - 0x80) in
    let (out, next) = lead_byte b in
    if leb lo b && leb b hi
    then (if left == 1 then (bits' ∷ [], boundary) else ([], inside bits' (left - 1) 0x80 0xBF))
    else (0xFFFD ∷ out, next)

decode : Decoder → List Piece → Text
unfolding feed flush
decode d [] = flush d
decode d (byte b ∷ ps) = let (out, d') = feed d b in out ++ decode d' ps
decode d (char c ∷ ps) = flush d ++ c ∷ decode boundary ps

-- `unquote(s.replace("+", " "))`
unfoldable pub unquote_plus : Text → Text
unfolding pieces decode
unquote_plus s = decode boundary (pieces (map (λ c. if c == b'+' then b' ' else c) s))
