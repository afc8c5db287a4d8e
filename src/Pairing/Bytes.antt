-- ===== src/Pairing/Bytes.antt =====
-- The calls of Node's Buffer and of the language's texts in core/src/pairing_service.ts: numbers as
-- bytes and as digits, and hexadecimal text.
use Prim.Native.Char.{code}
use Prim.Native.String.{String}
use swarm_x.Common.{
  ℕ, zero, suc, ◌+◌, ◌-◌, ◌*◌, ◌/◌, ◌%◌, Bool, true, false, ◌&&◌, Option, none, some, List, [], ◌∷◌,
  ◌++◌, ltb, leb, ◌==◌, if◌then◌else◌, length, drop,
}

abbrev pub Buffer : Type 0
Buffer = List ℕ

-- The lowest bytes of a number, the highest first: `writeBigUInt64BE` for eight.
unfoldable pub big_endian : ℕ → ℕ → Buffer
big_endian zero v = []
big_endian (suc n) v = big_endian n (v / 256) ++ (v % 256) ∷ []

-- `readUInt32BE(0)`.
unfoldable pub read_big_endian : Buffer → ℕ → ℕ
read_big_endian [] acc = acc
read_big_endian (b ∷ bs) acc = read_big_endian bs (acc * 256 + b)

-- `Buffer.alloc(n)`.
unfoldable pub zeros : ℕ → Buffer
zeros zero = []
zeros (suc n) = 0 ∷ zeros n

-- `num.toString()`, for a number with at most so many digits.
unfoldable pub decimal : ℕ → ℕ → Buffer
decimal zero v = []
decimal (suc n) v =
    let front = decimal n (v / 10) in
    if ltb v 10 then (48 + v) ∷ [] else front ++ (48 + v % 10) ∷ []

abbrev pub hex_digit : ℕ → Option ℕ
hex_digit c =
    if leb 48 c && leb c 57
    then some (c - 48)
    else if leb 97 c && leb c 102
    then some (c - 87)
    else if leb 65 c && leb c 70
    then some (c - 55)
    else none

abbrev pub hex_byte : ℕ → ℕ → Option ℕ
hex_byte a b = elim (hex_digit a) [
  | none ↦ none
  | some high ↦ elim (hex_digit b) [ none ↦ none | some low ↦ some (high * 16 + low) ]
]

-- `Buffer.from(text, 'hex')`, which stops at the first pair that is no byte.
unfoldable pub from_hex : Buffer → Buffer
from_hex (a ∷ b ∷ text) =
    let rest = from_hex text in elim (hex_byte a b) [ none ↦ [] | some v ↦ v ∷ rest ]
from_hex (a ∷ []) = []
from_hex [] = []

abbrev pub hex_char : ℕ → ℕ
hex_char v = if ltb v 10 then 48 + v else 87 + v

-- `buffer.toString('hex')`.
unfoldable pub to_hex : Buffer → Buffer
to_hex [] = []
to_hex (b ∷ bs) = hex_char (b / 16) ∷ hex_char (b % 16) ∷ to_hex bs

-- `===` of two texts.
unfoldable pub same_text : Buffer → Buffer → Bool
same_text [] [] = true
same_text (a ∷ xs) (b ∷ ys) = a == b && same_text xs ys
same_text _ _ = false

-- `Buffer.from(text, 'utf-8')` of an ASCII text.
abbrev pub codes : String → Buffer
codes String.[] = []
codes (String.◌∷◌ c s) = code c ∷ codes s

-- `buffer.subarray(buffer.length - n)`.
abbrev pub last_bytes : ℕ → Buffer → Buffer
last_bytes n b = drop (length b - n) b
