-- ===== src/Crypto.antt =====
-- src/Crypto.cpp: the digest that signs requests and replies. HMAC-SHA256 is OpenSSL's and is a
-- parameter, from a key and a message to the bytes of the authentication code.
pub mod Hex
use Prim.Native.Char.{Char, code}
use sm_ext_rpc.Base.{
  ℕ, zero, suc, String, ◌*◌, ◌/◌, ◌%◌, List, [], ◌∷◌, Bytes, get_or, set, ◌==◌, if◌then◌else◌,
}

-- The digits of `%x`.
abbrev pub hex_digits : List Char
hex_digits =
    "0" ∷ "1" ∷ "2" ∷ "3" ∷ "4" ∷ "5" ∷ "6" ∷ "7" ∷ "8" ∷ "9" ∷ "a" ∷ "b" ∷ "c" ∷ "d" ∷ "e" ∷ "f"
    ∷ []

pub hex_digit : ℕ → Char
hex_digit n = get_or hex_digits n "0"

-- The character that ends a C string.
abbrev pub nul : Char
nul = "\0"

-- `sprintf(&hash[i], "%02x", byte)`: two digits and the terminator.
pub sprintf_hex : List Char → ℕ → ℕ → List Char
sprintf_hex hash i byte =
    set (set (set hash i (hex_digit (byte / 16))) (suc i) (hex_digit (byte % 16))) (suc (suc i)) nul

-- The loop over `c`, with the rounds that are left.
pub hex_loop : ℕ → ℕ → Bytes → List Char → List Char
hex_loop zero c digest hash = hash
hex_loop (suc rounds) c digest hash =
    hex_loop rounds (suc c) digest (sprintf_hex hash (c * 2) (get_or digest c 0))

-- `std::string(hash)`: the characters before the terminator.
pub c_string : List Char → String
c_string [] = ""
c_string (c ∷ hash) = if code c == 0 then "" else String.◌∷◌ c (c_string hash)

module _ (hmac : String → Bytes → Bytes) (hash : List Char) where
  -- `Digest`; `hash` is what the 128 characters of the local buffer hold before the loop.
  pub digest : Bytes → String → String
  unfolding hex_loop sprintf_hex c_string hex_digit
  digest message key = c_string (hex_loop 32 0 (hmac key message) hash)
