-- ===== src/Crypto/Hex.antt =====
-- What the digest of src/Crypto.cpp is: the lower-case hexadecimal text of the 32 bytes.
use Prim.Native.Char.{Char, code}
use mathlib.Core.List.{append_assoc}
use sm_ext_rpc.Base.{
  ℕ, zero, suc, String, ◌+◌, ◌*◌, ◌/◌, ◌%◌, ◌≤◌, ◌<◌, ◌≡◌, refl, ◌↔◌, ap, ◌∙◌, List, [], ◌∷◌, ◌++◌,
  Bytes, All, length, get_or-append, length-append, arith, ◌==◌, if◌then◌else◌, Bool, true, false,
  ◌&&◌, leb, ◌-◌,
}
use sm_ext_rpc.Crypto.{hex_digit, nul, sprintf_hex, hex_loop, c_string, digest}

abbrev pub hex : Bytes → List Char
hex [] = []
hex (b ∷ bs) = hex_digit (b / 16) ∷ hex_digit (b % 16) ∷ hex bs

sprintf_hex-append :
    (xs : List Char) (a b c : Char) (ys : List Char) (byte : ℕ)
    → sprintf_hex (xs ++ a ∷ b ∷ c ∷ ys) (length xs) byte
      ≡ xs ++ hex_digit (byte / 16) ∷ hex_digit (byte % 16) ∷ nul ∷ ys
unfolding sprintf_hex
sprintf_hex-append [] a b c ys byte = refl
sprintf_hex-append (x ∷ xs) a b c ys byte = ap (◌∷◌ x) (sprintf_hex-append xs a b c ys byte)

-- The loop from round `length seen` on, over a buffer whose text so far is `xs`.
hex_loop-append :
    (bs seen : Bytes) (xs ys : List Char)
    → length xs ≡ length seen * 2
    → length bs * 2 ≤ length ys
    → (zs : List Char) × (hex_loop (length bs) (length seen) (seen ++ bs) (xs ++ nul ∷ ys)
        ≡ xs ++ (hex bs ++ nul ∷ zs))
unfolding hex_loop
hex_loop-append [] seen xs ys h k = (ys, refl)
hex_loop-append (b ∷ bs) seen xs [] h k = absurd (omega arith)
hex_loop-append (b ∷ bs) seen xs (y ∷ []) h k = absurd (omega arith)
hex_loop-append (b ∷ bs) seen xs (y ∷ z ∷ ys) h k =
    let hi = hex_digit (b / 16) in
    let lo = hex_digit (b % 16) in
    let seen' : Bytes = seen ++ b ∷ [] in
    let xs' : List Char = xs ++ hi ∷ lo ∷ [] in
    let shorter : length seen' ≡ suc (length seen) = omega (arith, length-append seen (b ∷ [])) in
    let written : length xs' ≡ length seen' * 2 =
      omega (arith, length-append xs (hi ∷ lo ∷ []), shorter) in
    let ih = hex_loop-append bs seen' xs' ys written (omega arith) in
    (
      ih.0,
      cc (
        ih.1,
        shorter,
        h,
        append_assoc seen (b ∷ []) bs,
        append_assoc xs (hi ∷ lo ∷ []) (nul ∷ ys),
        append_assoc xs (hi ∷ lo ∷ []) (hex bs ++ nul ∷ ih.0),
        get_or-append seen bs b 0,
        sprintf_hex-append xs nul y z ys b,
      ),
    )

-- The text of a list of characters.
abbrev pub text : List Char → String
text [] = ""
text (c ∷ cs) = String.◌∷◌ c (text cs)

abbrev IsText : Char → Type 0
IsText c = (code c == 0) ≡ false

c_string-append : (cs zs : List Char) → All IsText cs → c_string (cs ++ nul ∷ zs) ≡ text cs
unfolding c_string
c_string-append [] zs h = refl
c_string-append (c ∷ cs) zs h = rw (h.0) (ap (String.◌∷◌ c) (c_string-append cs zs h.1))

-- Over the sixteen digits a Boolean property is checked by evaluation.
abbrev passes : (ℕ → Bool) → ℕ → Bool
passes test zero = true
passes test (suc bound) = passes test bound && test bound

test_of : (test : ℕ → Bool) (bound n : ℕ) → passes test bound ≡ true → n < bound → test n ≡ true
test_of test zero n h lt = absurd (omega arith)
test_of test (suc bound) n h lt = ground (arith, test_of test bound n)

-- The value of a hexadecimal digit, read back.
abbrev pub digit_value : ℕ → ℕ
digit_value c = if leb c 57 then c - 48 else c - 87

-- The bytes that a text of pairs of digits stands for.
pub unhex : String → Bytes
unhex String.[] = []
unhex (String.◌∷◌ c String.[]) = []
unhex (String.◌∷◌ c (String.◌∷◌ d s)) = (digit_value (code c) * 16 + digit_value (code d)) ∷ unhex s

abbrev reads_back : ℕ → Bool
reads_back n = digit_value (code (hex_digit n)) == n

abbrev is_printable : ℕ → Bool
is_printable n = leb 48 (code (hex_digit n))

digit_table : passes reads_back 16 ≡ true
unfolding hex_digit
digit_table = refl

printable_table : passes is_printable 16 ≡ true
unfolding hex_digit
printable_table = refl

digit_value-hex_digit : (n : ℕ) → n < 16 → digit_value (code (hex_digit n)) ≡ n
digit_value-hex_digit n h = ground (arith, test_of reads_back 16 n digit_table h)

hex_digit-IsText : (n : ℕ) → n < 16 → IsText (hex_digit n)
hex_digit-IsText n h = ground (arith, test_of is_printable 16 n printable_table h)

-- A byte, as the unsigned character that it is.
abbrev pub IsByte : ℕ → Type 0
IsByte b = b < 256

hex-IsText : (bs : Bytes) → All IsByte bs → All IsText (hex bs)
hex-IsText [] h = tt
hex-IsText (b ∷ bs) h = (
  hex_digit-IsText (b / 16) (omega arith),
  (hex_digit-IsText (b % 16) (omega arith), hex-IsText bs h.1),
)

unhex-hex : (bs : Bytes) → All IsByte bs → unhex (text (hex bs)) ≡ bs
unfolding unhex
unhex-hex [] h = refl
unhex-hex (b ∷ bs) h =
    rw
      (
        digit_value-hex_digit (b / 16) (omega arith),
        digit_value-hex_digit (b % 16) (omega arith),
        unhex-hex bs h.1,
      )
      (ap (λ n. n ∷ bs) (omega arith))

-- The whole loop leaves the digits of the bytes and a terminator, whatever the buffer held.
c_string-hex_loop :
    (n : ℕ) (bs : Bytes) (hash : List Char)
    → length bs ≡ suc n
    → All IsByte bs
    → suc n * 2 < length hash
    → c_string (hex_loop (suc n) 0 bs hash) ≡ text (hex bs)
unfolding hex_loop sprintf_hex
c_string-hex_loop n [] hash h k fits = absurd (omega arith)
c_string-hex_loop n (b ∷ bs) [] h k fits = absurd (omega arith)
c_string-hex_loop n (b ∷ bs) (x ∷ []) h k fits = absurd (omega arith)
c_string-hex_loop n (b ∷ bs) (x ∷ y ∷ []) h k fits = absurd (omega arith)
c_string-hex_loop n (b ∷ bs) (x ∷ y ∷ z ∷ ys) h k fits =
    let hi = hex_digit (b / 16) in
    let lo = hex_digit (b % 16) in
    let rounds : length bs ≡ n = omega arith in
    let rest = hex_loop-append bs (b ∷ []) (hi ∷ lo ∷ []) ys refl (omega arith) in
    let ends = c_string-append (hex (b ∷ bs)) rest.0 (hex-IsText (b ∷ bs) k) in
    ap c_string (cc (rest.1, rounds)) ∙ ends

-- What OpenSSL documents of HMAC with SHA-256: the code has 32 bytes.
pub record IsSha256 (hmac : String → Bytes → Bytes) : Type 0 where
  pub size : (key : String) (message : Bytes) → length (hmac key message) ≡ 32
  pub bytes : (key : String) (message : Bytes) → All IsByte (hmac key message)

module _ (hmac : String → Bytes → Bytes) (sha : IsSha256 hmac) where
  -- Digest is the lower-case hexadecimal text of the 32 bytes of the HMAC, two digits for each
  -- byte in order, for any content of a buffer of at least 65 characters.
  pub digest-hex :
      (hash : List Char) (message : Bytes) (key : String)
      → 65 ≤ length hash
      → digest hmac hash message key ≡ text (hex (hmac key message))
  unfolding digest
  digest-hex hash message key h =
      c_string-hex_loop 31 (hmac key message) hash (sha.size key message) (sha.bytes key message) h

  -- Read back two digits at a time, the text that Digest returns gives the 32 bytes of the HMAC,
  -- for any content of a buffer of at least 65 characters.
  pub unhex-digest :
      (hash : List Char) (message : Bytes) (key : String)
      → 65 ≤ length hash
      → unhex (digest hmac hash message key) ≡ hmac key message
  unhex-digest hash message key h =
      ap unhex (digest-hex hash message key h)
      ∙ unhex-hex (hmac key message) (sha.bytes key message)

  -- Two digests are equal exactly if the two HMACs are, also if they were computed in buffers of
  -- different content of at least 65 characters.
  pub digest_iff :
      (hash hash' : List Char) (m m' : Bytes) (key key' : String)
      → 65 ≤ length hash
      → 65 ≤ length hash'
      → (digest hmac hash m key ≡ digest hmac hash' m' key') ↔ (hmac key m ≡ hmac key' m')
  digest_iff hash hash' m m' key key' h h' = (
    λ e. cc (unhex-digest hash m key h, unhex-digest hash' m' key' h', ap unhex e),
    λ e. cc (digest-hex hash m key h, digest-hex hash' m' key' h', ap (λ bs. text (hex bs)) e),
  )
