-- ===== src/Shipment/Symbols.antt =====
-- The validators of symbols in contracts/shipment/src/validation.rs. They read the XDR bytes of the
-- symbol: a 4-byte tag, its length as 4 bytes, and the characters padded to 4 bytes.
use navin_contracts.Host.{◌>>◌, fail_if, trap_unless}
use navin_contracts.Shipment.Store.{Call}
use navin_contracts.Shipment.Errors.{NavinError}
use navin_contracts.Prelude.{
  ℕ, List, [], ◌∷◌, length, Bool, true, false, leb, not, ◌||◌, ◌&&◌, ◌==◌, ◌+◌, ◌*◌, ◌^◌, zero, suc,
  if◌then◌else◌,
}

-- The byte at an index of the 32-byte buffer, which is 0 past the end of the XDR.
abbrev pub byte_at : List ℕ → ℕ → ℕ
byte_at [] n = 0
byte_at (b ∷ bs) zero = b
byte_at (b ∷ bs) (suc n) = byte_at bs n

-- `u32::from_be_bytes` of bytes 4 to 7
abbrev pub char_count : List ℕ → ℕ
char_count xdr =
    byte_at xdr 4 * 2 ^ 24 + byte_at xdr 5 * 2 ^ 16 + byte_at xdr 6 * 2 ^ 8 + byte_at xdr 7

-- `byte.is_ascii_alphanumeric() || byte == b'_'`
abbrev pub is_symbol_char : ℕ → Bool
is_symbol_char b =
    (leb 48 b && leb b 57) || ((leb 65 b && leb b 90) || ((leb 97 b && leb b 122) || b == 95))

-- The test of every byte from an index on, as many as the second argument says.
unfoldable pub all_symbol_chars : List ℕ → ℕ → ℕ → Bool
all_symbol_chars xdr i zero = true
all_symbol_chars xdr i (suc n) =
    let rest = all_symbol_chars xdr (i + 1) n in
    if is_symbol_char (byte_at xdr i) then rest else false

module _ {T : Type 0} where
  unfoldable pub validate_symbol : List ℕ → Call T (Unit {0})
  validate_symbol xdr = do
    fail_if (length xdr == 8) NavinError.invalid_symbol
    fail_if (not (leb 12 (length xdr) && leb (length xdr) 20)) NavinError.invalid_symbol

  -- `raw[8..8 + char_count]` panics past the end of the buffer.
  unfoldable pub validate_symbol_chars : List ℕ → Call T (Unit {0})
  unfolding all_symbol_chars
  validate_symbol_chars xdr = do
    fail_if (char_count xdr == 0) NavinError.invalid_symbol
    trap_unless (leb (8 + char_count xdr) 32)
    fail_if (not (all_symbol_chars xdr 8 (char_count xdr))) NavinError.invalid_symbol

  unfoldable pub validate_checkpoint_symbol : List ℕ → Call T (Unit {0})
  unfolding validate_symbol_chars
  validate_checkpoint_symbol xdr = do
    fail_if (leb (length xdr) 8) NavinError.invalid_symbol
    fail_if (not (leb 12 (length xdr) && leb (length xdr) 20)) NavinError.invalid_symbol
    validate_symbol_chars xdr
