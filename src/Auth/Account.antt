-- ===== src/Auth/Account.antt =====
-- Account ids (src/ss58.ts). `decode_address` is the address decoder of @polkadot/util-crypto; `none`
-- where it throws.
use materios_gateway.Prelude.{
  ℕ, String, Text, codes, Bool, false, ◌&&◌, ◌||◌, Option, none, some, [], ◌∷◌, length, leb, ltb,
  ◌==◌, if◌then◌else◌,
}
use materios_gateway.Merkle.{Buffer, every}

-- The longest spelling of an account id.
abbrev pub max_account_id_chars : ℕ
max_account_id_chars = 66

abbrev pub is_alphanumeric : ℕ → Bool
is_alphanumeric c =
    (leb b'a' c && leb c b'z') || ((leb b'A' c && leb c b'Z') || (leb b'0' c && leb c b'9'))

-- `/^[15][a-zA-Z0-9]{45,47}$/`
unfoldable pub ss58_shape : Text → Bool
ss58_shape [] = false
ss58_shape (c ∷ cs) =
    (c == b'1' || c == b'5')
    && (every is_alphanumeric cs && (leb 45 (length cs) && leb (length cs) 47))

module _ (decode_address : String → Option Buffer) where
  -- `decodeAccountId`: no text longer than an account id is decoded
  unfoldable pub decode_account_id : String → Option Buffer
  decode_account_id value =
      if ltb max_account_id_chars (length (codes value)) then none else decode_address value

  abbrev is_32_bytes : Option Buffer → Bool
  is_32_bytes none = false
  is_32_bytes (some raw) = length raw == 32

  -- `normalizeSs58` of a text does not throw: it is not empty and decodes to 32 bytes
  unfoldable pub is_normalizable : String → Bool
  unfolding decode_account_id
  is_normalizable address =
      ltb 0 (length (codes address)) && is_32_bytes (decode_account_id address)

  unfoldable pub is_account_address : String → Bool
  is_account_address value = ss58_shape (codes value) || is_normalizable value
