-- ===== src/Protocol/OpCodes.antt =====
-- The codes of impl/protocol/HotRodConstants.h, its tests of a status, and the response that belongs
-- to a request (toOpRespCode of impl/protocol/HeaderParams.cpp).
use cpp_client.Prelude.{Option, ℕ, Bool, ◌||◌, List, [], ◌∷◌, none, some, ◌==◌}
use cpp_client.Prelude.Maps.{lookup, nat_key}
use cpp_client.Exceptions.{Outcome, ok, throws, internal}

abbrev pub request_magic : ℕ
request_magic = 0xA0

abbrev pub response_magic : ℕ
response_magic = 0xA1

abbrev pub error_response : ℕ
error_response = 0x50

unfoldable pub is_success : ℕ → Bool
is_success status = (status == 0x00) || ((status == 0x06) || ((status == 0x03) || (status == 0x07)))

unfoldable pub is_not_executed : ℕ → Bool
is_not_executed status = (status == 0x01) || ((status == 0x04) || (status == 0x08))

unfoldable pub is_not_exist : ℕ → Bool
is_not_exist status = status == 0x02

unfoldable pub has_previous : ℕ → Bool
has_previous status =
    (status == 0x03) || ((status == 0x07) || ((status == 0x04) || (status == 0x08)))

unfoldable pub has_compatibility : ℕ → Bool
has_compatibility status = (status == 0x06) || ((status == 0x07) || (status == 0x08))

unfoldable pub is_invalid_iteration : ℕ → Bool
is_invalid_iteration status = status == 0x05

unfoldable pub is_event : ℕ → Bool
is_event code = (code == 0x60) || ((code == 0x63) || ((code == 0x61) || (code == 0x62)))

unfoldable pub is_counter_event : ℕ → Bool
is_counter_event code = code == 0x66

-- The cases of the switch, in its order: a request and its response.
abbrev pub responses : List (ℕ × ℕ)
responses =
    (0x01, 0x02)
    ∷ (0x03, 0x04)
    ∷ (0x05, 0x06)
    ∷ (0x07, 0x08)
    ∷ (0x09, 0x0A)
    ∷ (0x0B, 0x0C)
    ∷ (0x0D, 0x0E)
    ∷ (0x0F, 0x10)
    ∷ (0x11, 0x12)
    ∷ (0x13, 0x14)
    ∷ (0x29, 0x2A)
    ∷ (0x15, 0x16)
    ∷ (0x17, 0x18)
    ∷ (0x19, 0x1A)
    ∷ (0x1B, 0x1C)
    ∷ (0x1D, 0x1E)
    ∷ (0x2B, 0x2C)
    ∷ (0x1F, 0x20)
    ∷ (0x21, 0x22)
    ∷ (0x23, 0x24)
    ∷ (0x25, 0x26)
    ∷ (0x27, 0x28)
    ∷ (0x2F, 0x30)
    ∷ (0x31, 0x32)
    ∷ (0x33, 0x34)
    ∷ (0x35, 0x36)
    ∷ (0x37, 0x38)
    ∷ (0x39, 0x3A)
    ∷ (0x4B, 0x4C)
    ∷ (0x4D, 0x4E)
    ∷ (0x4F, 0x51)
    ∷ (0x5E, 0x5F)
    ∷ (0x52, 0x53)
    ∷ (0x56, 0x57)
    ∷ (0x54, 0x55)
    ∷ (0x58, 0x59)
    ∷ (0x64, 0x65)
    ∷ (0x5A, 0x5B)
    ∷ (0x5C, 0x5D)
    ∷ (0x3B, 0x3C)
    ∷ (0x3D, 0x3E)
    ∷ (0x3F, 0x40)
    ∷ []

-- The default of the switch throws.
unfoldable pub respond : Option ℕ → Outcome ℕ
respond none = throws internal
respond (some r) = ok r

unfoldable pub to_op_resp_code : ℕ → Outcome ℕ
unfolding respond
to_op_resp_code code = respond (lookup code responses)
