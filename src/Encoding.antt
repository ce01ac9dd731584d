-- ===== src/Encoding.antt =====
-- web/src/lib/base64.ts and web/src/lib/clipboard.ts. A string between the bytes and base 64 is the
-- list of its UTF-16 units. `btoa` and `atob` answer none where they throw; `encode` and `decode`
-- are those of TextEncoder and TextDecoder.
use sky_panel.Base.{
  ℕ, ◌%◌, ◌^◌, ◌<◌, ◌≡◌, refl, ap, ◌∙◌, arith, String, Option, none, some, Bool, true, false, List,
  [], ◌∷◌, All,
}

-- `binary += String.fromCharCode(b)`, for each byte: a byte is a unit.
unfoldable pub units_of : List ℕ → List ℕ
units_of [] = []
units_of (b ∷ bs) = b % 2 ^ 16 ∷ units_of bs

-- `bytes[i] = binary.charCodeAt(i)`: a Uint8Array keeps the low 8 bits.
unfoldable pub bytes_of : List ℕ → List ℕ
bytes_of [] = []
bytes_of (u ∷ us) = u % 2 ^ 8 ∷ bytes_of us

abbrev pub AreBytes : List ℕ → Type 0
AreBytes bs = All (λ (b : ℕ). b < 256) bs

units_of-AreBytes : (bs : List ℕ) → AreBytes bs → units_of bs ≡ bs
unfolding units_of
units_of-AreBytes [] h = refl
units_of-AreBytes (b ∷ bs) h =
    let same : b % 2 ^ 16 ≡ b = omega (arith, h.0) in rw (same, units_of-AreBytes bs h.1) refl

bytes_of-AreBytes : (bs : List ℕ) → AreBytes bs → bytes_of bs ≡ bs
unfolding bytes_of
bytes_of-AreBytes [] h = refl
bytes_of-AreBytes (b ∷ bs) h =
    let same : b % 2 ^ 8 ≡ b = omega (arith, h.0) in rw (same, bytes_of-AreBytes bs h.1) refl

module _ (btoa : List ℕ → Option String) (atob : String → Option (List ℕ)) where
  unfoldable pub bytes_to_base64 : List ℕ → Option String
  unfolding units_of
  bytes_to_base64 bytes = btoa (units_of bytes)

  abbrev all_bytes : Option (List ℕ) → Option (List ℕ)
  all_bytes none = none
  all_bytes (some units) = some (bytes_of units)

  unfoldable pub base64_to_bytes : String → Option (List ℕ)
  unfolding bytes_of
  base64_to_bytes base64 = all_bytes (atob base64)

  -- What `atob` and `btoa` promise for the units of bytes
  abbrev pub IsInverse : Type 0
  IsInverse =
      (units : List ℕ)
      → AreBytes units
      → (base64 : String) × ((btoa units ≡ some base64) × (atob base64 ≡ some units))

  -- Bytes that are sent as base 64 are read back as they were.
  pub base64_to_bytes-bytes_to_base64 :
      IsInverse
      → (bytes : List ℕ) → AreBytes bytes
      → (base64 : String) × ((bytes_to_base64 bytes ≡ some base64)
          × (base64_to_bytes base64 ≡ some bytes))
  unfolding bytes_to_base64 base64_to_bytes
  base64_to_bytes-bytes_to_base64 inverse bytes h =
      let (base64, both) = inverse bytes h in
      (
        base64,
        (
          ap btoa (units_of-AreBytes bytes h) ∙ both.0,
          ap all_bytes both.1 ∙ ap some (bytes_of-AreBytes bytes h),
        ),
      )

  module _ (encode : String → List ℕ) (decode : List ℕ → String) where
    unfoldable pub encode_utf8_base64 : String → Option String
    unfolding bytes_to_base64
    encode_utf8_base64 text = bytes_to_base64 (encode text)

    abbrev decoded : Option (List ℕ) → Option String
    decoded none = none
    decoded (some bytes) = some (decode bytes)

    unfoldable pub decode_utf8_base64 : String → Option String
    unfolding base64_to_bytes
    decode_utf8_base64 base64 = decoded (base64_to_bytes base64)

-- How `navigator.clipboard.writeText` ends, and the legacy path: the answer of `execCommand`, or an
-- exception on the way.
pub data Write : Type 0 where
  written refused : Write

pub data Legacy : Type 0 where
  executed : Bool → Legacy
  thrown : Legacy

unfoldable pub legacy_copy : Legacy → Bool
legacy_copy (executed ok) = ok
legacy_copy thrown = false

-- `copyText`: the text is written by the clipboard where there is one and the context is secure.
unfoldable pub copy_text : (has_clipboard is_secure : Bool) → Write → Legacy → Bool
unfolding legacy_copy
copy_text true true written legacy = true
copy_text true true refused legacy = legacy_copy legacy
copy_text true false write legacy = legacy_copy legacy
copy_text false secure write legacy = legacy_copy legacy
