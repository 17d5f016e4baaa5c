-- ===== src/Attest/Address.antt =====
-- internal/attest/psa.go: addrEq and normalizeHex.
use signet_ps.Base.{
  leb, ◌==◌, if◌then◌else◌, Text, codes, text_eq, ℕ, ◌+◌, ◌≡◌, refl, Bool, true, ◌&&◌, ◌||◌, [],
  ◌∷◌, map,
}

abbrev lower_hex : ℕ → ℕ
lower_hex c = if leb b'A' c && leb c b'F' then c + 32 else c

-- `s[2:]` after "0x" or "0X"
strip_0x : Text → Text
strip_0x (a ∷ b ∷ s) = if a == b'0' && (b == b'x' || b == b'X') then s else a ∷ b ∷ s
strip_0x (a ∷ []) = a ∷ []
strip_0x [] = []

unfoldable pub normalize_hex : Text → Text
unfolding strip_0x
normalize_hex s = map lower_hex (strip_0x s)

unfoldable pub addr_eq : Text → Text → Bool
unfolding normalize_hex
addr_eq a b = text_eq (normalize_hex a) (normalize_hex b)

addr_eq_example : addr_eq (codes "0XaB") (codes "Ab") ≡ true
unfolding addr_eq text_eq
addr_eq_example = refl
