-- ===== src/Std.antt =====
-- The parts of Go's standard library that the program computes with: strconv and fmt on integers,
-- math/big.SetString, encoding/hex, encoding/base64 and strings.
pub mod Decimal
pub mod Hex
pub mod Strings
pub mod Base64
