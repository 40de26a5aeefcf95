-- ===== src/Bytes.antt =====
-- Byte strings and the Go primitives on them that the program uses: slicing, copy, little-endian
-- words (encoding/binary), hexadecimal text (encoding/hex) and decimal text (strconv).
pub mod Slice
pub mod Splice
pub mod Endian
pub mod Hex
pub mod Decimal
pub mod Text
pub mod Dict
