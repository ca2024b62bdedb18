-- ===== src/Conv.antt =====
-- commons/conv: hexadecimal and padded byte slices (`Hex`) and 256-bit numbers (`Uint256`).
pub mod Hex
pub mod Uint256
pub mod Tests
