-- ===== src/Base/Unicode.antt =====
-- The case tables of the Rust standard library, which the code calls and which are not modelled.
use Prim.Native.String.{String}

-- `str::to_lowercase` and `str::to_uppercase`.
pub record Unicode : Type 0 where
  pub to_lowercase : String → String
  pub to_uppercase : String → String
