-- ===== src/Proto/Unknown.antt =====
-- `prost::UnknownEnumValue`: a number that no variant of an enum has.
use minerva_server.Std.Num.{ℤ}

pub record UnknownEnumValue : Type 0 where
  pub value : ℤ
