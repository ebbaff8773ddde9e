-- ===== src/Mtrr/Tests.antt =====
-- The memory types on a concrete processor.
use boot.Base.{replicate}
use boot.Mtrr.{Mtrr}

abbrev blank : Mtrr
blank = record {
  mtrrcap = 0;
  var_mtrrs = replicate 8 (record { base = 0; mask = 0; type = 0; enabled = 0 });
  fix_mtrrs = replicate 88 0;
}
