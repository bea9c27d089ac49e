-- ===== src/BufReader/Runs.antt =====
-- volo/src/util/buf_reader.rs: a buffer of eight bytes over a reader that gives three at a time.
use volo.Base.{take, drop, [], ◌∷◌, min}
use volo.Base.Bytes.{Bytes}
use volo.BufReader.{Source, got, BufReader}

abbrev threes : Source Bytes
threes = record { read = λ s n. (got (take (min n 3) s), drop (min n 3) s) }

-- Two bytes are left at the end of the buffer.
abbrev nearly_full : BufReader Bytes
nearly_full = record {
  inner = 10 ∷ 11 ∷ 12 ∷ 13 ∷ 14 ∷ [];
  buf = 1 ∷ 2 ∷ 3 ∷ 4 ∷ 5 ∷ 6 ∷ 7 ∷ 8 ∷ [];
  pos = 6;
  len = 8;
  cap = 8;
}
