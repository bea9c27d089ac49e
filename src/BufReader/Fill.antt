-- ===== src/BufReader/Fill.antt =====
-- volo/src/util/buf_reader.rs: the bytes and the bounds of the buffer while it is filled.
use volo.Base.{
  ℕ, ◌-◌, ◌≤◌, ◌<◌, ◌≡◌, refl, sym, ap, [], ◌∷◌, ◌++◌, length, length-take, length-drop, take,
  arith,
}
use volo.Base.Bytes.{Bytes, overwrite}
use volo.BufReader.{
  Read, got, failed, Source, BufReader, Filled, filled, invalid_eof, io_error, panicked,
  out_of_fuel, buffer,
}

take-overwrite :
    (buf new : Bytes) → length new ≤ length buf → take (length new) (overwrite buf new) ≡ new
unfolding overwrite
take-overwrite [] [] h = refl
take-overwrite [] (v ∷ vs) h = absurd (omega arith)
take-overwrite (b ∷ buf) [] h = refl
take-overwrite (b ∷ buf) (v ∷ vs) h = ap (◌∷◌ v) (take-overwrite buf vs (omega arith))

module _ {S : Type 0} where
  -- `pos..len` is within the buffer.
  pub record IsValid (r : BufReader S) : Type 0 where
    pub whole : length r.buf ≡ r.cap
    pub ordered : r.pos ≤ r.len
    pub within : r.len ≤ r.cap

  length-buffer : (r : BufReader S) → IsValid r → length (buffer r) ≡ r.len - r.pos
  unfolding buffer
  length-buffer r v =
      omega
        (arith, length-drop r.pos (take r.len r.buf), length-take r.len r.buf, v.whole, v.within)

  moved :
      (r : BufReader S) → IsValid r → take (r.len - r.pos) (overwrite r.buf (buffer r)) ≡ buffer r
  moved r v =
      let same = length-buffer r v in
      rw (sym same)
        (take-overwrite r.buf (buffer r) (omega (arith, same, v.whole, v.within, v.ordered)))

module _ {S : Type 0} where
  -- After making room, there is enough of it, and the bytes are the same.
  record HasRoom (n : ℕ) (r t : BufReader S) : Type 0 where
    valid : IsValid t
    roomy : n ≤ t.cap - t.pos
    bytes : buffer t ≡ buffer r
    inner_same : t.inner ≡ r.inner

unfoldable pub bytes_of : Read → Bytes
bytes_of failed = []
bytes_of (got bytes) = bytes

-- A reader gives at most as many bytes as there is room for, and those that come next; it gives no
-- bytes without an error only if there is no room or the input has ended.
pub record IsSource {S : Type 0} (source : Source S) (to_come : S → Bytes) : Type 0 where
  pub short : (s : S) (n : ℕ) → length (bytes_of (source.read s n).0) ≤ n
  pub next :
      (s : S) (n : ℕ) → bytes_of (source.read s n).0 ++ to_come (source.read s n).1 ≡ to_come s
  pub ended : (s : S) (n : ℕ) → 0 < n → (source.read s n).0 ≡ got [] → to_come s ≡ []

module _ {S : Type 0} (to_come : S → Bytes) (n : ℕ) (all : Bytes) where
  -- The bounds are kept, and the bytes of the buffer and those to come are the same as before.
  IsWhole : BufReader S → Type 0
  IsWhole r = IsValid r × (buffer r ++ to_come r.inner ≡ all)

  -- The buffer holds `n` bytes; or it does not, and no more bytes come, or a read has failed.
  pub Settles : Filled S → Type 0
  Settles (filled r) = IsWhole r × (n ≤ r.len - r.pos)
  Settles (invalid_eof r) = IsWhole r × ((r.len - r.pos < n) × (to_come r.inner ≡ []))
  Settles (io_error r) = IsWhole r × (r.len - r.pos < n)
  Settles (panicked r) = ⊥
  Settles (out_of_fuel r) = ⊥
