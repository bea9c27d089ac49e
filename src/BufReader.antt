-- ===== src/BufReader.antt =====
-- volo/src/util/buf_reader.rs: what the file adds to the buffered reader that it was copied from,
-- `fill_buf_at_least` and `compact`.
use volo.Base.{
  ℕ, zero, suc, ◌+◌, ◌-◌, Bool, true, false, not, [], ◌∷◌, ltb, leb, ◌==◌, if◌then◌else◌, length,
  take, drop,
}
use volo.Base.Bytes.{Bytes, overwrite, patch}
pub mod Fill
mod Runs

-- What one `read` of the reader below comes to: bytes, or an I/O error.
pub data Read : Type 0 where
  got : Bytes → Read
  failed : Read

-- The reader below: a read is given the room that there is.
pub record Source (S : Type 0) : Type 0 where
  pub read : S → ℕ → Read × S

pub record BufReader (S : Type 0) : Type 0 where
  pub inner : S
  pub buf : Bytes
  pub pos : ℕ
  pub len : ℕ
  pub cap : ℕ

pub data Filled (S : Type 0) : Type 0 where
  filled invalid_eof io_error panicked out_of_fuel : BufReader S → Filled S

module _ {S : Type 0} where
  -- The bytes that were read and not consumed, `buf[pos..len]`.
  unfoldable pub buffer : BufReader S → Bytes
  buffer r = drop r.pos (take r.len r.buf)

  unfoldable pub compact : BufReader S → BufReader S
  compact r =
      if r.len == r.pos
      then record r { pos = 0; len = 0 }
      else record r { buf = overwrite r.buf (buffer r); pos = 0; len = r.len - r.pos }

  -- The bytes of a read are written behind the others.
  unfoldable pub extend : Bytes → S → BufReader S → BufReader S
  extend bytes s r = record r {
    inner = s;
    buf = patch r.buf r.len bytes;
    len = r.len + length bytes;
  }

  -- An error of the read is returned at once, and so is one for a read of no bytes.
  unfoldable pub on_read : Read → S → BufReader S → (BufReader S → Filled S) → Filled S
  on_read failed s r go_on = io_error (record r { inner = s })
  on_read (got []) s r go_on = invalid_eof (record r { inner = s })
  on_read (got (b ∷ bytes)) s r go_on = go_on (extend (b ∷ bytes) s r)

  unfoldable pub room : ℕ → BufReader S → BufReader S
  room n r = if ltb (r.cap - r.pos) n then compact r else r

  module _ (source : Source S) where
    -- The loop, on fuel.
    unfoldable pub fill_loop : ℕ → ℕ → BufReader S → Filled S
    fill_loop zero n r = out_of_fuel r
    fill_loop (suc fuel) n r =
        let (size, s) = source.read r.inner (r.cap - r.len) in
        let rest = on_read size s r (fill_loop fuel n) in
        if ltb (r.len - r.pos) n then rest else filled r

    unfoldable pub fill_buf_at_least : ℕ → BufReader S → Filled S
    fill_buf_at_least n r =
        if n == 0
        then filled r
        else if leb n (r.len - r.pos)
        then filled r
        else if not (leb n r.cap)
        then panicked r
        else fill_loop (suc n) n (room n r)
