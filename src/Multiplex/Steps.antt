-- ===== src/Multiplex/Steps.antt =====
-- volo-thrift/src/transport/multiplex/thrift_transport.rs: the runs of all calls and of the reading
-- task, in any order. What the connection answers is chosen freely.
pub mod Cells
pub mod Owned
pub mod Matched
pub mod Kept
pub mod Answers
pub mod Retired
pub mod Stranded
pub mod Stopped
mod Runs
use volo.Base.{ℕ, ◌≡◌, Bool, true, false, Option, none}
use volo.Base.Maps.{lookup, nat_eq}
use volo.Multiplex.{
  Slot, empty, Phase, starting, open_checked, registering, locking, writing, waiting, cancelled,
  written, forgetting, returned, Reader, at_top, reading, Transport, Requests, check_read_error,
  check_read_closed, register, begin_write, end_write, settle_write, forget, receive, cancel,
  cancel_write, check_write_error, read_failed, read_eof, read_message,
}

-- Where a future can be dropped, outside the write half's lock.
unfoldable pub awaits : {X E : Type 0} → Phase X E → Bool
awaits starting = true
awaits registering = true
awaits locking = true
awaits waiting = true
awaits (forgetting e) = true
awaits _ = false

pub record IsFresh {X E : Type 0} (s : Transport X E) : Type 0 where
  pub no_senders : (k : ℕ) → lookup k s.tx_map ≡ none
  pub at_start : (c : ℕ) → s.phase c ≡ starting
  pub no_answers : (c : ℕ) → s.slot c ≡ empty
  pub running : s.reader ≡ at_top

module _ {X E : Type 0} (seq_of : X → ℕ) (r : Requests) where
  pub data Step (s : Transport X E) : Transport X E → Type 0 where
    checks_error : (c : ℕ) → s.phase c ≡ starting → Step s (check_read_error c s)
    checks_closed : (c : ℕ) → s.phase c ≡ open_checked → Step s (check_read_closed c s)
    registers : (c : ℕ) → s.phase c ≡ registering → Step s (register r c s)
    locks : (c : ℕ) → s.phase c ≡ locking → s.write_half ≡ none → Step s (begin_write c s)
    writes : (c : ℕ) (result : Option E) → s.phase c ≡ writing → Step s (end_write c result s)
    settles :
        (c : ℕ) (result : Option E)
        → s.phase c ≡ written result
        → Step s (settle_write r c result s)
    forgets : (c : ℕ) (e : E) → s.phase c ≡ forgetting e → Step s (forget r c e s)
    receives : (c : ℕ) → s.phase c ≡ waiting → Step s (receive c s)
    cancels : (c : ℕ) → awaits (s.phase c) ≡ true → Step s (cancel c s)
    cancels_write : (c : ℕ) → s.phase c ≡ writing → Step s (cancel_write c s)
    loops : s.reader ≡ at_top → Step s (check_write_error s)
    fails : s.reader ≡ reading → Step s (read_failed s)
    ends : s.reader ≡ reading → Step s (read_eof s)
    delivers : (m : X) → s.reader ≡ reading → Step s (read_message seq_of m s)

  pub data Reach (s : Transport X E) : Transport X E → Type 0 where
    here : Reach s s
    next : {t u : Transport X E} → Reach s t → Step t u → Reach s u
