-- ===== src/Multiplex.antt =====
-- volo-thrift/src/transport/multiplex/thrift_transport.rs: many calls over one connection. Here: the
-- state of a `ThriftTransport`, the parts of `send` and of the task that reads. A part ends where
-- other tasks can run in between: at a load or store of a flag, or at the end of a lock.
pub mod Steps
pub mod Pooled
use volo.Base.{
  ℕ, Bool, true, false, not, ◌&&◌, List, [], ◌∷◌, Option, none, some, ◌==◌, if◌then◌else◌,
}
use volo.Base.Maps.{Map, lookup, insert, remove, nat_eq}

-- What the reading task sends to a caller: `Ok(Some(_))`, `Ok(None)` or an error.
pub data Answer (X : Type 0) : Type 0 where
  response : X → Answer X
  closed broken : Answer X

-- A oneshot channel of a call: nothing yet, an answer, or a sender that was dropped.
pub data Slot (X : Type 0) : Type 0 where
  empty dropped : Slot X
  sent : Answer X → Slot X

pub data ClientError (E : Type 0) : Type 0 where
  connection_error connection_closed connection_dirty recv_error unexpected_eof : ClientError E
  encode_error : E → ClientError E

pub data Outcome (X E : Type 0) : Type 0 where
  ok : Option X → Outcome X E
  err : ClientError E → Outcome X E

-- Where a call stands in `send`: before the loads of `read_error` and of `read_closed`, before the
-- lock of `tx_map`, before the lock of the write half, in it, after it, before the entry is removed
-- again, at `rx.await`, at its end, or dropped by its caller.
pub data Phase (X E : Type 0) : Type 0 where
  starting open_checked registering locking writing waiting cancelled : Phase X E
  written : Option E → Phase X E
  forgetting : E → Phase X E
  returned : Outcome X E → Phase X E

-- The reading task: at the top of its loop, in `try_next`, or ended.
pub data Reader : Type 0 where
  at_top reading stopped : Reader

-- The shared state, and that of every call. A call is a number; `tx_map` has the call whose sender
-- is kept under a `seq_id`.
pub record Transport (X E : Type 0) : Type 0 where
  pub tx_map : Map ℕ ℕ
  pub dirty : Bool
  pub write_error : Bool
  pub read_error : Bool
  pub read_closed : Bool
  pub write_half : Option ℕ
  pub reader : Reader
  pub phase : ℕ → Phase X E
  pub slot : ℕ → Slot X

unfoldable pub set_at : {A : Type 0} → ℕ → A → (ℕ → A) → ℕ → A
set_at c v f d = if c == d then v else f d

unfoldable pub drop_sender : {X : Type 0} → Option ℕ → (ℕ → Slot X) → ℕ → Slot X
drop_sender none f = f
drop_sender (some c) f = set_at c dropped f

unfoldable pub send_all : {X : Type 0} → Answer X → Map ℕ ℕ → (ℕ → Slot X) → ℕ → Slot X
send_all a [] f = f
send_all a ((k, c) ∷ m) f = send_all a m (set_at c (sent a) f)

unfoldable pub is_empty : {K V : Type 0} → Map K V → Bool
is_empty [] = true
is_empty (kv ∷ m) = false

-- The calls: their sequence ids, and which of them await no answer.
pub record Requests : Type 0 where
  pub seq_id : ℕ → ℕ
  pub oneway : ℕ → Bool

module _ {X E : Type 0} where
  unfoldable pub move : ℕ → Phase X E → Transport X E → Transport X E
  move c p s = record s { phase = set_at c p s.phase }

  unfoldable pub check_read_error : ℕ → Transport X E → Transport X E
  check_read_error c s =
      move c (if s.read_error then returned (err connection_error) else open_checked) s

  unfoldable pub check_read_closed : ℕ → Transport X E → Transport X E
  check_read_closed c s =
      move c (if s.read_closed then returned (err connection_closed) else registering) s

  -- Under the write half's lock, to the call of its encoder.
  unfoldable pub begin_write : ℕ → Transport X E → Transport X E
  begin_write c s =
      if s.dirty
      then record s {
        write_error = true;
        phase = set_at c (returned (err connection_dirty)) s.phase;
      }
      else record s { dirty = true; write_half = some c; phase = set_at c writing s.phase }

  unfoldable pub end_write : ℕ → Option E → Transport X E → Transport X E
  end_write c result s = record s {
    dirty = false;
    write_half = none;
    phase = set_at c (written result) s.phase;
  }

  unfoldable pub received : Slot X → Phase X E
  received empty = waiting
  received dropped = returned (err recv_error)
  received (sent (response m)) = returned (ok (some m))
  received (sent closed) = returned (ok none)
  received (sent broken) = returned (err connection_error)

  unfoldable pub receive : ℕ → Transport X E → Transport X E
  receive c s = move c (received (s.slot c)) s

  -- A future that is dropped gives its lock back, and leaves `dirty` as it is.
  unfoldable pub cancel : ℕ → Transport X E → Transport X E
  cancel c s = move c cancelled s

  unfoldable pub cancel_write : ℕ → Transport X E → Transport X E
  cancel_write c s = record s { write_half = none; phase = set_at c cancelled s.phase }

  -- The reading task.
  unfoldable pub check_write_error : Transport X E → Transport X E
  check_write_error s = record s { reader = if s.write_error then stopped else reading }

  unfoldable pub read_failed : Transport X E → Transport X E
  read_failed s = record s {
    read_error = true;
    slot = send_all broken s.tx_map s.slot;
    tx_map = [];
    reader = stopped;
  }

  unfoldable pub read_eof : Transport X E → Transport X E
  read_eof s =
      if is_empty s.tx_map then record s { read_closed = true; reader = stopped } else record s {
        read_error = true;
        slot = send_all closed s.tx_map s.slot;
        tx_map = [];
        read_closed = true;
        reader = stopped;
      }

  unfoldable pub deliver_to : ℕ → X → Option ℕ → Transport X E → Transport X E
  deliver_to k m none s = record s { reader = at_top }
  deliver_to k m (some c) s = record s {
    tx_map = remove k s.tx_map;
    slot = set_at c (sent (response m)) s.slot;
    reader = at_top;
  }

  module _ (seq_of : X → ℕ) where
    unfoldable pub read_message : X → Transport X E → Transport X E
    read_message m s = deliver_to (seq_of m) m (lookup (seq_of m) s.tx_map) s

  module _ (r : Requests) where
    unfoldable pub register : ℕ → Transport X E → Transport X E
    register c s = if r.oneway c then move c locking s else record s {
      slot = drop_sender (lookup (r.seq_id c) s.tx_map) s.slot;
      tx_map = insert (r.seq_id c) c s.tx_map;
      phase = set_at c locking s.phase;
    }

    unfoldable pub settle_write : ℕ → Option E → Transport X E → Transport X E
    settle_write c none s = move c (if r.oneway c then returned (ok none) else waiting) s
    settle_write c (some e) s = record s {
      write_error = true;
      phase =
          set_at c (if r.oneway c then returned (err (encode_error e)) else forgetting e) s.phase;
    }

    unfoldable pub forget : ℕ → E → Transport X E → Transport X E
    forget c e s = record s {
      slot = drop_sender (lookup (r.seq_id c) s.tx_map) s.slot;
      tx_map = remove (r.seq_id c) s.tx_map;
      phase = set_at c (returned (err (encode_error e))) s.phase;
    }

  unfoldable pub reusable : Transport X E → Bool
  reusable s = not s.write_error && (not s.read_error && not s.read_closed)

  -- A clone shares all of the state.
  unfoldable pub try_checkout : Transport X E → Option (Transport X E)
  try_checkout s =
      if not s.write_error && (not s.read_error && not s.read_closed) then some s else none

  -- Multiplex `Client::call`: an answer of a two-way call that is no message is an error.
  unfoldable pub call_result : Bool → Outcome X E → Outcome X E
  call_result false (ok none) = err unexpected_eof
  call_result oneway outcome = outcome
