-- ===== src/Multiplex/Pooled/Runs.antt =====
-- volo-thrift/src/transport/multiplex/thrift_transport.rs: a pool with one open connection.
use volo.Base.{ℕ, ◌≡◌, ◌≢◌, refl, false, [], ◌∷◌, none, some}
use volo.Multiplex.{at_top, stopped, Transport, starting, empty, try_checkout, Requests}
use volo.Base.Maps.{lookup}
use volo.Multiplex.Steps.{IsFresh, here}
use volo.Multiplex.Pooled.{poolable, same_handle, take_shared-running}
use volo.Pool.Idle.{expires, checked_out, take_shared, check_out}

abbrev opened : ℕ → Transport ℕ Unit
opened t = record {
  tx_map = [];
  dirty = false;
  write_error = false;
  read_error = false;
  read_closed = false;
  write_half = none;
  reader = at_top;
  phase = λ c. starting;
  slot = λ c. empty;
}

abbrev requests : ℕ → Requests
requests t = record { seq_id = λ c. c; oneway = λ c. false }

opened-IsFresh : (t : ℕ) → IsFresh (opened t)
unfolding lookup
opened-IsFresh t = record {
  no_senders = λ k. refl;
  at_start = λ c. refl;
  no_answers = λ c. refl;
  running = refl;
}

given :
    (take_shared (poolable opened) (some 10) 7 (record { inner = 3; idle_at = 5 } ∷ [])).1
    ≡ checked_out 3
unfolding take_shared expires check_out poolable same_handle try_checkout
given = refl

take_shared-running_example : (opened 3).reader ≢ stopped
take_shared-running_example =
    take_shared-running (λ m. m) requests opened opened (some 10) 7
      (record { inner = 3; idle_at = 5 } ∷ []) 3 opened-IsFresh (λ t. here) given
