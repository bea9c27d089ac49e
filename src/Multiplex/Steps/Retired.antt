-- ===== src/Multiplex/Steps/Retired.antt =====
-- volo-thrift/src/transport/multiplex/thrift_transport.rs: `Poolable` of a transport whose reading task
-- has ended.
use volo.Base.{
  ℕ, ◌≡◌, refl, sym, ◌∙◌, Bool, true, false, not, ◌&&◌, Option, none, some, Bool-cases, inl, inr,
}
use volo.Base.Maps.{lookup, nat_eq}
use volo.Multiplex.{
  stopped, Transport, Requests, is_empty, move, check_read_error, check_read_closed, register,
  begin_write, end_write, settle_write, forget, receive, cancel, cancel_write, check_write_error,
  read_failed, read_eof, deliver_to, read_message, reusable, try_checkout,
}
use volo.Multiplex.Steps.{
  IsFresh, Step, checks_error, checks_closed, registers, locks, writes, settles, forgets, receives,
  cancels, cancels_write, loops, fails, ends, delivers, Reach, here, next,
}

flagged : (a b : Bool) → (not a && (not true && b)) ≡ false
flagged true b = refl
flagged false b = refl

closing : (a b : Bool) → (not a && (not b && not true)) ≡ false
closing true b = refl
closing false true = refl
closing false false = refl

module _ {X E : Type 0} (seq_of : X → ℕ) (r : Requests) where
  abbrev IsRetired : Transport X E → Type 0
  IsRetired s = s.reader ≡ stopped → reusable s ≡ false

  looped : (s : Transport X E) (b : Bool) → s.write_error ≡ b → IsRetired (check_write_error s)
  unfolding check_write_error reusable
  looped s true is = rw (is) (λ e. refl)
  looped s false is = rw (is) (λ e. absurd cc)

  delivered : (s : Transport X E) (m : X) (o : Option ℕ) → IsRetired (deliver_to (seq_of m) m o s)
  unfolding deliver_to
  delivered s m none = λ e. absurd cc
  delivered s m (some c) = λ e. absurd cc

  Step-IsRetired : {s t : Transport X E} → Step seq_of r s t → IsRetired s → IsRetired t
  unfolding move check_read_error check_read_closed register begin_write end_write settle_write
      forget receive cancel cancel_write check_write_error read_failed read_eof deliver_to
      read_message reusable
  Step-IsRetired (checks_error c at) h = h
  Step-IsRetired (checks_closed c at) h = h
  Step-IsRetired (registers c at) h = elim (Bool-cases (r.oneway c)) [
    | inl one ↦ rw (one) h
    | inr two ↦ rw (two) h
  ]
  Step-IsRetired {s} (locks c at free) h = elim (Bool-cases s.dirty) [
    | inl is ↦ rw (is) (λ e. refl)
    | inr is ↦ rw (is) h
  ]
  Step-IsRetired (writes c result at) h = h
  Step-IsRetired (settles c none at) h = h
  Step-IsRetired (settles c (some e) at) h = λ e. refl
  Step-IsRetired (forgets c e at) h = h
  Step-IsRetired (receives c at) h = h
  Step-IsRetired (cancels c at) h = h
  Step-IsRetired (cancels_write c at) h = h
  Step-IsRetired {s} (loops at) h = looped s s.write_error refl
  Step-IsRetired {s} (fails at) h = λ e. flagged s.write_error (not s.read_closed)
  Step-IsRetired {s} (ends at) h = elim (Bool-cases (is_empty s.tx_map)) [
    | inl is ↦ rw (is) (λ e. closing s.write_error s.read_error)
    | inr is ↦ rw (is) (λ e. flagged s.write_error (not true))
  ]
  Step-IsRetired {s} (delivers m at) h = delivered s m (lookup (seq_of m) s.tx_map)

  Reach-IsRetired : {s t : Transport X E} → IsFresh s → Reach seq_of r s t → IsRetired t
  Reach-IsRetired f here = λ e. let never = sym f.running ∙ e in absurd cc
  Reach-IsRetired f (next run st) = Step-IsRetired st (Reach-IsRetired f run)

  -- In every state that the calls and the reading task reach, in any order: if the task has ended,
  -- then the pool is told that the connection cannot be used again, and is given no share of it.
  pub stopped-reusable :
      {s t : Transport X E}
      → IsFresh s
      → Reach seq_of r s t
      → t.reader ≡ stopped
      → (reusable t ≡ false) × (try_checkout t ≡ none)
  unfolding reusable try_checkout
  stopped-reusable {t} f run ended =
      let no_use = Reach-IsRetired f run ended in (no_use, rw (no_use) refl)
