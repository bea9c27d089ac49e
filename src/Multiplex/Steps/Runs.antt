-- ===== src/Multiplex/Steps/Runs.antt =====
-- volo-thrift/src/transport/multiplex/thrift_transport.rs: two calls over one connection.
use volo.Base.{ℕ, ◌+◌, ◌≡◌, refl, ◌⊎◌, false, [], none, some, arith}
use volo.Base.Maps.{lookup, insert, remove, nat_eq}
use volo.Multiplex.{
  empty, ok, Phase, starting, waiting, cancelled, at_top, reading, stopped, Transport, Requests,
  set_at, drop_sender, send_all, move, check_read_error, check_read_closed, register, begin_write,
  end_write, settle_write, received, receive, check_write_error, read_failed, read_eof, deliver_to,
  read_message, call_result,
}
use volo.Multiplex.Steps.{
  IsFresh, checks_error, checks_closed, registers, locks, writes, settles, receives, loops, fails,
  delivers, Reach, here, next,
}
use volo.Multiplex.Steps.Matched.{call-IsOwn}
use volo.Multiplex.Steps.Owned.{IsOwn}
use volo.Multiplex.Steps.Answers.{EndsNext, read-EndsNext}
use volo.Multiplex.Steps.Stopped.{stranded-Waits}

-- A message is its sequence id.
abbrev id_of : ℕ → ℕ
id_of m = m

abbrev requests : Requests
requests = record { seq_id = λ c. c + 7; oneway = λ c. false }

abbrev opened : Transport ℕ Unit
opened = record {
  tx_map = [];
  dirty = false;
  write_error = false;
  read_error = false;
  read_closed = false;
  write_half = none;
  reader = at_top;
  phase = λ c. starting;
  slot = λ c. empty;
}

opened-IsFresh : IsFresh opened
unfolding lookup
opened-IsFresh = record {
  no_senders = λ k. refl;
  at_start = λ c. refl;
  no_answers = λ c. refl;
  running = refl;
}

-- Call 0 finds the connection open.
abbrev checked : Transport ℕ Unit
checked = check_read_closed 0 (check_read_error 0 (check_write_error opened))

checked-Reach : Reach id_of requests opened checked
unfolding check_read_closed check_read_error check_write_error move set_at
checked-Reach = next (next (next here (loops refl)) (checks_error 0 refl)) (checks_closed 0 refl)

abbrev sending : Transport ℕ Unit → Transport ℕ Unit
sending s = settle_write requests 0 none (end_write 0 none (begin_write 0 (register requests 0 s)))

abbrev sent_out : Transport ℕ Unit
sent_out = sending checked

sent_out-Reach : Reach id_of requests opened sent_out
unfolding check_read_closed check_read_error check_write_error move set_at register begin_write
    end_write settle_write drop_sender lookup insert
sent_out-Reach =
    next
      (next (next (next checked-Reach (registers 0 refl)) (locks 0 refl refl)) (writes 0 none refl))
      (settles 0 none refl)

abbrev answered : Transport ℕ Unit
answered = receive 0 (read_message id_of 7 sent_out)

answered-Reach : Reach id_of requests opened answered
unfolding check_read_closed check_read_error check_write_error move set_at register begin_write
    end_write settle_write drop_sender lookup insert read_message deliver_to
answered-Reach = next (next sent_out-Reach (delivers 7 refl)) (receives 0 refl)

answered_phase : answered.phase 0 ≡ Phase.returned (ok (some 7))
unfolding check_read_closed check_read_error check_write_error move set_at register begin_write
    end_write settle_write drop_sender lookup insert remove read_message deliver_to receive received
answered_phase = refl

answered_result : call_result {X = ℕ} {E = Unit} false (ok (some 7)) ≡ ok (some 7)
unfolding call_result
answered_result = refl

call-IsOwn_example : IsOwn id_of requests 0 (some 7)
call-IsOwn_example =
    call-IsOwn id_of requests opened-IsFresh answered-Reach answered_phase answered_result

sent_out_reader : sent_out.reader ≡ reading
unfolding check_read_closed check_read_error check_write_error move register begin_write end_write
    settle_write
sent_out_reader = refl

sent_out_phase : sent_out.phase 0 ≡ waiting
unfolding check_read_closed check_read_error check_write_error move set_at register begin_write
    end_write settle_write
sent_out_phase = refl

read-EndsNext_example :
    EndsNext id_of requests 0 (read_failed sent_out)
    × EndsNext id_of requests 0 (read_eof sent_out)
    × ((m : ℕ) → m ≡ 7 → EndsNext id_of requests 0 (read_message id_of m sent_out))
read-EndsNext_example =
    read-EndsNext id_of requests opened-IsFresh sent_out-Reach sent_out_reader refl sent_out_phase

-- The connection breaks between the checks of call 0 and its entry into the map.
abbrev stuck : Transport ℕ Unit
stuck = sending (read_failed checked)

stuck-Reach : Reach id_of requests opened stuck
unfolding check_read_closed check_read_error check_write_error move set_at register begin_write
    end_write settle_write drop_sender lookup insert read_failed
stuck-Reach =
    next
      (next (next (next (next checked-Reach (fails refl)) (registers 0 refl)) (locks 0 refl refl))
        (writes 0 none refl))
      (settles 0 none refl)

stuck_reader : stuck.reader ≡ stopped
unfolding register begin_write end_write settle_write move read_failed check_read_closed
    check_read_error check_write_error
stuck_reader = refl

stuck_phase : stuck.phase 0 ≡ waiting
unfolding register begin_write end_write settle_write move read_failed check_read_closed
    check_read_error check_write_error set_at
stuck_phase = refl

stuck_slot : stuck.slot 0 ≡ empty
unfolding register begin_write end_write settle_write move read_failed check_read_closed
    check_read_error check_write_error set_at drop_sender lookup send_all
stuck_slot = refl

stuck_start : stuck.phase 1 ≡ starting
unfolding register begin_write end_write settle_write move read_failed check_read_closed
    check_read_error check_write_error set_at
stuck_start = refl

stranded-Waits_example :
    ((check_read_error 1 stuck).phase 0 ≡ waiting)
    ⊎ ((check_read_error 1 stuck).phase 0 ≡ cancelled)
stranded-Waits_example =
    stranded-Waits id_of requests opened-IsFresh stuck-Reach (λ k same. omega (arith, same))
      stuck_reader stuck_phase stuck_slot (next here (checks_error 1 stuck_start))
