-- ===== src/Multiplex/Steps/Kept.antt =====
-- volo-thrift/src/transport/multiplex/thrift_transport.rs: while a call waits, its sender is kept or
-- has been used, so that whatever the reading task reads for it ends it.
use volo.Base.{
  ℕ, ◌≡◌, ◌≢◌, refl, sym, ◌∙◌, ap, Bool, true, false, Option, none, some, ◌==◌, ==_iff,
  if◌then◌else◌,
}
use volo.Base.Maps.{Map, lookup, insert, remove, nat_eq, lookup-insert, lookup-remove}
use volo.Multiplex.{
  response, closed, broken, Slot, empty, dropped, sent, ClientError, connection_error,
  connection_closed, encode_error, ok, err, Phase, open_checked, registering, locking, writing,
  waiting, cancelled, written, forgetting, returned, Transport, Requests, set_at, drop_sender,
  is_empty, move, check_read_error, check_read_closed, register, begin_write, end_write,
  settle_write, forget, received, receive, cancel, cancel_write, check_write_error, read_failed,
  read_eof, deliver_to, read_message,
}
use volo.Multiplex.Steps.{
  IsFresh, Step, checks_error, checks_closed, registers, locks, writes, settles, forgets, receives,
  cancels, cancels_write, loops, fails, ends, delivers, Reach, here, next,
}
use volo.Multiplex.Steps.Cells.{holds-set_at, set_at-elsewhere, drop_sender-empty, send_all-empty}

-- From its entry in `tx_map` on, until it is given up.
unfoldable pub enrolled : {X E : Type 0} → Phase X E → Bool
enrolled locking = true
enrolled writing = true
enrolled (written none) = true
enrolled waiting = true
enrolled _ = false

module _ (k j c : ℕ) (m : Map ℕ ℕ) where
  lookup-remove_kept : lookup j m ≡ some c → lookup k m ≢ some c → lookup j (remove k m) ≡ some c
  lookup-remove_kept at other = found (k == j) refl (lookup-remove k j m)
    where
      found :
          (b : Bool)
          → (k == j) ≡ b
          → lookup j (remove k m) ≡ (if b then none else lookup j m)
          → lookup j (remove k m) ≡ some c
      found true same e = absurd (other (ap (λ i. lookup i m) ((==_iff k j).0 same) ∙ at))
      found false same e = e ∙ at

  lookup-insert_kept :
      (d : ℕ) → lookup j m ≡ some c → lookup k m ≢ some c → lookup j (insert k d m) ≡ some c
  lookup-insert_kept d at other = found (k == j) refl (lookup-insert k j d m)
    where
      found :
          (b : Bool)
          → (k == j) ≡ b
          → lookup j (insert k d m) ≡ (if b then some d else lookup j m)
          → lookup j (insert k d m) ≡ some c
      found true same e = absurd (other (ap (λ i. lookup i m) ((==_iff k j).0 same) ∙ at))
      found false same e = e ∙ at

check-away :
    {X E : Type 0} (b : Bool) (e : ClientError E) (q : Phase X E)
    → enrolled q ≡ false
    → enrolled (if b then returned (err e) else q) ≡ false
unfolding enrolled
check-away true e q h = refl
check-away false e q h = h

failed-away :
    (X : Type 0) {E : Type 0} (b : Bool) (e : E)
    → enrolled {X = X} (if b then returned (err (encode_error e)) else forgetting e) ≡ false
unfolding enrolled
failed-away X true e = refl
failed-away X false e = refl

module _ {X E : Type 0} (r : Requests) where
  -- Of a call that is enrolled and has no answer yet, the sender is in the map.
  abbrev pub Keeps : Map ℕ ℕ → (ℕ → Slot X) → ℕ → Phase X E → Type 0
  Keeps m slot c p =
      r.oneway c ≡ false → enrolled p ≡ true → slot c ≡ empty → lookup (r.seq_id c) m ≡ some c

  abbrev pub AreKept : Transport X E → Type 0
  AreKept s = (c : ℕ) → Keeps s.tx_map s.slot c (s.phase c)

  module _ (s : Transport X E) where
    -- A call that goes on, and one that ends.
    onward :
        (c : ℕ) (p q : Phase X E)
        → s.phase c ≡ p
        → enrolled p ≡ true
        → AreKept s
        → (d : ℕ) → Keeps s.tx_map s.slot d (set_at c q s.phase d)
    onward c p q at old h =
        holds-set_at (Keeps s.tx_map s.slot) c q s.phase (λ two e. h c two (ap enrolled at ∙ old)) h

    away :
        (c : ℕ) (q : Phase X E)
        → enrolled q ≡ false
        → AreKept s
        → (d : ℕ) → Keeps s.tx_map s.slot d (set_at c q s.phase d)
    unfolding enrolled
    away c q new h =
        holds-set_at (Keeps s.tx_map s.slot) c q s.phase
          (λ two e. let never : false ≡ true = sym new ∙ e in absurd cc) h

    begin_write-AreKept :
        (b : Bool) (c : ℕ)
        → s.dirty ≡ b
        → s.phase c ≡ locking
        → AreKept s
        → AreKept (begin_write c s)
    unfolding begin_write enrolled
    begin_write-AreKept true c is at h = rw (is) (away c _ refl h)
    begin_write-AreKept false c is at h = rw (is) (onward c locking writing at refl h)

    dropping-AreKept :
        (k : ℕ) (f : Map ℕ ℕ → Map ℕ ℕ)
        → ((j c : ℕ)
            → lookup j s.tx_map ≡ some c
            → lookup k s.tx_map ≢ some c
            → lookup j (f s.tx_map) ≡ some c)
        → AreKept s
        → (d : ℕ) → Keeps (f s.tx_map) (drop_sender (lookup k s.tx_map) s.slot) d (s.phase d)
    dropping-AreKept k f keep h d two at free =
        let (before, other) = drop_sender-empty (lookup k s.tx_map) s.slot d free in
        keep (r.seq_id d) d (h d two at before) other

    register-AreKept : (b : Bool) (c : ℕ) → r.oneway c ≡ b → AreKept s → AreKept (register r c s)
    unfolding register move
    register-AreKept true c one h = rw (one) (
        holds-set_at (Keeps s.tx_map s.slot) c locking s.phase
          (λ two e. let never : true ≡ false = sym one ∙ two in absurd cc) h)
    register-AreKept false c one h =
        let k = r.seq_id c in
        let self = lookup-insert k k c s.tx_map ∙ rw ((==_iff k k).1 refl) refl in
        rw (one) (
          holds-set_at (Keeps (insert k c s.tx_map) (drop_sender (lookup k s.tx_map) s.slot)) c
            locking s.phase (λ two e free. self)
            (dropping-AreKept k (insert k c)
              (λ j d at other. lookup-insert_kept k j d s.tx_map c at other) h))

    forget-AreKept : (c : ℕ) (e : E) → AreKept s → AreKept (forget r c e s)
    unfolding forget enrolled
    forget-AreKept c e h =
        let k = r.seq_id c in
        holds-set_at (Keeps (remove k s.tx_map) (drop_sender (lookup k s.tx_map) s.slot)) c
          (returned (err (encode_error e))) s.phase (λ two at free. absurd cc)
          (dropping-AreKept k (remove k)
            (λ j d at other. lookup-remove_kept k j d s.tx_map at other) h)

    deliver_to-AreKept :
        (k : ℕ) (m : X) (o : Option ℕ)
        → lookup k s.tx_map ≡ o
        → AreKept s
        → AreKept (deliver_to k m o s)
    unfolding deliver_to
    deliver_to-AreKept k m none is h = h
    deliver_to-AreKept k m (some c) is h = λ d two at free.
        let (before, other) =
          set_at-elsewhere c d (sent (response m)) empty s.slot (λ e. cc) free in
        lookup-remove_kept k (r.seq_id d) d s.tx_map (h d two at before)
          (λ e. let same : some c ≡ some d = sym is ∙ e in other cc)

    read_failed-AreKept : AreKept s → AreKept (read_failed s)
    unfolding read_failed
    read_failed-AreKept h d two at free =
        let (before, other) = send_all-empty broken s.tx_map s.slot d (r.seq_id d) free in
        absurd (other (h d two at before))

    read_eof-AreKept : (b : Bool) → is_empty s.tx_map ≡ b → AreKept s → AreKept (read_eof s)
    unfolding read_eof
    read_eof-AreKept true is h = rw (is) h
    read_eof-AreKept false is h = rw (is) (λ d two at free.
        let (before, other) = send_all-empty closed s.tx_map s.slot d (r.seq_id d) free in
        absurd (other (h d two at before)))

    settle_write-AreKept :
        (b : Bool) (c : ℕ)
        → r.oneway c ≡ b
        → s.phase c ≡ written none
        → AreKept s
        → (d : ℕ)
        → Keeps s.tx_map s.slot d (set_at c (if b then returned (ok none) else waiting) s.phase d)
    unfolding enrolled
    settle_write-AreKept true c one at h = away c _ refl h
    settle_write-AreKept false c one at h = onward c (written none) waiting at refl h

    received-AreKept :
        (c : ℕ) (v : Slot X)
        → s.slot c ≡ v
        → s.phase c ≡ waiting
        → AreKept s
        → (d : ℕ) → Keeps s.tx_map s.slot d (set_at c (received v) s.phase d)
    unfolding received enrolled
    received-AreKept c empty is at h = onward c waiting waiting at refl h
    received-AreKept c dropped is at h = away c _ refl h
    received-AreKept c (sent (response m)) is at h = away c _ refl h
    received-AreKept c (sent closed) is at h = away c _ refl h
    received-AreKept c (sent broken) is at h = away c _ refl h

module _ {X E : Type 0} (seq_of : X → ℕ) (r : Requests) where
  pub Step-AreKept : {s t : Transport X E} → Step seq_of r s t → AreKept r s → AreKept r t
  unfolding move check_read_error check_read_closed end_write settle_write forget receive cancel
      cancel_write check_write_error read_message enrolled
  Step-AreKept {s} (checks_error c at) h =
      away r s c _ (check-away s.read_error connection_error open_checked refl) h
  Step-AreKept {s} (checks_closed c at) h =
      away r s c _ (check-away s.read_closed connection_closed registering refl) h
  Step-AreKept {s} (registers c at) h = register-AreKept r s (r.oneway c) c refl h
  Step-AreKept {s} (locks c at free) h = begin_write-AreKept r s s.dirty c refl at h
  Step-AreKept {s} (writes c result at) h = onward r s c writing (written result) at refl h
  Step-AreKept {s} (settles c none at) h = settle_write-AreKept r s (r.oneway c) c refl at h
  Step-AreKept {s} (settles c (some e) at) h = away r s c _ (failed-away X (r.oneway c) e) h
  Step-AreKept {s} (forgets c e at) h = forget-AreKept r s c e h
  Step-AreKept {s} (receives c at) h = received-AreKept r s c (s.slot c) refl at h
  Step-AreKept {s} (cancels c at) h = away r s c cancelled refl h
  Step-AreKept {s} (cancels_write c at) h = away r s c cancelled refl h
  Step-AreKept {s} (loops at) h = h
  Step-AreKept {s} (fails at) h = read_failed-AreKept r s h
  Step-AreKept {s} (ends at) h = read_eof-AreKept r s (is_empty s.tx_map) refl h
  Step-AreKept {s} (delivers m at) h = deliver_to-AreKept r s (seq_of m) m _ refl h

  pub Reach-AreKept : {s t : Transport X E} → IsFresh s → Reach seq_of r s t → AreKept r t
  unfolding enrolled
  Reach-AreKept f here =
      λ c two e free. let never = sym (ap enrolled (f.at_start c)) ∙ e in absurd cc
  Reach-AreKept f (next run step) = Step-AreKept step (Reach-AreKept f run)
