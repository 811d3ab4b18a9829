-- ===== src/Net/Uring.antt =====
-- io_uring, which the program takes from liburing: one ring, as the calls of
-- braid/src/service/src/net see it. The record states documented behaviour: an entry that has been
-- prepared stays in the ring until its completion has been marked as seen, and the completion that
-- a wait hands out is the first one, until it is seen. `user_data` is what
-- `io_uring_sqe_set_data` stores.
use first_server.Common.{
  ℕ, ◌+◌, ◌≡◌, refl, sym, List, [], ◌∷◌, ◌++◌, Option, none, some, Bool, true, false, arith, ℤ, pos,
  sum_of,
}
use first_server.Net.Object.{SockaddrIn, Span}

-- What `io_uring_prep_accept` and the others make of an entry.
pub data Prepared : Type 0 where
  prep_accept : ℤ → SockaddrIn → Prepared
  prep_recv : ℤ → Span → Prepared
  prep_send : ℤ → List ℕ → Prepared
  prep_close : ℤ → Prepared
  prep_nop : Prepared

pub record Cqe (A : Type 0) : Type 0 where
  pub user_data : A
  pub res : ℤ

pub record Timespec : Type 0 where
  pub tv_sec : ℤ
  pub tv_nsec : ℤ

-- What a wait comes back with: a negative number, or a completion.
pub data Waited (A : Type 0) : Type 0 where
  fails : ℕ → Waited A
  ready : Cqe A → Waited A

pub record IoUring (A : Type 0) : Type 1 where
  pub Ring : Type 0
  -- the entries that are prepared, submitted or completed, but not seen
  pub outstanding : Ring → List A
  pub first_cqe : Ring → Option (Cqe A)
  -- whether `io_uring_get_sqe` finds a free entry
  pub has_sqe : Ring → Bool
  -- `io_uring_get_sqe`, a preparation, and `io_uring_sqe_set_data`
  pub prepare : Prepared → A → Ring → Ring
  pub submit : Ring → Ring
  -- `io_uring_wait_cqe_timeout`, or `io_uring_wait_cqe` without a time
  pub wait_cqe : Option Timespec → Ring → Waited A × Ring
  pub cqe_seen : Ring → Ring
  pub prepare_outstanding :
      (p : Prepared) (a : A) (r : Ring) → outstanding (prepare p a r) ≡ outstanding r ++ (a ∷ [])
  pub submit_outstanding : (r : Ring) → outstanding (submit r) ≡ outstanding r
  pub wait_outstanding :
      (t : Option Timespec) (r : Ring) → outstanding (wait_cqe t r).1 ≡ outstanding r
  pub seen_outstanding :
      (c : Cqe A) (r : Ring)
      → first_cqe r ≡ some c
      → (f : A → ℕ) → sum_of f (outstanding (cqe_seen r)) + f c.user_data ≡ sum_of f (outstanding r)
  pub prepare_first :
      (c : Cqe A) (p : Prepared) (a : A) (r : Ring)
      → first_cqe r ≡ some c
      → first_cqe (prepare p a r) ≡ some c
  pub submit_first : (c : Cqe A) (r : Ring) → first_cqe r ≡ some c → first_cqe (submit r) ≡ some c
  pub wait_ready :
      (t : Option Timespec) (c : Cqe A) (r : Ring)
      → (wait_cqe t r).0 ≡ ready c
      → first_cqe (wait_cqe t r).1 ≡ some c

-- A value of the interface: every entry completes in order, with 0, once something waits for it.
pub record ListRing (A : Type 0) : Type 0 where
  pub entries : List A
  pub done : Bool

module _ {A : Type 0} where
  abbrev pub zero_cqe : A → Cqe A
  zero_cqe a = record { user_data = a; res = pos 0 }

  abbrev pub list_first : List A → Bool → Option (Cqe A)
  list_first [] done = none
  list_first (a ∷ l) true = some (zero_cqe a)
  list_first (a ∷ l) false = none

  abbrev pub list_wait : List A → Bool → Waited A × ListRing A
  list_wait [] done = (fails 62, record { entries = []; done = done })
  list_wait (a ∷ l) done = (ready (zero_cqe a), record { entries = a ∷ l; done = true })

  abbrev pub list_seen : List A → Bool → List A
  list_seen [] done = []
  list_seen (a ∷ l) true = l
  list_seen (a ∷ l) false = a ∷ l

  pub list_seen_sum :
      (c : Cqe A) (l : List A) (done : Bool)
      → list_first l done ≡ some c
      → (f : A → ℕ) → sum_of f (list_seen l done) + f c.user_data ≡ sum_of f l
  list_seen_sum c [] done h f = absurd (cc)
  list_seen_sum c (a ∷ l) true h f = let e : zero_cqe a ≡ c = cc in rw (sym e) (omega arith)
  list_seen_sum c (a ∷ l) false h f = absurd (cc)

  pub list_first_append :
      (c : Cqe A) (l k : List A) (done : Bool)
      → list_first l done ≡ some c
      → list_first (l ++ k) done ≡ some c
  list_first_append c [] k done h = absurd (cc)
  list_first_append c (a ∷ l) k true h = h
  list_first_append c (a ∷ l) k false h = h

  pub list_wait_entries : (l : List A) (done : Bool) → (list_wait l done).1.entries ≡ l
  list_wait_entries [] done = refl
  list_wait_entries (a ∷ l) done = refl

  pub list_wait_ready :
      (c : Cqe A) (l : List A) (done : Bool)
      → (list_wait l done).0 ≡ ready c
      → list_first (list_wait l done).1.entries (list_wait l done).1.done ≡ some c
  list_wait_ready c [] done h = absurd (cc)
  list_wait_ready c (a ∷ l) done h = cc

abbrev pub list_uring : (A : Type 0) → IoUring A
list_uring A = record {
  Ring = ListRing A;
  outstanding = λ r. r.entries;
  first_cqe = λ r. list_first r.entries r.done;
  has_sqe = λ r. true;
  prepare = λ p a r. record r { entries = r.entries ++ (a ∷ []) };
  submit = λ r. r;
  wait_cqe = λ t r. list_wait r.entries r.done;
  cqe_seen = λ r. record { entries = list_seen r.entries r.done; done = false };
  prepare_outstanding = λ p a r. refl;
  submit_outstanding = λ r. refl;
  wait_outstanding = λ t r. list_wait_entries r.entries r.done;
  seen_outstanding = λ c r h f. list_seen_sum c r.entries r.done h f;
  prepare_first = λ c p a r h. list_first_append c r.entries (a ∷ []) r.done h;
  submit_first = λ c r h. h;
  wait_ready = λ t c r h. list_wait_ready c r.entries r.done h;
}
