-- ===== src/Net/Object/Laws.antt =====
-- The receive buffer as a queue of bytes: received bytes are appended, handled ones are dropped.
use first_server.Common.{
  refl, length-replicate, ℕ, ◌+◌, ◌-◌, ◌≤◌, ◌≡◌, sym, ◌∙◌, inl, inr, List, ◌++◌, pos, arith,
  Bool-cases, ltb, if◌then◌else◌, length, take, drop, memcpy, take-memcpy, memmove, -ℤ-pos, +ℤ-pos,
  length-memmove, length-memcpy, length-take, length-drop, take-append_left, take_all, drop-take,
}
use first_server.Net.Object.{
  new_object, IoUringObject, max_receive_buffer_size, commit, process_completed, get_received_span,
}

-- Between two calls: the array has its length, and its first `n` bytes are committed.
pub record Holds (n : ℕ) (o : IoUringObject) : Type 0 where
  pub committed : o.commited_size ≡ pos n
  pub fits : n ≤ max_receive_buffer_size
  pub array : length o.buffer ≡ max_receive_buffer_size

pub new_object-Holds : Holds 0 new_object
unfolding new_object
new_object-Holds = record {
  committed = refl;
  fits = omega arith;
  array = length-replicate {A = ℕ} max_receive_buffer_size 0;
}

-- What the kernel leaves when it has written `bytes` at an offset of the buffer.
abbrev pub written : IoUringObject → ℕ → List ℕ → IoUringObject
written o offset bytes = record o { buffer = memcpy o.buffer offset bytes }

take-memmove :
    (buf : List ℕ) (k n : ℕ)
    → k ≤ n
    → n ≤ length buf
    → take (n - k) (memmove buf k (n - k)) ≡ drop k (take n buf)
unfolding memmove
take-memmove buf k n h fit =
    take-append_left (n - k) (take (n - k) (drop k buf)) (drop (n - k) buf) enough
    ∙ take_all (n - k) (take (n - k) (drop k buf)) short
    ∙ sym (drop-take k n buf)
  where
    enough : n - k ≤ length (take (n - k) (drop k buf))
    enough = omega (arith, length-take (n - k) (drop k buf), length-drop k buf)

    short : length (take (n - k) (drop k buf)) ≤ n - k
    short = omega (arith, length-take (n - k) (drop k buf))

-- The same whether or not the source skips the move of zero bytes.
take-moved :
    (buf : List ℕ) (k n : ℕ)
    → k ≤ n
    → n ≤ length buf
    → take (n - k) (if ltb (0 + 0) (n - k + 0) then memmove buf k (n - k) else buf)
      ≡ drop k (take n buf)
take-moved buf k n h fit = elim (Bool-cases (ltb (0 + 0) (n - k + 0))) [
  | inl some_left ↦ rw some_left (take-memmove buf k n h fit)
  | inr none_left ↦ rw none_left (let e : n - k ≡ 0 = ground arith in rw (drop-take k n buf, e))
]

module _ {n : ℕ} {o : IoUringObject} (v : Holds n o) where
  pub length-received : length (get_received_span o) ≡ n
  unfolding get_received_span
  length-received = rw v.committed (omega (arith, length-take n o.buffer, v.fits, v.array))

  -- In a receive buffer of `n` committed bytes, bytes that are written behind them within the
  -- buffer are appended to the committed bytes by a `commit` of their number.
  pub received-commit :
      (bytes : List ℕ)
      → n + length bytes ≤ max_receive_buffer_size
      → get_received_span (commit (pos (length bytes)) (written o n bytes))
        ≡ get_received_span o ++ bytes
  unfolding get_received_span commit
  received-commit bytes h =
      rw (v.committed, +ℤ-pos n (length bytes))
        (take-memcpy o.buffer n bytes (omega (arith, v.array)))

  pub commit-Holds :
      (bytes : List ℕ)
      → n + length bytes ≤ max_receive_buffer_size
      → Holds (n + length bytes) (commit (pos (length bytes)) (written o n bytes))
  unfolding commit
  commit-Holds bytes h = record {
    committed = rw v.committed (+ℤ-pos n (length bytes));
    fits = h;
    array = omega (arith, length-memcpy o.buffer n bytes, v.array);
  }

  pub process_completed-Holds : (k : ℕ) → k ≤ n → Holds (n - k) (process_completed (pos k) o)
  unfolding process_completed
  process_completed-Holds k h = record {
    committed = rw v.committed (-ℤ-pos n k h);
    fits = omega (arith, v.fits);
    array =
        rw (v.committed, -ℤ-pos n k h)
          (ground (arith, length-memmove o.buffer k (n - k), v.array, v.fits));
  }

  -- In a receive buffer of `n` committed bytes, `process_completed` of `k` bytes, at most `n`,
  -- drops the first `k` committed bytes and keeps the others in order.
  pub received-process_completed :
      (k : ℕ)
      → k ≤ n
      → get_received_span (process_completed (pos k) o) ≡ drop k (get_received_span o)
  unfolding get_received_span process_completed
  received-process_completed k h =
      rw (v.committed, -ℤ-pos n k h) (take-moved o.buffer k n h (omega (arith, v.fits, v.array)))
