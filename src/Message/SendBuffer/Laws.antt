-- ===== src/Message/SendBuffer/Laws.antt =====
-- A send buffer is a bounded run of bytes: a write appends all of its bytes or none.
use first_server.Common.{
  length-replicate, ℕ, ◌+◌, ◌≤◌, ◌<◌, ◌≡◌, refl, sym, ap, ◌∙◌, inl, inr, List, [], ◌∷◌, ◌++◌, pos,
  arith, Bool-cases, ltb, ltb_ℤ, length, take, memcpy, take-memcpy, length-memcpy, +ℤ-pos,
  length-append, append_assoc, append-nil, length-take, ltb→lt, subst, Bool, ◌⊎◌,
}
use first_server.Message.SendBuffer.{
  new_buffer, SendBuffer, max_message_size, total_size, append_args, write, write_string,
  write_chars, get_buffer,
}

pub record Holds (n : ℕ) (b : SendBuffer) : Type 0 where
  pub used : b.size ≡ pos n
  pub fits : n ≤ max_message_size
  pub array : length b.buffer ≡ max_message_size

pub new_buffer-Holds : Holds 0 new_buffer
unfolding new_buffer
new_buffer-Holds = record {
  used = refl;
  fits = omega arith;
  array = length-replicate {A = ℕ} max_message_size 0;
}

pub get_buffer-new_buffer : get_buffer new_buffer ≡ []
unfolding get_buffer new_buffer
get_buffer-new_buffer = refl

abbrev pub joined : List (List ℕ) → List ℕ
joined [] = []
joined (x ∷ xs) = x ++ joined xs

length-joined : (args : List (List ℕ)) → length (joined args) ≡ total_size args
length-joined [] = refl
length-joined (x ∷ xs) = omega (arith, length-append x (joined xs), length-joined xs)

-- Copying the arguments one by one behind `out` is copying them joined.
length-append_args :
    (buffer : List ℕ) (out : ℕ) (args : List (List ℕ))
    → out + total_size args ≤ length buffer
    → length (append_args buffer out args) ≡ length buffer
unfolding append_args
length-append_args buffer out [] h = refl
length-append_args buffer out (x ∷ xs) h =
    length-append_args (memcpy buffer out x) (out + length x) xs (omega (arith, size)) ∙ size
  where
    size : length (memcpy buffer out x) ≡ length buffer
    size = length-memcpy buffer out x (omega arith)

take-append_args :
    (buffer : List ℕ) (out : ℕ) (args : List (List ℕ))
    → out + total_size args ≤ length buffer
    → take (out + total_size args) (append_args buffer out args) ≡ take out buffer ++ joined args
unfolding append_args
take-append_args buffer out [] h =
    ap (λ k. take k buffer) (omega arith) ∙ sym (append-nil (take out buffer))
take-append_args buffer out (x ∷ xs) h =
    ap (λ k. take k (append_args (memcpy buffer out x) (out + length x) xs)) (omega arith)
    ∙ take-append_args (memcpy buffer out x) (out + length x) xs
        (omega (arith, length-memcpy buffer out x))
    ∙ ap (λ l. l ++ joined xs) (take-memcpy buffer out x (omega arith))
    ∙ append_assoc (take out buffer) x (joined xs)

-- What a write of `bytes` to a buffer of `n` bytes leaves: the buffer as it was, if they do not fit,
-- and otherwise the buffer with all of them at its end.
abbrev pub Wrote : ℕ → SendBuffer → List ℕ → SendBuffer → Type 0
Wrote n b bytes b' =
    ((max_message_size < n + length bytes) × (b' ≡ b))
    ⊎ ((n + length bytes ≤ max_message_size)
        × (get_buffer b' ≡ get_buffer b ++ bytes)
        × Holds (n + length bytes) b')

-- The same for a buffer that is given by its array and the number of its bytes.
module _ (array : List ℕ) (n : ℕ) (whole : length array ≡ max_message_size) where
  abbrev at : SendBuffer
  at = record { buffer = array; size = pos n }

  -- One copy at the end of the buffer.
  copied :
      (bytes : List ℕ) (k : ℕ)
      → k ≡ length bytes
      → n + k ≤ max_message_size
      → Wrote n at bytes (record { buffer = memcpy array n bytes; size = pos (n + k) })
  unfolding get_buffer
  copied bytes k e h = rw e (
      inr (
        rw e at h,
        take-memcpy array n bytes (omega (arith, whole)),
        record {
          used = refl;
          fits = rw e at h;
          array = length-memcpy array n bytes (omega (arith, whole)) ∙ whole;
        },
      ))

  write-at : (args : List (List ℕ)) → Wrote n at (joined args) (write args at)
  unfolding get_buffer write
  write-at args = rw +ℤ-pos (elim (Bool-cases over) [
    | inl no_room ↦ rw no_room (inl (ground (arith, length-joined args), refl))
    | inr room ↦ rw room (
        let h : n + total_size args ≤ length array = ground (arith, whole) in
        inr (
          ground (arith, length-joined args),
          take-append_args array n args h,
          record {
            used = ap (λ k. pos (n + k)) (sym (length-joined args));
            fits = ground (arith, length-joined args);
            array = length-append_args array n args h ∙ whole;
          },
        ))
  ])
    where
      over : Bool
      over = ltb_ℤ (pos max_message_size) (pos (n + total_size args))

  write_string-at : (str : List ℕ) → Wrote n at str (write_string str at)
  unfolding write_string
  write_string-at str = rw +ℤ-pos (elim (Bool-cases (ltb max_message_size (n + length str))) [
    | inl no_room ↦ rw no_room (inl (ltb→lt _ _ no_room, refl))
    | inr room ↦ rw room (copied str (length str) refl (ground arith))
  ])

  write_chars-at :
      (str : List ℕ) (k : ℕ) → k ≤ length str → Wrote n at (take k str) (write_chars str (pos k) at)
  unfolding write_chars
  write_chars-at str k h = rw +ℤ-pos (elim (Bool-cases over) [
    | inl no_room ↦ rw no_room (inl (ground (arith, len), refl))
    | inr room ↦ rw room (copied (take k str) k (sym len) (ground arith))
  ])
    where
      over : Bool
      over = ltb_ℤ (pos max_message_size) (pos (n + k))

      len : length (take k str) ≡ k
      len = omega (arith, length-take k str)

module _ {n : ℕ} {b : SendBuffer} (v : Holds n b) where
  shape : at b.buffer n v.array ≡ b
  shape = ap (λ z. record b { size = z }) (sym v.used)

  -- A `write` of values to a send buffer of `n` bytes appends the bytes of all of them, one after
  -- the other, if they fit, and otherwise leaves the buffer as it was.
  pub write-Wrote : (args : List (List ℕ)) → Wrote n b (joined args) (write args b)
  write-Wrote args =
      subst (λ c. Wrote n c (joined args) (write args c)) shape (write-at b.buffer n v.array args)

  -- A `write` of a string to a send buffer of `n` bytes appends all of its bytes if they fit, and
  -- otherwise leaves the buffer as it was.
  pub write_string-Wrote : (str : List ℕ) → Wrote n b str (write_string str b)
  write_string-Wrote str =
      subst (λ c. Wrote n c str (write_string str c)) shape (write_string-at b.buffer n v.array str)

  -- A `write` of the first `k` of at least `k` characters to a send buffer of `n` bytes appends
  -- them if they fit, and otherwise leaves the buffer as it was.
  pub write_chars-Wrote :
      (str : List ℕ) (k : ℕ) → k ≤ length str → Wrote n b (take k str) (write_chars str (pos k) b)
  write_chars-Wrote str k h =
      subst (λ c. Wrote n c (take k str) (write_chars str (pos k) c)) shape
        (write_chars-at b.buffer n v.array str k h)
