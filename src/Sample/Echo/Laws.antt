-- ===== src/Sample/Echo/Laws.antt =====
-- What the send loop puts on the wire.
use first_server.Common.{
  ℕ, zero, suc, ◌+◌, ◌-◌, ◌≤◌, ◌<◌, ◌≡◌, refl, sym, ap, ap₂, ◌∙◌, inl, inr, List, [], ◌∷◌, ◌++◌,
  some, arith, Bool-cases, ltb, min, length, take, drop, replicate, take_all, pos, length-drop,
  length-take, drop_all, drop-drop, ltb→lt,
}
use first_server.Message.SendBuffer.{new_buffer, write_chars, get_buffer}
use first_server.Message.SendBuffer.Laws.{
  Wrote, new_buffer-Holds, get_buffer-new_buffer, joined, write_chars-Wrote,
}
use first_server.Sample.Echo.{chunk_size, payload, send_buffer, send_chunks}

-- The first `n` bytes of a text that goes on with 'x' for ever.
abbrev pub padded : List ℕ → ℕ → List ℕ
padded xs zero = []
padded [] (suc n) = b'x' ∷ padded [] n
padded (x ∷ xs) (suc n) = x ∷ padded xs n

length-padded : (xs : List ℕ) (n : ℕ) → length (padded xs n) ≡ n
length-padded xs zero = refl
length-padded [] (suc n) = ap suc (length-padded [] n)
length-padded (x ∷ xs) (suc n) = ap suc (length-padded xs n)

drop-nil : (n : ℕ) → drop {A = ℕ} n [] ≡ []
drop-nil zero = refl
drop-nil (suc n) = refl

padded-append : (xs : List ℕ) (n k : ℕ) → padded xs (n + k) ≡ padded xs n ++ padded (drop n xs) k
padded-append xs zero k = ap (padded xs) (omega arith)
padded-append [] (suc n) k =
    let e : suc n + k ≡ suc (n + k) = omega arith in
    rw e (ap (◌∷◌ b'x') (padded-append [] n k ∙ ap (λ l. padded [] n ++ padded l k) (drop-nil n)))
padded-append (x ∷ xs) (suc n) k =
    let e : suc n + k ≡ suc (n + k) = omega arith in rw e (ap (◌∷◌ x) (padded-append xs n k))

padded-nil : (n : ℕ) → replicate n b'x' ≡ padded [] n
padded-nil zero = refl
padded-nil (suc n) = ap (◌∷◌ b'x') (padded-nil n)

overlay :
    (xs : List ℕ) (n : ℕ)
    → take (min n (length xs)) xs ++ drop (min n (length xs)) (replicate n b'x') ≡ padded xs n
overlay xs zero = let e : min zero (length xs) ≡ 0 = omega arith in rw e
overlay [] (suc n) = let e : min (suc n) 0 ≡ 0 = omega arith in rw e (padded-nil (suc n))
overlay (x ∷ xs) (suc n) =
    let e : min (suc n) (suc (length xs)) ≡ suc (min n (length xs)) = omega arith in
    rw e (ap (◌∷◌ x) (overlay xs n))

payload-padded :
    (header : List ℕ) (offset chunk : ℕ)
    → payload header offset chunk ≡ padded (drop offset header) chunk
unfolding payload
payload-padded header offset chunk = elim (Bool-cases (ltb offset (length header))) [
  | inl inside ↦ rw (inside, ← length-drop offset header) (overlay (drop offset header) chunk)
  | inr past ↦ rw (past, drop_all offset header (ground arith)) (padded-nil chunk)
]

send_buffer-padded :
    (header : List ℕ) (offset chunk : ℕ)
    → chunk ≤ chunk_size
    → send_buffer header offset chunk ≡ padded (drop offset header) chunk
unfolding send_buffer
send_buffer-padded header offset chunk h =
    sent (write_chars-Wrote new_buffer-Holds bytes (length bytes) (omega arith))
  where
    bytes : List ℕ
    bytes = payload header offset chunk

    len : length bytes ≡ chunk
    len = ap length (payload-padded header offset chunk) ∙ length-padded (drop offset header) chunk

    sent :
        Wrote 0 new_buffer
          (take (length bytes) bytes)
          (write_chars bytes (pos (length bytes)) new_buffer)
        → get_buffer (write_chars bytes (pos (length bytes)) new_buffer)
          ≡ padded (drop offset header) chunk
    sent (inl (over, _)) = absurd (omega (arith, len, length-take (length bytes) bytes))
    sent (inr (room, all, _)) =
        all
        ∙ ap₂ ◌++◌ get_buffer-new_buffer (take_all (length bytes) bytes (omega arith))
        ∙ payload-padded header offset chunk

abbrev pub AllChunks : List (List ℕ) → Type 0
AllChunks [] = Unit
AllChunks (b ∷ bs) = (1 ≤ length b) × (length b ≤ chunk_size) × AllChunks bs

one :
    (header : List ℕ) (total offset : ℕ)
    → length (send_buffer header offset (min chunk_size total)) ≡ min chunk_size total
one header total offset =
    ap length (send_buffer-padded header offset (min chunk_size total) (omega arith))
    ∙ length-padded (drop offset header) (min chunk_size total)

first :
    (header : List ℕ) (total offset : ℕ) (rest : List (List ℕ))
    → joined rest
      ≡ padded (drop (offset + min chunk_size total) header) (total - min chunk_size total)
    → send_buffer header offset (min chunk_size total) ++ joined rest
      ≡ padded (drop offset header) total
first header total offset rest e =
    ap₂ ◌++◌ (send_buffer-padded header offset chunk (omega arith))
      (e ∙ ap (λ l. padded l (total - chunk)) (sym (drop-drop offset chunk header)))
    ∙ sym (padded-append (drop offset header) chunk (total - chunk))
    ∙ ap (padded (drop offset header)) (omega arith)
  where
    chunk : ℕ
    chunk = min chunk_size total

-- With fuel for more rounds than there are bytes to send, the send loop of `timestamp_task` ends.
-- The buffers that it sends are joined the header from the offset on, cut or filled up with 'x' to
-- the bytes that were to be sent, and none of the buffers is empty or longer than 1024 bytes.
pub send_chunks_lem :
    (fuel : ℕ) (header : List ℕ) (total offset : ℕ)
    → total < fuel
    → (sent : List (List ℕ)) × (send_chunks fuel header total offset ≡ some sent)
      × (joined sent ≡ padded (drop offset header) total)
      × AllChunks sent
unfolding send_chunks
send_chunks_lem zero header total offset h = absurd (omega arith)
send_chunks_lem (suc fuel) header total offset h = elim (Bool-cases (ltb 0 total)) [
  | inr none_left ↦ let e : total ≡ 0 = ground arith in ([], rw (none_left, send_chunks), rw e, tt)
  | inl more ↦
      let chunk = min chunk_size total in
      let (rest, ends, bytes, fit) =
        send_chunks_lem fuel header (total - chunk) (offset + chunk) (ground arith) in
      (
        send_buffer header offset chunk ∷ rest,
        rw (more, ends, send_chunks),
        first header total offset rest bytes,
        (
          omega (arith, one header total offset, ltb→lt 0 total more),
          omega (arith, one header total offset),
          fit,
        ),
      )
]
