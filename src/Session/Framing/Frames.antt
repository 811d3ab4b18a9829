-- ===== src/Session/Framing/Frames.antt =====
-- What the framing loop is to do, said without it: how a run of bytes splits into messages.
use first_server.Common.{
  ap₂, take-append_left, take-append_self, ℕ, ◌+◌, ◌≤◌, ◌<◌, ◌≡◌, refl, sym, ap, ◌∙◌, List, [], ◌∷◌,
  ◌++◌, ℤ, pos, ltb_ℤ, to_size, true, ltb, length, take, drop, get_or-append_left, length-append,
  length-take, take-append-drop, append_assoc, arith, le32, subst, append_parts,
}
use first_server.Message.Header.{parse_message, sizeof_header}

-- Bytes that are one whole message: the header is there, and states their number.
abbrev pub IsMessage : List ℕ → Type 0
IsMessage m = (sizeof_header ≤ length m) × ((parse_message m).size ≡ pos (length m))

-- No whole message stands at the front.
abbrev pub NoMessage : List ℕ → Type 0
NoMessage bytes = (m rest : List ℕ) → bytes ≡ m ++ rest → IsMessage m → ⊥

-- `Frames bytes ms rest`: the bytes are the messages `ms`, as many as there are, and then `rest`.
pub data Frames : List ℕ → List (List ℕ) → List ℕ → Type 0 where
  stop : {bytes rest : List ℕ} → rest ≡ bytes → NoMessage bytes → Frames bytes [] rest
  message :
      {bytes rest : List ℕ} {ms : List (List ℕ)} (m tail : List ℕ)
      → bytes ≡ m ++ tail
      → IsMessage m
      → Frames tail ms rest
      → Frames bytes (m ∷ ms) rest

le32-append : (m rest : List ℕ) (i : ℕ) → i + 4 ≤ length m → le32 (m ++ rest) i ≡ le32 m i
unfolding le32
le32-append m rest i h = rw (
  get_or-append_left m rest i 0 (omega arith),
  get_or-append_left m rest (i + 1) 0 (omega arith),
  get_or-append_left m rest (i + 2) 0 (omega arith),
  get_or-append_left m rest (i + 3) 0 (omega arith),
)

-- A header does not depend on what follows it.
pub parse_message-append :
    (m rest : List ℕ) → sizeof_header ≤ length m → parse_message (m ++ rest) ≡ parse_message m
unfolding parse_message
parse_message-append m rest h =
    rw (le32-append m rest 0 (omega arith), le32-append m rest 4 (omega arith))

module _ (bytes : List ℕ) where
  abbrev size : ℤ
  size = (parse_message bytes).size

  front_size :
      (m rest : List ℕ)
      → bytes ≡ m ++ rest
      → IsMessage m
      → (size ≡ pos (length m)) × (length m ≤ length bytes) × (sizeof_header ≤ length m)
  front_size m rest e w = (
    ap (λ b. (parse_message b).size) e ∙ ap (λ h. h.size) (parse_message-append m rest w.0) ∙ w.1,
    omega (arith, ap length e, length-append m rest),
    w.0,
  )

  -- The three ways out of the loop: too few bytes for a header, a size that no message has, and
  -- a message that has not come whole.
  pub NoMessage-short : length bytes < sizeof_header → NoMessage bytes
  NoMessage-short h m rest e w = omega (arith, front_size m rest e w)

  pub NoMessage-bad_size : ltb_ℤ size (pos sizeof_header) ≡ true → NoMessage bytes
  NoMessage-bad_size h m rest e w = ground (arith, front_size m rest e w)

  pub NoMessage-partial : ltb (length bytes) (to_size size) ≡ true → NoMessage bytes
  NoMessage-partial h m rest e w = ground (arith, front_size m rest e w)

  length-front : (k : ℕ) → k ≤ length bytes → length (take k bytes) ≡ k
  length-front k fit = omega (arith, length-take k bytes)

  -- The message at the front has the header that the loop has read.
  pub parse_message-take :
      (k : ℕ)
      → sizeof_header ≤ k
      → k ≤ length bytes
      → parse_message (take k bytes) ≡ parse_message bytes
  parse_message-take k h fit =
      sym (parse_message-append (take k bytes) (drop k bytes) (omega (arith, length-front k fit)))
      ∙ ap parse_message (take-append-drop k bytes)

  -- Otherwise the bytes that the header counts are a message.
  pub front-IsMessage :
      (k : ℕ) → size ≡ pos k → sizeof_header ≤ k → k ≤ length bytes → IsMessage (take k bytes)
  front-IsMessage k e h fit = (
    omega (arith, length-front k fit),
    ap (λ h. h.size) (parse_message-take k h fit) ∙ e ∙ sym (ap pos (length-front k fit)),
  )

Frames-length :
    {bytes rest : List ℕ} {ms : List (List ℕ)} → Frames bytes ms rest → length rest ≤ length bytes
Frames-length (stop e no_message) = omega (arith, ap length e)
Frames-length {rest = rest} (message m tail e w f) =
    omega (arith, Frames-length f, ap length e, length-append m tail)

-- Two messages at the front of the same bytes are the same message.
pub front_unique :
    (m m' tail tail' : List ℕ)
    → m ++ tail ≡ m' ++ tail'
    → IsMessage m
    → IsMessage m'
    → (m ≡ m') × (tail ≡ tail')
front_unique m m' tail tail' e w w' = append_parts m m' tail tail' e len
  where
    sizes : ◌≡◌ {A = ℤ} (pos (length m)) (pos (length m'))
    sizes =
        sym w.1
        ∙ ap (λ h. h.size) (sym (parse_message-append m tail w.0))
        ∙ ap (λ b. (parse_message b).size) e
        ∙ ap (λ h. h.size) (parse_message-append m' tail' w'.0)
        ∙ w'.1

    len : length m ≡ length m'
    len = cc sizes

-- There is one way to split.
pub Frames-unique :
    {bytes rest rest' : List ℕ} {ms ms' : List (List ℕ)}
    → Frames bytes ms rest
    → Frames bytes ms' rest'
    → (ms ≡ ms') × (rest ≡ rest')
Frames-unique (stop e no_message) (stop e' no_message') = (refl, e ∙ sym e')
Frames-unique (stop e no_message) (message m tail e' w f) = absurd (no_message m tail e' w)
Frames-unique (message m tail e w f) (stop e' no_message) = absurd (no_message m tail e w)
Frames-unique {rest' = rest'} (message m tail e w f) (message {ms = ms'} m' tail' e' w' f') =
    let front = front_unique m m' tail tail' (sym e ∙ e') w w' in
    let later = Frames-unique f (subst (λ b. Frames b ms' rest') (sym front.1) f') in
    (ap₂ ◌∷◌ front.0 later.0, later.1)

-- What is left holds no whole message.
pub Frames-NoMessage :
    {bytes rest : List ℕ} {ms : List (List ℕ)} → Frames bytes ms rest → NoMessage rest
Frames-NoMessage (stop e no_message) = subst NoMessage (sym e) no_message
Frames-NoMessage (message m tail e w f) = Frames-NoMessage f

-- What arrives later only adds messages: splitting the rest with the new bytes goes on where the
-- first split ended.
pub Frames-append :
    {bytes rest end : List ℕ} {ms ms' : List (List ℕ)} (more : List ℕ)
    → Frames bytes ms rest
    → Frames (rest ++ more) ms' end
    → Frames (bytes ++ more) (ms ++ ms') end
Frames-append {end = end} {ms' = ms'} more (stop e no_message) g =
    subst (λ b. Frames (b ++ more) ms' end) e g
Frames-append more (message m tail e w f) g =
    message m (tail ++ more) (ap (λ b. b ++ more) e ∙ append_assoc m tail more) w
      (Frames-append more f g)

-- A run of whole messages splits into them, with nothing left.
abbrev pub concat : List (List ℕ) → List ℕ
concat [] = []
concat (m ∷ ms) = m ++ concat ms

abbrev pub AllMessages : List (List ℕ) → Type 0
AllMessages [] = Unit
AllMessages (m ∷ ms) = IsMessage m × AllMessages ms

pub Frames-concat : (ms : List (List ℕ)) → AllMessages ms → Frames (concat ms) ms []
Frames-concat [] w = stop refl (NoMessage-short [] (omega arith))
Frames-concat (m ∷ ms) w = message m (concat ms) refl w.0 (Frames-concat ms w.1)

-- Bytes that go on to a run of whole messages: their own messages are the first of the run, and
-- what is left goes on to the others.
pub Frames-concat_split :
    {bytes rest : List ℕ} {ms : List (List ℕ)} (later : List ℕ) (all : List (List ℕ))
    → Frames bytes ms rest
    → bytes ++ later ≡ concat all
    → AllMessages all
    → (others : List (List ℕ)) × (all ≡ ms ++ others) × (rest ++ later ≡ concat others)
Frames-concat_split later all (stop e no_message) whole w =
    (all, refl, ap (λ b. b ++ later) e ∙ whole)
Frames-concat_split {bytes} later [] (message m tail e w f) whole w' = absurd (
    omega
      (arith, ap length whole, ap length e, length-append m tail, w.0, length-append bytes later))
Frames-concat_split {bytes} later (m' ∷ all) (message m tail e w f) whole w' =
    let same =
      front_unique m m' (tail ++ later) (concat all)
        (sym (append_assoc m tail later) ∙ ap (λ b. b ++ later) (sym e) ∙ whole) w w'.0 in
    let (others, first, left) = Frames-concat_split later all f same.1 w'.1 in
    (others, ap₂ ◌∷◌ (sym same.0) first, left)

-- A first message that is no longer than the bytes stands at their front.
pub front_of_concat :
    (bytes later m : List ℕ) (all : List (List ℕ))
    → bytes ++ later ≡ m ++ concat all
    → length m ≤ length bytes
    → bytes ≡ m ++ drop (length m) bytes
front_of_concat bytes later m all e h =
    sym (take-append-drop (length m) bytes)
    ∙ ap (λ b. b ++ drop (length m) bytes)
        (sym (take-append_left (length m) bytes later h)
          ∙ ap (take (length m)) e
          ∙ take-append_self m (concat all))
