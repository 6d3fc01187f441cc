-- ===== src/ProbeDaemon/Streams.antt =====
-- That `handle_client` puts a record together from however its bytes arrive.
use telemetrics_client.Base.{
  ℕ, ◌+◌, ◌-◌, ◌≤◌, ◌≡◌, ◌≢◌, refl, sym, ap, ◌∙◌, true, false, List, [], ◌∷◌, ◌++◌, Option, none,
  some, ltb, leb, length, length-drop, take, drop, arith, Bool-cases, inl, inr,
}
use telemetrics_client.Base.Bytes.{Bytes}
use telemetrics_client.Base.Run.{done, ◌>>=◌}
use telemetrics_client.ProbeDaemon.Receive.{
  Received, arrives, broken, max_record_size, put_back, receive_size, receive_body, process_body,
  process_sized, receive_record,
}
use telemetrics_client.Record.{le32, read_u32}
use telemetrics_client.Record.Probd.{process_record}
use telemetrics_client.Record.Tokens.{read_u32-le32}

-- All the bytes that come before a failure or the end.
abbrev pub bytes_of : List Received → Bytes
bytes_of [] = []
bytes_of (broken ∷ stream) = []
bytes_of (arrives c cs ∷ stream) = (c ∷ cs) ++ bytes_of stream

append_split :
    (xs ys zs ws : Bytes)
    → xs ++ ys ≡ zs ++ ws
    → length xs ≤ length zs
    → (zs ≡ xs ++ drop (length xs) zs) × (ys ≡ drop (length xs) zs ++ ws)
append_split [] ys zs ws e h = (refl, e)
append_split (x ∷ xs) ys [] ws e h = absurd (omega arith)
append_split (x ∷ xs) ys (z ∷ zs) ws e h =
    let tails : xs ++ ys ≡ zs ++ ws = cc in
    let (same, rest) = append_split xs ys zs ws tails (omega arith) in
    let first : z ≡ x = cc in (rw first (ap (◌∷◌ x) same), rest)

take-append : (xs ys : Bytes) → take (length xs) (xs ++ ys) ≡ xs
take-append [] ys = refl
take-append (x ∷ xs) ys = ap (◌∷◌ x) (take-append xs ys)

some_append :
    (front rest : Bytes) (o : Option Bytes)
    → o ≡ some rest
    → (elim o [ none ↦ none | some more ↦ some (front ++ more) ]) ≡ some (front ++ rest)
some_append front rest o e = rw e refl

receive_body-bytes_of :
    (size : ℕ) (stream : List Received) (body rest : Bytes)
    → size ≡ length body
    → body ≢ []
    → bytes_of stream ≡ body ++ rest
    → receive_body size stream ≡ some body
unfolding receive_body
receive_body-bytes_of size [] [] rest n h e = absurd (h refl)
receive_body-bytes_of size [] (b ∷ bs) rest n h e = absurd cc
receive_body-bytes_of size (broken ∷ stream) [] rest n h e = absurd (h refl)
receive_body-bytes_of size (broken ∷ stream) (b ∷ bs) rest n h e = absurd cc
receive_body-bytes_of size (arrives c cs ∷ stream) body rest n h e =
    elim (Bool-cases (leb size (length (c ∷ cs)))) [
      | inl enough ↦
          let (split, _) =
            append_split body rest (c ∷ cs) (bytes_of stream) (sym e) (ground (arith, enough, n)) in
          rw enough (
            ap some (
              ap (take size) split
              ∙ ap (λ m. take m (body ++ drop (length body) (c ∷ cs))) n
              ∙ take-append body _))
      | inr short ↦
          let (split, later) =
            append_split (c ∷ cs) (bytes_of stream) body rest e (ground (arith, short, n)) in
          let tail = drop (length (c ∷ cs)) body in
          let tail_size = length-drop (length (c ∷ cs)) body in
          let tail_left : length tail ≢ 0 = ground (arith, short, n, tail_size) in
          rw short (
            some_append (c ∷ cs) tail _ (
              receive_body-bytes_of (size - length (c ∷ cs)) stream tail rest
                (ground (arith, tail_size, n)) (λ z. tail_left (ap length z)) later)
            ∙ ap some (sym split))
    ]

length_nonempty : (s : Bytes) → s ≢ [] → length s ≢ 0
length_nonempty [] h e = h refl
length_nonempty (c ∷ s) h e = omega arith

put_back-bytes_of :
    (s : Bytes) (stream : List Received) → bytes_of (put_back s stream) ≡ s ++ bytes_of stream
unfolding put_back
put_back-bytes_of [] stream = refl
put_back-bytes_of (c ∷ s) stream = refl

-- However the bytes of a record's packet come in after its first four, with at least one byte and at
-- most 13500 with its size, handle_client processes the record whole.
pub receive_record-bytes_of :
    (id : Bytes) (c : ℕ) (cs : Bytes) (stream : List Received) (body rest : Bytes)
    → 3 ≤ length cs
    → body ≢ []
    → length body + 4 ≤ max_record_size
    → bytes_of (arrives c cs ∷ stream) ≡ le32 (length body + 4) ++ (body ++ rest)
    → receive_record id (arrives c cs ∷ stream)
      ≡ (process_record id body >>= λ file. done (true, file))
unfolding receive_record receive_size process_sized process_body le32
receive_record-bytes_of id c cs stream body rest first h small e =
    let n = length body + 4 in
    let (split, later) =
      append_split (le32 n) (body ++ rest) (c ∷ cs) (bytes_of stream) (sym e)
        (unfold le32 in omega arith) in
    let read : read_u32 (take 4 (c ∷ cs)) ≡ done n =
      ap (λ s. read_u32 (take 4 s)) split ∙ read_u32-le32 n [] (omega (arith, small)) in
    let bytes : bytes_of (put_back (drop 4 (c ∷ cs)) stream) ≡ body ++ rest =
      put_back-bytes_of (drop 4 (c ∷ cs)) stream ∙ sym later in
    let nonempty : length body ≢ 0 = length_nonempty body h in
    let big : leb n 4 ≡ false = ground (arith, nonempty) in
    let fits : ltb max_record_size n ≡ false = ground (arith, small) in
    let whole : receive_body (n - 4) (put_back (drop 4 (c ∷ cs)) stream) ≡ some body =
      receive_body-bytes_of (n - 4) _ body rest (omega arith) h bytes in
    rw (read, big, fits, whole) refl
