-- ===== src/Client/Writing.antt =====
-- What `tm_write_socket` and `tm_send_record` put on the socket.
use mathlib.Core.List.{append_assoc}
use telemetrics_client.Base.{
  ℕ, zero, suc, ◌+◌, ◌≤◌, ◌≡◌, ◌≢◌, inl, inr, refl, sym, ap, ◌∙◌, false, List, [], ◌∷◌, ◌++◌,
  Option, some, ltb, ◌==◌, length, length-drop, take, drop, take-append-drop, replicate, arith,
  Bool-cases,
}
use telemetrics_client.Base.Bytes.{Bytes}
use telemetrics_client.Base.Int.{ℤ, pos}
use telemetrics_client.Client.Socket.{Wrote, takes, fails, eagain, minus, tm_write_socket}

-- An errno is not 0.
abbrev pub AreErrnos : List Wrote → Type 0
AreErrnos [] = Unit
AreErrnos (takes n ∷ writes) = AreErrnos writes
AreErrnos (fails errno ∷ writes) = (errno ≢ 0) × AreErrnos writes

abbrev pub IsWritten : Bytes → Option ℤ × Bytes → Type 0
IsWritten buf (status, out) =
    (rest : Bytes) × (buf ≡ out ++ rest) × (status ≡ some (pos 0) → rest ≡ [])

IsWritten-minus : (errno : ℕ) (buf : Bytes) → errno ≢ 0 → IsWritten buf (some (minus errno), [])
unfolding minus
IsWritten-minus zero buf h = absurd (h refl)
IsWritten-minus (suc n) buf h = (buf, refl, λ e. absurd cc)

-- Whatever the writes give, what tm_write_socket has put on the socket is a beginning of the buffer,
-- and it is the whole buffer when the status is 0.
pub tm_write_socket-IsWritten :
    (k : ℕ) (writes : List Wrote) (buf : Bytes)
    → AreErrnos writes
    → IsWritten buf (tm_write_socket k writes buf)
unfolding tm_write_socket
tm_write_socket-IsWritten k writes [] h = ([], refl, λ e. refl)
tm_write_socket-IsWritten k [] (c ∷ cs) h = (c ∷ cs, refl, λ e. absurd cc)
tm_write_socket-IsWritten k (fails errno ∷ writes) (c ∷ cs) h =
    elim (Bool-cases (errno == eagain)) [
      | inr other ↦ rw other (IsWritten-minus errno (c ∷ cs) h.0)
      | inl again ↦ elim (Bool-cases (ltb 100 (k + 1))) [
        | inl many ↦ rw (again, many) (IsWritten-minus errno (c ∷ cs) h.0)
        | inr few ↦ rw (again, few) (tm_write_socket-IsWritten (k + 1) writes (c ∷ cs) h.1)
      ]
    ]
tm_write_socket-IsWritten k (takes n ∷ writes) (c ∷ cs) h =
    let (rest, e, f) = tm_write_socket-IsWritten 0 writes (drop n (c ∷ cs)) h in
    let out = (tm_write_socket 0 writes (drop n (c ∷ cs))).1 in
    (
      rest,
      sym (take-append-drop n (c ∷ cs))
          ∙ ap (◌++◌ (take n (c ∷ cs))) e
          ∙ sym (append_assoc (take n (c ∷ cs)) out rest),
      f,
    )

-- A socket that takes at least a byte after `waits` attempts that had to wait, again and again.
abbrev pub outcomes : List (ℕ × ℕ) → List Wrote
outcomes [] = []
outcomes ((waits, n) ∷ rounds) = replicate waits (fails eagain) ++ takes (suc n) ∷ outcomes rounds

abbrev pub ArePatient : List (ℕ × ℕ) → Type 0
ArePatient [] = Unit
ArePatient ((waits, n) ∷ rounds) = (waits ≤ 100) × ArePatient rounds

tm_write_socket_waits :
    (k waits : ℕ) (writes : List Wrote) (c : ℕ) (cs : Bytes)
    → k + waits ≤ 100
    → tm_write_socket k (replicate waits (fails eagain) ++ writes) (c ∷ cs)
      ≡ tm_write_socket (k + waits) writes (c ∷ cs)
unfolding tm_write_socket
tm_write_socket_waits k zero writes c cs h =
    ap (λ m. tm_write_socket m writes (c ∷ cs)) (omega arith)
tm_write_socket_waits k (suc waits) writes c cs h =
    let few : ltb 100 (k + 1) ≡ false = ground arith in
    rw few (
      tm_write_socket_waits (k + 1) waits writes c cs (omega arith)
      ∙ ap (λ m. tm_write_socket m writes (c ∷ cs)) (omega arith))

-- A socket that takes a byte or more after at most 100 waits, as many times as the buffer has bytes,
-- gets the whole buffer, and the status is 0.
pub tm_write_socket_finishes :
    (rounds : List (ℕ × ℕ)) (buf : Bytes)
    → ArePatient rounds
    → length buf ≤ length rounds
    → tm_write_socket 0 (outcomes rounds) buf ≡ (some (pos 0), buf)
unfolding tm_write_socket
tm_write_socket_finishes rounds [] h enough = refl
tm_write_socket_finishes [] (c ∷ cs) h enough = absurd (omega arith)
tm_write_socket_finishes ((waits, n) ∷ rounds) (c ∷ cs) h enough =
    rw
      (
        tm_write_socket_waits 0 waits (takes (suc n) ∷ outcomes rounds) c cs (omega (arith, h.0)),
        tm_write_socket,
        tm_write_socket_finishes rounds (drop n cs) h.1 (omega (arith, length-drop n cs)),
        take-append-drop n cs,
      )
      refl
