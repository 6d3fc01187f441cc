-- ===== src/Client/Sending.antt =====
-- What a status of `tm_send_record` says of the socket and of the bytes that were sent.
use telemetrics_client.Base.{
  ℕ, zero, suc, ◌≡◌, ◌≢◌, ◌⊎◌, inl, inr, refl, ap, Bool, true, false, List, ◌++◌, Option, none,
  some, ◌==◌, arith, Bool-cases, ◌∙◌,
}
use mathlib.Core.List.{append-nil}
use telemetrics_client.Base.Bytes.{Bytes}
use telemetrics_client.Base.Int.{ℤ, pos, negsuc}
use telemetrics_client.Base.Run.{Run, done, exit, fault}
use telemetrics_client.Client.Socket.{
  Wrote, minus, tm_write_socket, Selected, ready, timed_out, select_fails, SocketCalls, eintr,
  einprogress, fail_first, await_connection, connected, or_close, flags_set, tm_get_socket,
  with_socket, tm_send_record,
}
use telemetrics_client.Client.Writing.{AreErrnos, IsWritten, tm_write_socket-IsWritten}
use telemetrics_client.Record.Wire.{TelemRecord, packet}

abbrev IsErrno : Option ℕ → Type 0
IsErrno none = Unit
IsErrno (some errno) = errno ≢ 0

-- An errno is not 0.
pub record AreSocketErrnos (calls : SocketCalls) : Type 0 where
  pub socket : IsErrno calls.socket_fails
  pub timeout : IsErrno calls.timeout_fails
  pub connect : IsErrno calls.connect_fails
  pub select : (errno : ℕ) → calls.selected ≡ select_fails errno → errno ≢ 0
  pub query : IsErrno calls.query_fails
  pub get_flags : IsErrno calls.get_flags_fails
  pub set_flags : IsErrno calls.set_flags_fails

-- Success, or a negative status.
abbrev IsVerdict : Option ℤ → Type 0
IsVerdict o = (o ≡ none) ⊎ ((n : ℕ) × (o ≡ some (negsuc n)))

minus_negative : (errno : ℕ) → errno ≢ 0 → (n : ℕ) × (minus errno ≡ negsuc n)
unfolding minus
minus_negative zero h = absurd (h refl)
minus_negative (suc n) h = (n, refl)

minus-IsVerdict : (errno : ℕ) → errno ≢ 0 → IsVerdict (some (minus errno))
minus-IsVerdict errno h = let (n, e) = minus_negative errno h in inr (n, ap some e)

fail_first-IsVerdict :
    (o : Option ℕ) (next : Option ℤ) → IsErrno o → IsVerdict next → IsVerdict (fail_first o next)
unfolding fail_first
fail_first-IsVerdict none next h v = v
fail_first-IsVerdict (some errno) next h v = minus-IsVerdict errno h

await_connection-IsVerdict :
    (calls : SocketCalls) (selected : Selected)
    → AreSocketErrnos calls
    → calls.selected ≡ selected
    → IsVerdict (await_connection calls selected)
unfolding await_connection
await_connection-IsVerdict calls ready h e =
    fail_first-IsVerdict calls.query_fails _ h.query (elim (Bool-cases (calls.so_error == 0)) [
      | inl well ↦ rw well (inl refl)
      | inr broken ↦ rw broken (minus-IsVerdict calls.so_error (ground (arith, broken)))
    ])
await_connection-IsVerdict calls timed_out h e = minus-IsVerdict 110 (omega arith)
await_connection-IsVerdict calls (select_fails errno) h e = elim (Bool-cases (errno == eintr)) [
  | inl stopped ↦ rw stopped (minus-IsVerdict 110 (omega arith))
  | inr other ↦ rw other (minus-IsVerdict errno (h.select errno e))
]

connected-IsVerdict :
    (calls : SocketCalls) (o : Option ℕ)
    → AreSocketErrnos calls
    → IsErrno o
    → IsVerdict (connected calls o)
unfolding connected
connected-IsVerdict calls none h i = inl refl
connected-IsVerdict calls (some errno) h i = elim (Bool-cases (errno == einprogress)) [
  | inl waits ↦ rw waits (await_connection-IsVerdict calls calls.selected h refl)
  | inr other ↦ rw other (minus-IsVerdict errno i)
]

flags_set-IsVerdict :
    (calls : SocketCalls) (o : Option ℤ)
    → AreSocketErrnos calls
    → IsVerdict o
    → IsVerdict (flags_set calls o)
unfolding flags_set
flags_set-IsVerdict calls none h v =
    fail_first-IsVerdict calls.get_flags_fails _ h.get_flags
      (fail_first-IsVerdict calls.set_flags_fails none h.set_flags (inl refl))
flags_set-IsVerdict calls (some status) h v = v

-- An open socket or a negative status.
abbrev IsSocket : SocketCalls → ℤ × Bool → Type 0
IsSocket calls result = (result ≡ (pos calls.fd, true)) ⊎ ((n : ℕ) × (result ≡ (negsuc n, false)))

or_close-IsSocket :
    (calls : SocketCalls) (o : Option ℤ) → IsVerdict o → IsSocket calls (or_close calls o)
unfolding or_close
or_close-IsSocket calls o (inl e) = rw e (inl refl)
or_close-IsSocket calls o (inr (n, e)) = rw e (inr (n, refl))

-- tm_get_socket gives the descriptor, open, or closes it and gives a negative status.
pub tm_get_socket-IsSocket :
    (calls : SocketCalls) → AreSocketErrnos calls → IsSocket calls (tm_get_socket calls)
unfolding tm_get_socket
tm_get_socket-IsSocket calls h = opened calls.socket_fails h.socket
  where
    opened :
        (o : Option ℕ)
        → IsErrno o
        → IsSocket calls (elim o [
          | some errno ↦ (minus errno, false)
          | none ↦ or_close calls (
              fail_first calls.timeout_fails
                (flags_set calls (connected calls calls.connect_fails)))
        ])
    opened none i = or_close-IsSocket calls _ (
        fail_first-IsVerdict calls.timeout_fails _ h.timeout (
          flags_set-IsVerdict calls _ h
            (connected-IsVerdict calls calls.connect_fails h h.connect)))
    opened (some errno) i = let (n, e) = minus_negative errno i in inr (n, rw e refl)

written_all :
    (buf : Bytes) (result : Option ℤ × Bytes) (out : Bytes)
    → IsWritten buf result
    → done result ≡ done (some (pos 0), out)
    → buf ≡ out
written_all buf (status, sent) out (rest, whole, ends) e =
    let returns : status ≡ some (pos 0) = cc in
    let same : sent ≡ out = cc in whole ∙ ap (◌++◌ sent) (ends returns) ∙ append-nil sent ∙ same

with_socket_sent :
    (calls : SocketCalls) (writes : List Wrote) (bytes : Run Bytes) (result : ℤ × Bool)
    (out : Bytes)
    → IsSocket calls result
    → AreErrnos writes
    → with_socket writes bytes result ≡ done (some (pos 0), out)
    → (result ≡ (pos calls.fd, true)) × (bytes ≡ done out)
unfolding with_socket
with_socket_sent calls writes bytes (negsuc n, is_open) out s h e = absurd cc
with_socket_sent calls writes exit (pos fd, is_open) out s h e = absurd cc
with_socket_sent calls writes fault (pos fd, is_open) out s h e = absurd cc
with_socket_sent calls writes (done buf) (pos fd, is_open) out (inr (n, refused)) h e = absurd cc
with_socket_sent calls writes (done buf) (pos fd, is_open) out (inl opened) h e = (
  opened,
  ap done (
      written_all buf (tm_write_socket 0 writes buf) out (tm_write_socket-IsWritten 0 writes buf h)
        e),
)

-- When tm_send_record returns 0, and no errno that a call gave is 0, the client has not opted out, the
-- socket was connected, and the whole packet of the record, and nothing else, is on the socket.
pub tm_send_record_sent :
    (opted_out : Bool) (calls : SocketCalls) (writes : List Wrote) (r : TelemRecord)
    (cfg : Option Bytes) (out : Bytes)
    → AreSocketErrnos calls
    → AreErrnos writes
    → tm_send_record opted_out calls writes r cfg ≡ done (some (pos 0), out)
    → (opted_out ≡ false) × (tm_get_socket calls ≡ (pos calls.fd, true)) × (packet r cfg ≡ done out)
unfolding tm_send_record
tm_send_record_sent true calls writes r cfg out s h e = absurd cc
tm_send_record_sent false calls writes r cfg out s h e =
    let (opened, made) =
      with_socket_sent calls writes (packet r cfg) (tm_get_socket calls) out
        (tm_get_socket-IsSocket calls s) h e in
    (refl, opened, made)
