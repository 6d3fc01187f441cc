-- ===== src/Client/Socket.antt =====
-- src/telemetry.c: `tm_get_socket`, `tm_write_socket` and `tm_send_record`. What each call of the
-- system gives is an argument; `stat`, `close` and `calloc` have no other failures here.
use telemetrics_client.Base.{
  ℕ, zero, suc, ◌+◌, Bool, true, false, List, [], ◌∷◌, Option, none, some, ltb, ◌==◌, if◌then◌else◌,
  take, drop, ◌++◌,
}
use telemetrics_client.Base.Bytes.{Bytes}
use telemetrics_client.Base.Int.{ℤ, pos, negsuc}
use telemetrics_client.Base.Run.{Run, done, ◌>>=◌}
use telemetrics_client.Record.Wire.{TelemRecord, packet}

-- What a `write` on the socket does: it takes up to `n` bytes, or fails with an errno.
pub data Wrote : Type 0 where
  takes : ℕ → Wrote
  fails : ℕ → Wrote

abbrev pub eagain : ℕ
eagain = 11

-- -errno
unfoldable pub minus : ℕ → ℤ
minus zero = pos 0
minus (suc n) = negsuc n

-- The status and the bytes that the socket took; a status of none is a write that has not come back
-- yet. `k` counts the writes in a row that failed with EAGAIN, `buf` is what is left to write.
unfoldable pub tm_write_socket : ℕ → List Wrote → Bytes → Option ℤ × Bytes
unfolding minus
tm_write_socket k writes [] = (some (pos 0), [])
tm_write_socket k [] (c ∷ cs) = (none, [])
tm_write_socket k (fails errno ∷ writes) (c ∷ cs) =
    let again = tm_write_socket (k + 1) writes (c ∷ cs) in
    if errno == eagain
    then if ltb 100 (k + 1) then (some (minus errno), []) else again
    else (some (minus errno), [])
tm_write_socket k (takes n ∷ writes) (c ∷ cs) =
    let (status, out) = tm_write_socket 0 writes (drop n (c ∷ cs)) in
    (status, take n (c ∷ cs) ++ out)

-- `select` on the connecting socket.
pub data Selected : Type 0 where
  ready : Selected
  timed_out : Selected
  select_fails : ℕ → Selected

-- What the system's calls in `tm_get_socket` give: the descriptor or an errno, and for the others the
-- errno of a failure. `so_error` is the socket's own error.
pub record SocketCalls : Type 0 where
  pub fd : ℕ
  pub socket_fails : Option ℕ
  pub timeout_fails : Option ℕ
  pub connect_fails : Option ℕ
  pub selected : Selected
  pub query_fails : Option ℕ
  pub so_error : ℕ
  pub get_flags_fails : Option ℕ
  pub set_flags_fails : Option ℕ

abbrev pub einprogress : ℕ
einprogress = 115

abbrev pub eintr : ℕ
eintr = 4

abbrev pub etimedout : ℕ
etimedout = 110

-- None is success, otherwise the negative status.
unfoldable pub fail_first : Option ℕ → Option ℤ → Option ℤ
unfolding minus
fail_first none next = next
fail_first (some errno) next = some (minus errno)

-- The body of the `do` loop, which always leaves it. `select` interrupted by a signal counts as timed
-- out.
unfoldable pub await_connection : SocketCalls → Selected → Option ℤ
unfolding fail_first minus
await_connection calls ready =
    fail_first calls.query_fails (if calls.so_error == 0 then none else some (minus calls.so_error))
await_connection calls timed_out = some (minus etimedout)
await_connection calls (select_fails errno) =
    if errno == eintr then some (minus etimedout) else some (minus errno)

unfoldable pub connected : SocketCalls → Option ℕ → Option ℤ
unfolding await_connection minus
connected calls none = none
connected calls (some errno) =
    if errno == einprogress then await_connection calls calls.selected else some (minus errno)

-- `out1`: the socket is closed when a status is returned.
unfoldable pub or_close : SocketCalls → Option ℤ → ℤ × Bool
or_close calls none = (pos calls.fd, true)
or_close calls (some status) = (status, false)

-- After the connection is there.
unfoldable pub flags_set : SocketCalls → Option ℤ → Option ℤ
unfolding fail_first
flags_set calls (some status) = some status
flags_set calls none = fail_first calls.get_flags_fails (fail_first calls.set_flags_fails none)

-- The descriptor or the status, and whether a descriptor is open.
unfoldable pub tm_get_socket : SocketCalls → ℤ × Bool
unfolding fail_first minus connected or_close flags_set
tm_get_socket calls = elim calls.socket_fails [
  | some errno ↦ (minus errno, false)
  | none ↦
      or_close calls
        (fail_first calls.timeout_fails (flags_set calls (connected calls calls.connect_fails)))
]

-- -ECONNREFUSED
abbrev pub minus_econnrefused : ℤ
minus_econnrefused = negsuc 110

unfoldable pub with_socket : List Wrote → Run Bytes → ℤ × Bool → Run (Option ℤ × Bytes)
unfolding tm_write_socket
with_socket writes data_bytes (negsuc status, is_open) = done (some (negsuc status), [])
with_socket writes data_bytes (pos fd, is_open) =
    data_bytes >>= (λ bytes. done (tm_write_socket 0 writes bytes))

-- `opted_out` is that the opt-out file is there. The status, and the bytes that were sent.
unfoldable pub tm_send_record :
    Bool → SocketCalls → List Wrote → TelemRecord → Option Bytes → Run (Option ℤ × Bytes)
unfolding with_socket tm_get_socket packet
tm_send_record opted_out calls writes r cfg_file_name =
    if opted_out
    then done (some minus_econnrefused, [])
    else with_socket writes (packet r cfg_file_name) (tm_get_socket calls)
