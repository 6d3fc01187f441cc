-- ===== src/Telemctl/Arguments.antt =====
-- The command line that `telemctl journal` puts together.
use telemetrics_client.Base.{
  ◌+◌, ◌≡◌, refl, true, List, [], ◌∷◌, ◌++◌, leb, length, length-append, arith, if_false,
}
use telemetrics_client.Base.Bytes.{Bytes, codes, equal}
use telemetrics_client.Base.Run.{fault}
use telemetrics_client.Telemctl.{
  join_args, args_size, concatargs, find_command, run_found, telemctl,
}
use telemetrics_client.Telemctl.Services.{Host, ControlState}

length-join_args : (args : List Bytes) → length (join_args args) + 14 ≡ args_size args
unfolding join_args args_size
length-join_args [] = refl
length-join_args (a ∷ args) =
    omega (arith, length-join_args args, length-append a (b' ' ∷ join_args args))

concatargs_overflows : (args : List Bytes) → concatargs args ≡ fault
unfolding concatargs
concatargs_overflows args =
    let text = codes "telem_journal " ++ join_args args in
    if_false (leb (length text + 1) (args_size args)) _ _ (ground (arith, length-join_args args))

-- For root `telemctl journal` writes the NUL of its command line behind the buffer, with any further
-- arguments and with none.
pub telemctl-journal :
    (h : Host) (args : List Bytes) (s : ControlState)
    → h.is_root ≡ true
    → telemctl h (codes "journal" ∷ args) s ≡ fault
unfolding telemctl find_command run_found equal
telemctl-journal h args s root = rw (root, concatargs_overflows args) refl
