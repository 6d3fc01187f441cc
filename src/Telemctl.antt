-- ===== src/Telemctl.antt =====
-- src/telemctl.c: starting and stopping the services, opting in and out. What popen and the file
-- system give is an argument; texts to stdout and stderr are left out.
pub mod Services
pub mod Opting
pub mod Folders
pub mod Arguments
use telemetrics_client.Common.{path_max}
use telemetrics_client.Base.{
  ℕ, ◌+◌, Bool, true, false, not, ◌&&◌, ◌||◌, List, [], ◌∷◌, ◌++◌, Option, none, some, ltb, leb,
  ◌==◌, if◌then◌else◌, length,
}
use telemetrics_client.Base.Bytes.{Bytes, codes, equal}
use telemetrics_client.Base.Int.{is_minus_one}
use telemetrics_client.Base.Run.{Run, done, fault, ◌>>=◌}
use telemetrics_client.Oops.Numbers.{skip_spaces}
use telemetrics_client.Record.Payload.{is_space}
use telemetrics_client.Telemctl.Services.{
  services, Folder, absent, stat_fails, owned, Host, ControlState, ran, is_empty, cmd_mk_telemdir,
  telemctl_start, telemctl_stop, telemctl_restart, telemctl_is_active,
}

abbrev pub is_telemetry : Option Bytes → Bool
is_telemetry none = false
is_telemetry (some name) = equal name (codes "telemetry")

abbrev pub opt_out_file : Bytes
opt_out_file = codes "/etc/telemetrics/opt-out"

-- The path is among these.
unfoldable pub removes : Bytes → List Bytes → Bool
removes path [] = false
removes path (p ∷ paths) = equal path p || removes path paths

-- nftw with `unlink_cb`, which removes what it is given; the opt-out file may be among it.
unfoldable pub unlink_all : Bytes → List Bytes → ControlState → ControlState
unfolding removes
unlink_all path paths s = record s {
  opted_out = s.opted_out && not (removes opt_out_file paths);
  removed = (path, paths) ∷ s.removed;
}

-- Only the owner and the group of the folder itself are looked at. The result of rm_rf is not.
unfoldable pub rm_rf : Host → Bytes → Folder → ControlState → ControlState
unfolding equal unlink_all
rm_rf h path absent s = s
rm_rf h path stat_fails s = s
rm_rf h path (owned user group) s =
    if is_telemetry user && is_telemetry group then unlink_all path (h.nftw s.removed path) s else s

unfoldable pub first_word : Bytes → Bytes
first_word [] = []
first_word (c ∷ cs) = if is_space c then [] else c ∷ first_word cs

-- sscanf(line, "d %s %*s telemetry telemetry - \n", folder) == 1: the folder is assigned, whatever
-- follows it.
unfoldable pub scan_folder : Bytes → Bytes
unfolding first_word skip_spaces
scan_folder [] = []
scan_folder (c ∷ cs) = if c == b'd' then first_word (skip_spaces cs) else []

-- A name that does not fit in `folder` is written behind it.
unfoldable pub remove_folder : Host → Bytes → ControlState → Run ControlState
unfolding rm_rf
remove_folder h [] s = done s
remove_folder h (c ∷ cs) s =
    if ltb path_max (length (c ∷ cs))
    then fault
    else done (rm_rf h (c ∷ cs) (h.folder s.removed (c ∷ cs)) s)

unfoldable pub remove_folders : Host → List Bytes → ControlState → Run ControlState
unfolding remove_folder scan_folder
remove_folders h [] s = done s
remove_folders h (line ∷ lines) s =
    remove_folder h (scan_folder line) s >>= (λ s'. remove_folders h lines s')

unfoldable pub telemctl_remove_work_dirs : Host → ControlState → Run (ℕ × ControlState)
unfolding remove_folders
telemctl_remove_work_dirs h s = elim h.dirs_conf [
  | none ↦ done (1, s)
  | some (lines, fails) ↦ remove_folders h lines s >>= (λ s'. done (if fails then 1 else 0, s'))
]

unfoldable pub mk_telem_dir : Host → ControlState → ℕ × ControlState
unfolding ran is_empty
mk_telem_dir h s =
    let (status, buff) = h.syscmd cmd_mk_telemdir in
    if h.telem_dir
    then (0, s)
    else (if is_minus_one status || not (is_empty buff) then 1 else 0, ran cmd_mk_telemdir s)

-- open with O_EXCL, then the services are stopped.
unfoldable pub create_opt_out : Host → ControlState → Run (ℕ × ControlState)
unfolding telemctl_stop telemctl_remove_work_dirs
create_opt_out h s =
    if s.opted_out
    then done (0, s)
    else if h.create_fails
    then done (1, s)
    else telemctl_remove_work_dirs h (telemctl_stop h (record s { opted_out = true })).1

unfoldable pub telemctl_opt_out : Host → ControlState → Run (ℕ × ControlState)
unfolding mk_telem_dir create_opt_out
telemctl_opt_out h s =
    let (ret, s') = mk_telem_dir h s in if ret == 0 then create_opt_out h s' else done (1, s')

unfoldable pub telemctl_opt_in : Host → ControlState → ℕ × ControlState
unfolding telemctl_start
telemctl_opt_in h s =
    if not s.opted_out
    then (0, s)
    else if h.unlink_fails
    then (1, s)
    else telemctl_start h (record s { opted_out = false })

-- The command is run, and the result is 1 whatever it gives.
unfoldable pub telemctl_journal : Bytes → ControlState → ℕ × ControlState
unfolding ran
telemctl_journal cmd s = (1, ran cmd s)

unfoldable pub join_args : List Bytes → Bytes
join_args [] = []
join_args (a ∷ rest) = a ++ b' ' ∷ join_args rest

-- The size that is allocated.
unfoldable pub args_size : List Bytes → ℕ
args_size [] = length (codes "telem_journal") + 1
args_size (a ∷ rest) = args_size rest + (length a + 1)

-- The text and its NUL, if they fit in the buffer.
unfoldable pub concatargs : List Bytes → Run Bytes
unfolding join_args args_size
concatargs args =
    let text = codes "telem_journal " ++ join_args args in
    if leb (length text + 1) (args_size args) then done text else fault

-- The function of a command without arguments.
pub data Command : Type 0 where
  stop start restart is_active opt_in opt_out : Command

unfoldable pub find_command : Bytes → Option Command
find_command name =
    if equal (codes "stop") name
    then some stop
    else if equal (codes "start") name
    then some start
    else if equal (codes "restart") name
    then some restart
    else if equal (codes "is-active") name
    then some is_active
    else if equal (codes "opt-in") name
    then some opt_in
    else if equal (codes "opt-out") name
    then some opt_out
    else none

unfoldable pub run_command : Host → Command → ControlState → Run (ℕ × ControlState)
unfolding telemctl_stop telemctl_start telemctl_restart telemctl_is_active telemctl_opt_in
    telemctl_opt_out
run_command h stop s = done (telemctl_stop h s)
run_command h start s = done (telemctl_start h s)
run_command h restart s = done (telemctl_restart h s)
run_command h is_active s = done (telemctl_is_active h s)
run_command h opt_in s = done (telemctl_opt_in h s)
run_command h opt_out s = telemctl_opt_out h s

unfoldable pub run_found :
    Host → Option Command → Bytes → List Bytes → ControlState → Run (ℕ × ControlState)
unfolding run_command telemctl_journal concatargs
run_found h (some command) name [] s = if h.is_root then run_command h command s else done (1, s)
run_found h (some command) name (a ∷ args) s = done (if h.is_root then 2 else 1, s)
run_found h none name args s =
    if equal (codes "journal") name
    then (if h.is_root
        then concatargs args >>= (λ cmd. done (telemctl_journal cmd s))
        else done (1, s))
    else done (2, s)

-- The arguments behind the program's name; the exit status.
unfoldable pub telemctl : Host → List Bytes → ControlState → Run (ℕ × ControlState)
unfolding run_found find_command
telemctl h [] s = done (2, s)
telemctl h (name ∷ args) s = run_found h (find_command name) name args s
