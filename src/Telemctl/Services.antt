-- ===== src/Telemctl/Services.antt =====
-- src/telemctl.c: the host, and starting and stopping the services.
use telemetrics_client.Base.{
  ℕ, Bool, true, false, not, ◌||◌, List, [], ◌∷◌, ◌++◌, Option, ◌==◌, if◌then◌else◌,
}
use telemetrics_client.Base.Bytes.{Bytes, codes}
use telemetrics_client.Base.Int.{ℤ, is_zero, is_minus_one}

unfoldable pub special_units : List Bytes
special_units =
    codes "hprobe.timer"
    ∷ codes "telemprobd.socket"
    ∷ codes "telempostd.path"
    ∷ codes "klogscanner.service"
    ∷ codes "journal-probe-tail.service"
    ∷ codes "python-probe.path"
    ∷ []

unfoldable pub services : List Bytes
services =
    codes "hprobe.service"
    ∷ codes "pstore-probe.service"
    ∷ codes "telemprobd.service"
    ∷ codes "telempostd.service"
    ∷ codes "journal-probe.service"
    ∷ []

-- What `stat`, getpwuid and getgrgid give for a folder: it is not there, `stat` fails otherwise, or
-- the names of its owner and its group.
pub data Folder : Type 0 where
  absent : Folder
  stat_fails : Folder
  owned : Option Bytes → Option Bytes → Folder

-- The status of a command and what it leaves in the buffer; after some calls of nftw, what a folder is
-- and what a next call removes, which is all that lies below it, whoever owns it; the lines of telemetrics-dirs.conf that
-- fgets reads, and whether it fails in the end; what calls on the opt-out file give.
pub record Host : Type 0 where
  pub syscmd : Bytes → ℤ × Bytes
  pub dirs_conf : Option (List Bytes × Bool)
  pub folder : List (Bytes × List Bytes) → Bytes → Folder
  pub nftw : List (Bytes × List Bytes) → Bytes → List Bytes
  pub telem_dir : Bool
  pub create_fails : Bool
  pub unlink_fails : Bool
  pub is_root : Bool

-- The opt-out file, the commands that were run and the folders that nftw was called for, each with the
-- paths that it removed, the newest first.
pub record ControlState : Type 0 where
  pub opted_out : Bool
  pub commands : List Bytes
  pub removed : List (Bytes × List Bytes)

unfoldable pub ran : Bytes → ControlState → ControlState
ran cmd s = record s { commands = cmd ∷ s.commands }

unfoldable pub is_empty : Bytes → Bool
is_empty [] = true
is_empty (c ∷ cs) = false

unfoldable pub service_command : Bytes → Bytes → Bytes
service_command command service = codes "systemctl " ++ (command ++ b' ' ∷ service)

-- 1 if one of the commands fails or writes something.
unfoldable pub for_each_service : Host → Bytes → List Bytes → ℕ → ControlState → ℕ × ControlState
unfolding ran service_command is_empty
for_each_service h command [] ret s = (ret, s)
for_each_service h command (service ∷ rest) ret s =
    let (status, buff) = h.syscmd (service_command command service) in
    for_each_service h command rest (if not (is_zero status) || not (is_empty buff) then 1 else ret)
      (ran (service_command command service) s)

abbrev pub cmd_create_tmp_files : Bytes
cmd_create_tmp_files = codes "systemd-tmpfiles --create /usr/lib/tmpfiles.d/telemetrics-dirs.conf"

abbrev pub cmd_mk_telemdir : Bytes
cmd_mk_telemdir = codes "mkdir -p /etc/telemetrics"

unfoldable pub telemctl_start : Host → ControlState → ℕ × ControlState
unfolding for_each_service special_units ran
telemctl_start h s =
    if s.opted_out
    then (1, s)
    else if is_minus_one (h.syscmd cmd_create_tmp_files).0
    then (1, ran cmd_create_tmp_files s)
    else for_each_service h (codes "start") special_units 0 (ran cmd_create_tmp_files s)

-- The second result is or-ed to the first.
unfoldable pub telemctl_stop : Host → ControlState → ℕ × ControlState
unfolding for_each_service special_units services
telemctl_stop h s =
    let (ret, s') = for_each_service h (codes "stop") special_units 0 s in
    for_each_service h (codes "stop") services ret s'

unfoldable pub telemctl_restart : Host → ControlState → ℕ × ControlState
unfolding telemctl_start telemctl_stop
telemctl_restart h s =
    let (ret, s') = telemctl_stop h s in if ret == 0 then telemctl_start h s' else (1, s')

unfoldable pub telemctl_is_active : Host → ControlState → ℕ × ControlState
unfolding ran
telemctl_is_active h s =
    let probd = codes "systemctl is-active telemprobd.socket" in
    let postd = codes "systemctl is-active telempostd.path" in
    if is_minus_one (h.syscmd probd).0
    then (1, ran probd s)
    else (if is_minus_one (h.syscmd postd).0 then 1 else 0, ran postd (ran probd s))
