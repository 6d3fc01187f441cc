-- ===== src/Checks/Controls.antt =====
-- telemctl on a concrete host.
use telemetrics_client.Base.{ℕ, ◌≡◌, refl, true, false, List, [], ◌∷◌, some, Option, arith}
use telemetrics_client.Base.Bytes.{Bytes, codes, equal}
use telemetrics_client.Base.Int.{pos}
use telemetrics_client.Base.Run.{done, fault}
use telemetrics_client.Client.Socket.{SocketCalls, Wrote, tm_send_record, minus_econnrefused}
use telemetrics_client.Record.Payload.{is_space}
use telemetrics_client.Record.Wire.{TelemRecord}
use telemetrics_client.Telemctl.{mk_telem_dir, removes, scan_folder, telemctl, telemctl_opt_out}
use telemetrics_client.Telemctl.Services.{Host, ControlState, owned, special_units, services}
use telemetrics_client.Telemctl.Arguments.{telemctl-journal}
use telemetrics_client.Telemctl.Folders.{
  AreOwned, AreShort, SpareOptOut, stopping, telemctl_opt_out-AreOwned,
}
use telemetrics_client.Telemctl.Opting.{IsOptedOut, telemctl-IsOptedOut}

abbrev lines : List Bytes
lines = codes "d /var/tmp/telemetry 01777 telemetry telemetry -\n" ∷ []

abbrev host : Host
host = record {
  syscmd = λ cmd. (pos 0, []);
  dirs_conf = some (lines, false);
  folder = λ before path. owned (some (codes "telemetry")) (some (codes "telemetry"));
  nftw = λ before path. codes "/var/tmp/telemetry/a" ∷ path ∷ [];
  telem_dir = true;
  create_fails = false;
  unlink_fails = false;
  is_root = true;
}

abbrev in_use : ControlState
in_use = record { opted_out = false; commands = []; removed = [] }

abbrev refusing : ControlState
refusing = record { opted_out = true; commands = []; removed = [] }

-- The owners that the line asks for are not looked at.
other_owner : scan_folder (codes "d /srv 0755 root root -\n") ≡ codes "/srv"
unfolding scan_folder is_space
other_owner = refl

telemctl-IsOptedOut_example :
    (n : ℕ) × (s : ControlState) × (telemctl host (codes "restart" ∷ []) refusing ≡ done (n, s))
    × IsOptedOut s
unfolding equal
telemctl-IsOptedOut_example =
    telemctl-IsOptedOut host (codes "restart") [] refusing refl refl (refl, tt)

dir_there : (mk_telem_dir host in_use).0 ≡ 0
unfolding mk_telem_dir
dir_there = refl

lines-AreShort : AreShort lines
unfolding scan_folder is_space
lines-AreShort = omega arith

lines-SpareOptOut : SpareOptOut host lines
unfolding scan_folder is_space removes equal
lines-SpareOptOut = (λ before. refl, tt)

telemctl_opt_out-AreOwned_example :
    (n : ℕ) × (s : ControlState) × (telemctl_opt_out host in_use ≡ done (n, s))
    × (s.opted_out ≡ true)
    × (s.commands
        ≡ stopping services (stopping special_units (mk_telem_dir host in_use).1.commands))
    × AreOwned host s.removed
    × ((calls : SocketCalls) (writes : List Wrote) (r : TelemRecord) (cfg : Option Bytes)
        → tm_send_record s.opted_out calls writes r cfg ≡ done (some minus_econnrefused, []))
telemctl_opt_out-AreOwned_example =
    telemctl_opt_out-AreOwned host in_use lines false dir_there refl refl refl lines-AreShort
      lines-SpareOptOut tt

telemctl-journal_example : telemctl host (codes "journal" ∷ codes "-r" ∷ []) in_use ≡ fault
telemctl-journal_example = telemctl-journal host (codes "-r" ∷ []) in_use refl
