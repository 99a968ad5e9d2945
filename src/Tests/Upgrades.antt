-- ===== src/Tests/Upgrades.antt =====
-- Upgrades of the program's file.
use tpn_worker.Base.{
  Bool, true, false, Text, eq_text, codes, drop_all, [], none, some, ◌≡◌, ◌⊎◌, refl,
}
use tpn_worker.Api.Upgrade.{
  File, Disk, Step, copy_exe, Outside, do_upgrade, receive, install, verify_and_replace, replace,
  write_file, copy_file, remove_file, set_permissions, get_version,
}
use tpn_worker.Api.Upgrade.Replacement.{Kept, Upgrades, do_upgrade_keeps}

abbrev program : Text → File
program bytes = record { bytes = bytes; executable = true }

abbrev disk : Disk
disk = record { exe = some (program (codes "old")); backup = none; temp = none }

abbrev fails_at_copy : Step → Bool
fails_at_copy copy_exe = true
fails_at_copy _ = false

abbrev outside : (Step → Bool) → Outside
outside fails = record {
  client = true;
  response = some (record { code = 200; body = some (codes "new") });
  fails = fails;
  leaves = λ s. some (program []);
  starts = true;
  exe_known = true;
}

abbrev old : File
old = program (codes "old")

do_upgrade_keeps_example :
    let r = do_upgrade (outside fails_at_copy) disk in
    Upgrades (outside fails_at_copy) old (outside fails_at_copy).response r
    ⊎ Kept (outside fails_at_copy) old r
do_upgrade_keeps_example = do_upgrade_keeps (outside fails_at_copy) disk old refl

-- A copy that stops half-way is undone.
undone : (do_upgrade (outside fails_at_copy) disk).disk.exe ≡ some old
unfolding do_upgrade receive install verify_and_replace replace write_file copy_file remove_file
    set_permissions
undone = refl

upgraded : do_upgrade (outside (λ s. false)) disk ≡ record {
  status = 200;
  restart = true;
  disk = record { exe = some (program (codes "new")); backup = some old; temp = none };
}
unfolding do_upgrade receive install verify_and_replace replace write_file copy_file remove_file
    set_permissions
upgraded = refl

-- A release that is tagged `latest` is an update of every version.
always_new :
    (get_version
      (codes "0.1.0")
      (some (record { tag_name = codes "latest"; assets = [] }))).has_update
    ≡ true
unfolding get_version drop_all eq_text
always_new = refl
