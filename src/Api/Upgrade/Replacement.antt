-- ===== src/Api/Upgrade/Replacement.antt =====
-- What an upgrade leaves on the disk.
use tpn_worker.Base.{
  if◌then◌else◌, ◌<◌, ◌≤◌, Bool, true, false, not, Text, Option, none, some, ◌≡◌, refl, ◌⊎◌, inl,
  inr, sym, arith, Bool-cases, Option-cases,
}
use mathlib.Core.Path.{subst}
use tpn_worker.Api.Upgrade.{
  File, Disk, Outside, Response, Upgraded, Step, write_temp, chmod_temp, copy_backup, restore_copy,
  remove_exe, copy_exe, chmod_exe, was_executable, is_success, receive, write_file, copy_file,
  remove_file, set_permissions, replace, verify_and_replace, install, do_upgrade, failed,
}

-- The program is the new one, its backup is the old one, and a restart is due.
pub record Replaced (old : File) (bytes : Text) (r : Upgraded) : Type 0 where
  pub status : r.status ≡ 200
  pub restart : r.restart ≡ true
  pub exe : r.disk.exe ≡ some (record { bytes = bytes; executable = true })
  pub backup : r.disk.backup ≡ some old

-- The program is the old one; or its backup is, and the copy back from the backup failed.
pub record Kept (os : Outside) (old : File) (r : Upgraded) : Type 0 where
  pub status : r.status ≡ 500
  pub restart : r.restart ≡ false
  pub exe : (r.disk.exe ≡ some old) ⊎ ((r.disk.backup ≡ some old) × (os.fails restore_copy ≡ true))

-- `if !b { x } else { y }`
unless :
    (P : Upgraded → Type 0) (b : Bool) {x y : Upgraded} → P x → P y → P (if not b then x else y)
unless P true x y = y
unless P false x y = x

module _ (os : Outside) (old : File) where
  -- A failure that leaves the program alone.
  kept : (d : Disk) → d.exe ≡ some old → Kept os old (failed d)
  kept d e = record { status = refl; restart = refl; exe = inl e }

  -- A failure after the program is deleted: it is copied back, whatever stands in its place.
  restored :
      (temp place : Option File)
      → Kept os old (
          failed (record {
            exe = (copy_file os restore_copy (some old) place).1;
            backup = some old;
            temp = temp;
          }))
  unfolding copy_file
  restored temp place = record {
    status = refl;
    restart = refl;
    exe = elim (Bool-cases (os.fails restore_copy)) [
      | inl broken ↦ inr (refl, broken)
      | inr works ↦ inl (rw works refl)
    ];
  }

  abbrev After : Text → Upgraded → Type 0
  After bytes r = Replaced old bytes r ⊎ Kept os old r

  abbrev ready : Text → File
  ready bytes = record { bytes = bytes; executable = true }

  copy-cases :
      (s : Step) (f : File) (there : Option File)
      → (copy_file os s (some f) there ≡ (true, some f))
        ⊎ ((left : Option File) × (copy_file os s (some f) there ≡ (false, left)))
  unfolding copy_file
  copy-cases s f there = elim (Bool-cases (os.fails s)) [
    | inl broken ↦ inr (os.leaves s, rw broken refl)
    | inr works ↦ inl (rw works refl)
  ]

  permissions-cases :
      (s : Step) (f : File)
      → (set_permissions os s (some f) ≡ (true, some (ready f.bytes)))
        ⊎ (set_permissions os s (some f) ≡ (false, some f))
  unfolding set_permissions
  permissions-cases s f = elim (Bool-cases (os.fails s)) [
    | inl broken ↦ inr (rw broken refl)
    | inr works ↦ inl (rw works refl)
  ]

  remove-cases :
      (s : Step) (f : File)
      → (remove_file os s (some f) ≡ (true, none)) ⊎ (remove_file os s (some f) ≡ (false, some f))
  unfolding remove_file
  remove-cases s f = elim (Bool-cases (os.fails s)) [
    | inl broken ↦ inr (rw broken refl)
    | inr works ↦ inl (rw works refl)
  ]

  replaced :
      (bytes : Text)
      → After bytes
          (replace os (record { exe = some old; backup = some old; temp = some (ready bytes) }))
  unfolding replace
  replaced bytes = elim (remove-cases remove_exe old) [
    | inr stays ↦ rw stays (inr (kept _ refl))
    | inl gone ↦ rw gone (elim (copy-cases copy_exe (ready bytes) none) [
      | inr (left, broken) ↦ rw broken (inr (restored _ _))
      | inl copied ↦ rw copied (elim (permissions-cases chmod_exe (ready bytes)) [
        | inr broken ↦ rw broken (inr (restored _ _))
        | inl allowed ↦
            rw allowed (inl (record { status = refl; restart = refl; exe = refl; backup = refl }))
      ])
    ])
  ]

  verified :
      (bytes : Text) (backup : Option File)
      → After bytes (
          verify_and_replace os
            (record { exe = some old; backup = backup; temp = some (ready bytes) }))
  unfolding verify_and_replace
  verified bytes backup = unless (After bytes) os.starts (inr (kept _ refl)) (
      unless (After bytes) os.exe_known (inr (kept _ refl))
        (elim (copy-cases copy_backup old backup) [
          | inr (left, broken) ↦ rw broken (inr (kept _ refl))
          | inl saved ↦ rw saved (replaced bytes)
        ]))

  installed :
      (bytes : Text) (backup temp : Option File)
      → After bytes (install os bytes (record { exe = some old; backup = backup; temp = temp }))
  unfolding install write_file
  installed bytes backup temp = elim (Bool-cases (os.fails write_temp)) [
    | inl broken ↦ rw broken (inr (kept _ refl))
    | inr written ↦
        rw written
          (elim (permissions-cases chmod_temp
            (record { bytes = bytes; executable = was_executable temp })) [
              | inr broken ↦ rw broken (inr (kept _ refl))
              | inl allowed ↦ rw allowed (verified bytes backup)
            ])
  ]

  -- The response is successful, and its body is the new program.
  abbrev pub Upgrades : Option Response → Upgraded → Type 0
  Upgrades response r =
      (received : Response) × (bytes : Text) × (response ≡ some received)
      × (200 ≤ received.code)
      × (received.code < 300)
      × (received.body ≡ some bytes)
      × Replaced old bytes r

  received :
      (response : Option Response) (backup temp : Option File)
      → let r = receive os response (record { exe = some old; backup = backup; temp = temp }) in
        Upgrades response r ⊎ Kept os old r
  unfolding receive
  received none backup temp = inr (kept _ refl)
  received (some r) backup temp = elim (Bool-cases (is_success r.code)) [
    | inr bad ↦ rw bad (inr (kept _ refl))
    | inl good ↦ rw good (elim (Option-cases r.body) [
      | inl empty ↦ rw empty (inr (kept _ refl))
      | inr (bytes, full) ↦ rw full (elim (installed bytes backup temp) [
        | inl new ↦ inl (_, bytes, refl, ground arith, ground arith, refl, new)
        | inr same ↦ inr same
      ])
    ])
  ]

-- Whatever calls fail, an upgrade of a program ends in one of two ways. Either it answers 200 with a
-- restart due, the program's file holds the bytes of a successful response and is executable, and
-- the backup is the old file. Or it answers 500 with no restart, and the program's file is the old
-- one, unless the copy back from the backup failed, where the backup is the old one.
pub do_upgrade_keeps :
    (os : Outside) (d : Disk) (old : File)
    → d.exe ≡ some old
    → Upgrades os old os.response (do_upgrade os d) ⊎ Kept os old (do_upgrade os d)
unfolding do_upgrade
do_upgrade_keeps os d old e =
    subst
      (λ (exe : Option File).
        let r = do_upgrade os (record { exe = exe; backup = d.backup; temp = d.temp }) in
        Upgrades os old os.response r ⊎ Kept os old r)
      (sym e)
      (unless (λ r. Upgrades os old os.response r ⊎ Kept os old r) os.client
        (inr (kept os old _ refl)) (received os old os.response d.backup d.temp))
