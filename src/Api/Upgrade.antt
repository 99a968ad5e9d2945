-- ===== src/Api/Upgrade.antt =====
-- api/upgrade.rs: the check for a new release, and the replacement of the program's own file. The
-- three files are at three paths. What each call of the operating system comes to is a parameter.
pub mod Replacement
use tpn_worker.Base.{
  ℕ, ◌<◌, leb, ltb, Bool, true, false, not, ◌&&◌, ◌∷◌, ◌++◌, Text, eq_text, codes, drop_all, List,
  [], Option, none, some, if◌then◌else◌,
}

pub record GitHubAsset : Type 0 where
  pub name : Text
  pub browser_download_url : Text

pub record GitHubRelease : Type 0 where
  pub tag_name : Text
  pub assets : List GitHubAsset

pub record VersionInfo : Type 0 where
  pub current : Text
  pub latest : Option Text
  pub has_update : Bool
  pub download_url : Option Text

abbrev pub asset_name : Text
asset_name = codes "tpn-worker-linux-ubuntu22-amd64"

unfoldable pub find_asset : List GitHubAsset → Option Text
find_asset [] = none
find_asset (a ∷ assets) =
    let rest = find_asset assets in
    if eq_text a.name asset_name then some a.browser_download_url else rest

-- `none` where the client, the request or the parsing of its answer fails.
unfoldable pub get_version : Text → Option GitHubRelease → VersionInfo
get_version version none = record {
  current = b'v' ∷ version;
  latest = none;
  has_update = false;
  download_url = none;
}
get_version version (some release) =
    let latest_clean = drop_all b'v' release.tag_name in
    let current_clean = drop_all b'v' (b'v' ∷ version) in
    record {
      current = b'v' ∷ version;
      latest = some release.tag_name;
      has_update = not (eq_text latest_clean current_clean);
      download_url = find_asset release.assets;
    }

pub record File : Type 0 where
  pub bytes : Text
  pub executable : Bool

-- The program, its backup and the temporary file, where they exist.
pub record Disk : Type 0 where
  pub exe : Option File
  pub backup : Option File
  pub temp : Option File

pub data Step : Type 0 where
  write_temp chmod_temp copy_backup remove_exe copy_exe restore_copy chmod_exe : Step
  remove_new remove_temp : Step

pub record Response : Type 0 where
  pub code : ℕ
  pub body : Option Text

-- Whether the client can be built, what is received, which calls fail, what a failed write or copy
-- leaves behind, whether the new program can be started and whether the path of this one is known.
pub record Outside : Type 0 where
  pub client : Bool
  pub response : Option Response
  pub fails : Step → Bool
  pub leaves : Step → Option File
  pub starts : Bool
  pub exe_known : Bool

-- Whether a call succeeds, and the file at its path afterwards.
abbrev pub Call : Type 0
Call = Bool × Option File

pub record Upgraded : Type 0 where
  pub status : ℕ
  pub restart : Bool
  pub disk : Disk

abbrev pub failed : Disk → Upgraded
failed d = record { status = 500; restart = false; disk = d }

abbrev pub was_executable : Option File → Bool
was_executable none = false
was_executable (some f) = f.executable

-- `StatusCode::is_success`
abbrev pub is_success : ℕ → Bool
is_success code = leb 200 code && ltb code 300

module _ (os : Outside) where
  -- `std::fs::write`: a file that is there keeps its permissions.
  unfoldable pub write_file : Step → Text → Option File → Call
  write_file s bytes old =
      if os.fails s
      then (false, os.leaves s)
      else (true, some (record { bytes = bytes; executable = was_executable old }))

  -- `std::fs::copy`, which copies the permissions too.
  unfoldable pub copy_file : Step → Option File → Option File → Call
  copy_file s none old = (false, old)
  copy_file s (some f) old = if os.fails s then (false, os.leaves s) else (true, some f)

  unfoldable pub remove_file : Step → Option File → Call
  remove_file s none = (false, none)
  remove_file s (some f) = if os.fails s then (false, some f) else (true, none)

  unfoldable pub set_permissions : Step → Option File → Call
  set_permissions s none = (false, none)
  set_permissions s (some f) =
      if os.fails s then (false, some f) else (true, some (record f { executable = true }))

  -- 8: delete the program, copy the new one to its place, and undo what fails.
  unfoldable pub replace : Disk → Upgraded
  replace d =
      let (removed, gone) = remove_file remove_exe d.exe in
      let (copied, new) = copy_file copy_exe d.temp gone in
      let restored = (copy_file restore_copy d.backup new).1 in
      let (allowed, ready) = set_permissions chmod_exe new in
      let cleared = (remove_file remove_new ready).1 in
      let put_back = (copy_file restore_copy d.backup cleared).1 in
      let left = (remove_file remove_temp d.temp).1 in
      if not removed
      then failed (record d { exe = gone })
      else if not copied
      then failed (record d { exe = restored })
      else if not allowed
      then failed (record d { exe = put_back })
      else record { status = 200; restart = true; disk = record d { exe = ready; temp = left } }

  -- 5 to 7: start the new program, and back up this one.
  unfoldable pub verify_and_replace : Disk → Upgraded
  verify_and_replace d =
      let (copied, saved) = copy_file copy_backup d.exe d.backup in
      if not os.starts
      then failed (record d { temp = (remove_file remove_temp d.temp).1 })
      else if not os.exe_known
      then failed d
      else if not copied
      then failed (record d { backup = saved })
      else replace (record d { backup = saved })

  -- 3 and 4: the temporary file.
  unfoldable pub install : Text → Disk → Upgraded
  install bytes d =
      let (written, new) = write_file write_temp bytes d.temp in
      let (allowed, ready) = set_permissions chmod_temp new in
      if not written
      then failed (record d { temp = new })
      else if not allowed
      then failed (record d { temp = ready })
      else verify_and_replace (record d { temp = ready })

  -- 2: the body of a successful response.
  unfoldable pub receive : Option Response → Disk → Upgraded
  receive none d = failed d
  receive (some r) d =
      if not (is_success r.code)
      then failed d
      else elim r.body [ none ↦ failed d | some bytes ↦ install bytes d ]

  unfoldable pub do_upgrade : Disk → Upgraded
  do_upgrade d = if not os.client then failed d else receive os.response d
