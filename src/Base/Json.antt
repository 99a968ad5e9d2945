-- ===== src/Base/Json.antt =====
-- JSON values, as `serde_json::json!` builds them.
use mathlib.Core.Bool.{Bool}
use mathlib.Core.Option.{Option, none, some}
use tpn_worker.Base.Int.{ℤ}
use tpn_worker.Base.Strings.{Text, eq_text}
use tpn_worker.Base.Tests.{if◌then◌else◌}

mutual
  pub data Json : Type 0 where
    str : Text → Json
    num : ℤ → Json
    bool : Bool → Json
    null : Json
    obj : Fields → Json

  pub data Fields : Type 0 where
    end : Fields
    field : Text → Json → Fields → Fields

-- `as_str`
abbrev pub as_str : Json → Option Text
as_str (str s) = some s
as_str _ = none

-- `as_bool`
abbrev pub as_bool : Json → Option Bool
as_bool (bool b) = some b
as_bool _ = none

-- `get` on the fields of an object, and on a value.
unfoldable pub get_in : Text → Fields → Option Json
get_in k end = none
get_in k (field l v fs) = if eq_text l k then some v else get_in k fs

unfoldable pub get_field : Text → Json → Option Json
unfolding get_in
get_field k (obj fs) = get_in k fs
get_field k _ = none
