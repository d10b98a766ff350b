-- ===== src/ParamInfo.antt =====
-- src/pwg-param-info.c: the descriptor of a parameter that an object has.
use Prim.Native.Nat.{bit_and}
use pipewire_gobject.Prelude.{ℕ, String, Bool, not, Option, ◌==◌}

-- struct _PwgParamInfo
pub record ParamInfo : Type 0 where
  pub id : ℕ  -- unsigned int
  pub flags : ℕ  -- unsigned int

-- _pwg_param_info_new
unfoldable pub param_info_new : ℕ → ℕ → ParamInfo
param_info_new id flags = record { id = id; flags = flags }

-- What SPA defines: the names of parameter ids, and the bits of the flags.
pub record ParamInfoSpa : Type 0 where
  pub param_name : ℕ → Option String
  pub read : ℕ
  pub write : ℕ
  pub serial : ℕ

abbrev has_flag : ℕ → ℕ → Bool
has_flag flags flag = not (bit_and flags flag == 0)

-- pwg_param_info_dup_name
unfoldable pub param_info_dup_name : ParamInfoSpa → ParamInfo → Option String
param_info_dup_name spa self = spa.param_name self.id

-- pwg_param_info_get_readable
unfoldable pub get_readable : ParamInfoSpa → ParamInfo → Bool
get_readable spa self = has_flag self.flags spa.read

-- pwg_param_info_get_writable
unfoldable pub get_writable : ParamInfoSpa → ParamInfo → Bool
get_writable spa self = has_flag self.flags spa.write

-- pwg_param_info_get_serial
unfoldable pub get_serial : ParamInfoSpa → ParamInfo → Bool
get_serial spa self = has_flag self.flags spa.serial
