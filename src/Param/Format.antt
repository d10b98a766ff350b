-- ===== src/Param/Format.antt =====
-- src/pwg-param.c: the names in a parameter, and the audio format that it may describe.
use pipewire_gobject.Prelude.{ℕ, String, not, ◌||◌, Option, none, some, List, ◌==◌, if◌then◌else◌}
use pipewire_gobject.Audio.{AudioFormat, audio_format_new}
use pipewire_gobject.Param.Pod.{
  Param, PodLayout, read_u32, get_pod, pod_type, get_pod_type, get_object_type, get_object_id,
}

-- enum spa_audio_format, as far as the switch names it
pub data SampleFormat : Type 0 where
  u8 s8 ulaw alaw u8p s8p : SampleFormat
  s16_le s16_be u16_le u16_be s16p : SampleFormat
  s24_le s24_be u24_le u24_be s24p : SampleFormat
  s24_32_le s24_32_be u24_32_le u24_32_be s32_le s32_be u32_le u32_be : SampleFormat
  f32_le f32_be s24_32p s32p f32p : SampleFormat
  f64_le f64_be f64p : SampleFormat
  other_format : ℕ → SampleFormat

-- struct spa_audio_info_raw, as far as the code reads it
pub record RawInfo : Type 0 where
  pub format : SampleFormat
  pub rate : ℕ
  pub channels : ℕ

-- What SPA defines: the tables of type names (`Table`, with the entries `Entry`), the constants, and
-- the two parsers, which give `none` where they fail.
pub record Spa : Type 1 where
  pub Table : Type 0
  pub Entry : Type 0
  pub type_root : Table
  pub type_param : Table
  pub type_media_type : Table
  pub type_media_subtype : Table
  pub type_audio_format : SampleFormat → Option String
  pub find : Table → ℕ → Option Entry
  pub values : Entry → Option Table
  pub find_short_name : Table → ℕ → Option String
  pub object_format : ℕ  -- SPA_TYPE_OBJECT_Format
  pub media_type_audio : ℕ
  pub media_subtype_raw : ℕ
  pub format_parse : List ℕ → Option (ℕ × ℕ)
  pub format_audio_raw_parse : List ℕ → Option RawInfo

-- pwg_param_audio_format_bytes_per_sample
unfoldable pub audio_format_bytes_per_sample : SampleFormat → ℕ
audio_format_bytes_per_sample u8 = 1
audio_format_bytes_per_sample s8 = 1
audio_format_bytes_per_sample ulaw = 1
audio_format_bytes_per_sample alaw = 1
audio_format_bytes_per_sample u8p = 1
audio_format_bytes_per_sample s8p = 1
audio_format_bytes_per_sample s16_le = 2
audio_format_bytes_per_sample s16_be = 2
audio_format_bytes_per_sample u16_le = 2
audio_format_bytes_per_sample u16_be = 2
audio_format_bytes_per_sample s16p = 2
audio_format_bytes_per_sample s24_le = 3
audio_format_bytes_per_sample s24_be = 3
audio_format_bytes_per_sample u24_le = 3
audio_format_bytes_per_sample u24_be = 3
audio_format_bytes_per_sample s24p = 3
audio_format_bytes_per_sample s24_32_le = 4
audio_format_bytes_per_sample s24_32_be = 4
audio_format_bytes_per_sample u24_32_le = 4
audio_format_bytes_per_sample u24_32_be = 4
audio_format_bytes_per_sample s32_le = 4
audio_format_bytes_per_sample s32_be = 4
audio_format_bytes_per_sample u32_le = 4
audio_format_bytes_per_sample u32_be = 4
audio_format_bytes_per_sample f32_le = 4
audio_format_bytes_per_sample f32_be = 4
audio_format_bytes_per_sample s24_32p = 4
audio_format_bytes_per_sample s32p = 4
audio_format_bytes_per_sample f32p = 4
audio_format_bytes_per_sample f64_le = 8
audio_format_bytes_per_sample f64_be = 8
audio_format_bytes_per_sample f64p = 8
audio_format_bytes_per_sample (other_format n) = 0

module _ (layout : PodLayout) (spa : Spa) where
  -- pwg_param_dup_name
  unfoldable pub dup_name : Param → Option String
  dup_name self = spa.find_short_name spa.type_param self.id

  -- The name of a type that was read; the outer `none` is a read outside of the bytes.
  unfoldable pub root_name : Option ℕ → Option (Option String)
  root_name none = none
  root_name (some type) = some (spa.find_short_name spa.type_root type)

  -- pwg_param_dup_pod_type_name
  unfoldable pub dup_pod_type_name : Param → Option (Option String)
  unfolding root_name
  dup_pod_type_name self = root_name (get_pod_type layout self)

  -- pwg_param_dup_object_type_name
  unfoldable pub dup_object_type_name : Param → Option (Option String)
  unfolding root_name
  dup_object_type_name self = root_name (get_object_type layout self)

  -- The values of the entry that a table has for a type.
  unfoldable pub values_of : Option spa.Entry → Option spa.Table
  values_of none = none
  values_of (some entry) = spa.values entry

  -- pwg_param_object_id_name
  unfoldable pub object_id_name : ℕ → ℕ → Option String
  unfolding values_of
  object_id_name object_type object_id = elim (values_of (spa.find spa.type_root object_type)) [
    | none ↦ none
    | some ids ↦ elim (values_of (spa.find ids 0)) [
      | none ↦ none
      | some names ↦ spa.find_short_name names object_id
    ]
  ]

  -- pwg_param_dup_object_id_name
  unfoldable pub dup_object_id_name : Param → Option (Option String)
  unfolding object_id_name
  dup_object_id_name self = elim (get_object_type layout self) [
    | none ↦ none
    | some object_type ↦ elim (get_object_id layout self) [
      | none ↦ none
      | some object_id ↦ some (object_id_name object_type object_id)
    ]
  ]

  -- pwg_param_parse_format of a POD that was found. The outer `none` is a read outside of the
  -- bytes.
  unfoldable pub parse_format_pod : List ℕ → Option (Option (ℕ × ℕ))
  unfolding pod_type read_u32
  parse_format_pod pod = elim (pod_type layout pod) [
    | none ↦ none
    | some type ↦
        if not (type == layout.type_object)
        then some none
        else elim (read_u32 pod layout.object_type_at) [
          | none ↦ none
          | some object_type ↦
              if not (object_type == spa.object_format)
              then some none
              else some (spa.format_parse pod)
        ]
  ]

  -- pwg_param_parse_format
  unfoldable pub parse_format : Param → Option (Option (ℕ × ℕ))
  unfolding get_pod parse_format_pod
  parse_format self = elim (get_pod layout self) [
    | none ↦ none
    | some none ↦ some none
    | some (some pod) ↦ parse_format_pod pod
  ]

  -- pwg_param_get_format_media_type
  unfoldable pub get_format_media_type : Param → Option ℕ
  unfolding parse_format
  get_format_media_type self = elim (parse_format self) [
    | none ↦ none
    | some none ↦ some 0
    | some (some (media_type, media_subtype)) ↦ some media_type
  ]

  -- pwg_param_get_format_media_subtype
  unfoldable pub get_format_media_subtype : Param → Option ℕ
  unfolding parse_format
  get_format_media_subtype self = elim (parse_format self) [
    | none ↦ none
    | some none ↦ some 0
    | some (some (media_type, media_subtype)) ↦ some media_subtype
  ]

  -- pwg_param_dup_format_media_type_name
  unfoldable pub dup_format_media_type_name : Param → Option (Option String)
  unfolding parse_format
  dup_format_media_type_name self = elim (parse_format self) [
    | none ↦ none
    | some none ↦ some none
    | some (some (media_type, media_subtype)) ↦
        some (spa.find_short_name spa.type_media_type media_type)
  ]

  -- pwg_param_dup_format_media_subtype_name
  unfoldable pub dup_format_media_subtype_name : Param → Option (Option String)
  unfolding parse_format
  dup_format_media_subtype_name self = elim (parse_format self) [
    | none ↦ none
    | some none ↦ some none
    | some (some (media_type, media_subtype)) ↦
        some (spa.find_short_name spa.type_media_subtype media_subtype)
  ]

  unfoldable pub name_or_unknown : Option String → String
  name_or_unknown none = "unknown"
  name_or_unknown (some name) = name

  -- The end of pwg_param_dup_audio_format, with what the second parser gives.
  unfoldable pub described_format : Option RawInfo → Option AudioFormat
  unfolding audio_format_new audio_format_bytes_per_sample name_or_unknown
  described_format none = none
  described_format (some raw_info) =
      audio_format_new (some (name_or_unknown (spa.type_audio_format raw_info.format)))
        raw_info.rate raw_info.channels (audio_format_bytes_per_sample raw_info.format)

  -- pwg_param_dup_audio_format; `self.bytes` is the POD where the first parser succeeds
  unfoldable pub dup_audio_format : Param → Option (Option AudioFormat)
  unfolding parse_format described_format
  dup_audio_format self = elim (parse_format self) [
    | none ↦ none
    | some none ↦ some none
    | some (some (media_type, media_subtype)) ↦
        if not (media_type == spa.media_type_audio) || not (media_subtype == spa.media_subtype_raw)
        then some none
        else some (described_format (spa.format_audio_raw_parse self.bytes))
  ]
