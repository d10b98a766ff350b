-- ===== src/Audio.antt =====
-- src/pwg-audio-format.c and src/pwg-audio-block.c: the descriptors that a stream hands out.
pub mod Bounds
mod Witnesses
use pipewire_gobject.Prelude.{
  ℕ, ◌*◌, ◌/◌, String, Bool, Option, none, some, List, ◌&&◌, not, ltb, ◌==◌, if◌then◌else◌,
}
use pipewire_gobject.Prelude.Word.{u32, max_uint}

-- struct _PwgAudioFormat
pub record AudioFormat : Type 0 where
  pub sample_format : String
  pub rate : ℕ  -- unsigned int
  pub channels : ℕ  -- unsigned int
  pub bytes_per_sample : ℕ  -- unsigned int

-- pwg_audio_format_new: a NULL name is refused
unfoldable pub audio_format_new : Option String → ℕ → ℕ → ℕ → Option AudioFormat
audio_format_new none rate channels bytes_per_sample = none
audio_format_new (some sample_format) rate channels bytes_per_sample = some (record {
  sample_format = sample_format;
  rate = rate;
  channels = channels;
  bytes_per_sample = bytes_per_sample;
})

-- pwg_audio_format_calculate_bytes_per_frame
pub calculate_bytes_per_frame : AudioFormat → ℕ
calculate_bytes_per_frame self =
    if not (self.channels == 0) && ltb (max_uint / self.channels) self.bytes_per_sample
    then 0
    else u32 (self.bytes_per_sample * self.channels)

-- struct _PwgAudioBlock; `bytes` is the field `data`
pub record AudioBlock (V : Type 0) : Type 0 where
  pub format : AudioFormat
  pub bytes : List ℕ
  pub n_frames : ℕ  -- unsigned int
  pub sequence : ℕ  -- uint64_t
  pub peak : V

-- pwg_audio_block_new: without a format there is no block
unfoldable pub audio_block_new :
    {V : Type 0} → Option AudioFormat → List ℕ → ℕ → ℕ → V → Option (AudioBlock V)
audio_block_new none bytes n_frames sequence peak = none
audio_block_new (some format) bytes n_frames sequence peak = some (record {
  format = format;
  bytes = bytes;
  n_frames = n_frames;
  sequence = sequence;
  peak = peak;
})
