-- ===== src/Audio/Bounds.antt =====
-- The frame size of an audio format.
use pipewire_gobject.Prelude.{◌*◌, ◌≡◌, ltb, if◌then◌else◌, arith}
use pipewire_gobject.Prelude.Word.{max_uint}
use pipewire_gobject.Audio.{AudioFormat, calculate_bytes_per_frame}

-- The frame size is the true product of sample size and channel count where that fits an
-- `unsigned int`, and 0 where it does not: it never wraps.
pub bytes_per_frame_exact :
    (self : AudioFormat)
    → calculate_bytes_per_frame self ≡ (
        if ltb max_uint (self.bytes_per_sample * self.channels)
        then 0
        else self.bytes_per_sample * self.channels)
unfolding calculate_bytes_per_frame
bytes_per_frame_exact self = grind arith
