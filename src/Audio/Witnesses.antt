-- ===== src/Audio/Witnesses.antt =====
-- The frame size at a format that overflows.
use pipewire_gobject.Prelude.{◌≡◌, ◌*◌, ltb, if◌then◌else◌}
use pipewire_gobject.Prelude.Word.{max_uint}
use pipewire_gobject.Audio.{AudioFormat, calculate_bytes_per_frame}
use pipewire_gobject.Audio.Bounds.{bytes_per_frame_exact}

abbrev huge : AudioFormat
huge = record { sample_format = "F32"; rate = 48000; channels = 2147483648; bytes_per_sample = 4 }

bytes_per_frame_exact_example :
    calculate_bytes_per_frame huge ≡ (if ltb max_uint (4 * 2147483648) then 0 else 4 * 2147483648)
bytes_per_frame_exact_example = bytes_per_frame_exact huge
