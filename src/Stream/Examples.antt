-- ===== src/Stream/Examples.antt =====
-- Concrete streams, and a concrete number type for samples.
use pipewire_gobject.Prelude.{
  ℕ, ◌+◌, ◌%◌, ◌≡◌, refl, Bool, true, false, if◌then◌else◌, ltb, ◌==◌, arith, List, [], ◌∷◌, none,
  some,
}
use pipewire_gobject.Prelude.Int.{ℤ, pos, negsuc}
use pipewire_gobject.Stream.State.{Stream}
use pipewire_gobject.Stream.Process.{Spa}
use pipewire_gobject.Stream.Control.{Keys, Answers}
use pipewire_gobject.Double.{Double, IsOrdered}

-- Whole numbers with a sign, and NaN: the samples of the examples. A byte 255 in front reads as
-- NaN, and 128 or more reads as a negative sample.
pub data Sample : Type 0 where
  nan : Sample
  number : ℤ → Sample

abbrev above : ℤ → ℤ → Bool
above (pos a) (pos b) = ltb b a
above (pos a) (negsuc b) = true
above (negsuc a) (pos b) = false
above (negsuc a) (negsuc b) = ltb a b

abbrev sample_gt : Sample → Sample → Bool
sample_gt (number a) (number b) = above a b
sample_gt _ _ = false

abbrev sample_fabs : Sample → Sample
sample_fabs nan = nan
sample_fabs (number (pos a)) = number (pos a)
sample_fabs (number (negsuc a)) = number (pos (a + 1))

abbrev sample_of_bytes : ℕ → ℕ → ℕ → ℕ → Sample
sample_of_bytes a b c d =
    if a == 255 then nan else if ltb a 128 then number (pos a) else number (negsuc (a % 128))

abbrev pub sample_double : Double Sample
sample_double = record {
  zero_val = number (pos 0);
  fabs = sample_fabs;
  gt = sample_gt;
  of_bytes = sample_of_bytes;
}

abbrev pub IsNumber : Sample → Type 0
IsNumber nan = ⊥
IsNumber (number a) = Unit

above_asym : (a b : ℤ) → above a b ≡ true → above b a ≡ false
above_asym (pos a) (pos b) h = ground arith
above_asym (pos a) (negsuc b) h = refl
above_asym (negsuc a) (pos b) h = ground arith
above_asym (negsuc a) (negsuc b) h = ground arith

above_trans : (a b c : ℤ) → above a b ≡ false → above b c ≡ false → above a c ≡ false
above_trans (pos a) (pos b) (pos c) h k = ground arith
above_trans (pos a) (pos b) (negsuc c) h k = ground arith
above_trans (pos a) (negsuc b) c h k = ground arith
above_trans (negsuc a) b (pos c) h k = refl
above_trans (negsuc a) (pos b) (negsuc c) h k = ground arith
above_trans (negsuc a) (negsuc b) (negsuc c) h k = ground arith

pub sample_ordered : IsOrdered sample_double IsNumber
sample_ordered = record { zero_number = tt; fabs_number = fabs_number; asym = asym; trans = trans }
  where
    fabs_number : (a : Sample) → IsNumber a → IsNumber (sample_fabs a)
    fabs_number nan h = h
    fabs_number (number (pos a)) h = tt
    fabs_number (number (negsuc a)) h = tt

    asym : (a b : Sample) → sample_gt a b ≡ true → sample_gt b a ≡ false
    asym nan b h = ground arith
    asym (number a) nan h = refl
    asym (number a) (number b) h = above_asym a b h

    trans :
        (a b c : Sample)
        → IsNumber b
        → sample_gt a b ≡ false
        → sample_gt b c ≡ false
        → sample_gt a c ≡ false
    trans nan b c n h k = refl
    trans (number a) b nan n h k = refl
    trans (number a) nan (number c) n h k = absurd n
    trans (number a) (number b) (number c) n h k = above_trans a b c h k

-- PipeWire's side.
abbrev pub spa : Spa ℕ
spa = record {
  param_format = 4;
  media_type_audio = 1;
  media_subtype_raw = 1;
  audio_format_f32 = 283;
  format_parse = λ pod old. (pos 0, 1, 1);
  format_audio_raw_parse = λ pod old. record { format = pod; rate = 48000; channels = 2 };
}

abbrev pub keys : Keys
keys = record {
  media_type = "media.type";
  media_category = "media.category";
  media_role = "media.role";
  media_name = "media.name";
  target_object = "target.object";
  stream_capture_sink = "stream.capture.sink";
}

abbrev pub accepting : Answers
accepting = record {
  thread_loop_new = true;
  context_new = true;
  context_connect = true;
  properties_new = true;
  stream_new = λ table. true;
  stream_connect = pos 0;
  thread_loop_start = pos 0;
}

abbrev pub refusing : Answers
refusing = record accepting { thread_loop_start = negsuc 21 }

abbrev pub fresh : Stream Sample
fresh = record {
  target_object = none;
  monitor = false;
  pipewire_properties = [];
  requested_sample_format = some "F32";
  requested_rate = 48000;
  requested_channels = 2;
  deliver_audio_blocks = false;
  running = false;
  graph_rate = 0;
  observed_graph_rate = 0;
  pending_graph_rate = 0;
  has_pending_graph_rate = false;
  graph_rate_revision = 0;
  rate = 0;
  channels = 0;
  peak = number (pos 0);
  audio_format = none;
  media_type = 0;
  media_subtype = 0;
  raw = record { format = 283; rate = 48000; channels = 2 };
  thread_loop = false;
  context = false;
  core = false;
  stream = false;
  dispatch_pending = false;
  has_pending_peak = false;
  pending_peak = number (pos 0);
  has_pending_format = false;
  pending_sample_format = none;
  pending_rate = 0;
  pending_channels = 0;
  pending_bytes_per_sample = 0;
  pending_blocks = [];
  next_sequence = 0;
  sources = 0;
  emitted = [];
}

abbrev pub delivering : Stream Sample
delivering = record fresh { running = true; deliver_audio_blocks = true }

-- Two buffers of stereo: one frame, and two frames.
abbrev pub one_frame : List ℕ
one_frame = 7 ∷ 0 ∷ 0 ∷ 0 ∷ 130 ∷ 0 ∷ 0 ∷ 0 ∷ []

abbrev pub two_frames : List ℕ
two_frames = 1 ∷ 0 ∷ 0 ∷ 0 ∷ 200 ∷ 0 ∷ 0 ∷ 0 ∷ 5 ∷ 0 ∷ 0 ∷ 0 ∷ 6 ∷ 0 ∷ 0 ∷ 0 ∷ []
