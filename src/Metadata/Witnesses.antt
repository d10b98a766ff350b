-- ===== src/Metadata/Witnesses.antt =====
-- The theorems on metadata at concrete entries and events.
use pipewire_gobject.Prelude.{
  ℕ, ◌≡◌, ◌≢◌, refl, String, true, false, none, some, Option, List, [], ◌∷◌,
}
use pipewire_gobject.Prelude.Int.{pos}
use pipewire_gobject.Core.Connection.{Core, ConnectAnswers}
use pipewire_gobject.Metadata.Cache.{MetadataEntry, Entries, cache_key, lookup_entry}
use pipewire_gobject.Metadata.Keys.{cache_key_injective}
use pipewire_gobject.Metadata.Refinement.{Property, learn_all, cache_all, cache_all-refines}
use pipewire_gobject.Metadata.State.{metadata_new}
use pipewire_gobject.Metadata.Operations.{BindAnswers}
use pipewire_gobject.Metadata.Steady.{IsSteady}
use pipewire_gobject.Metadata.History.{
  Operation, start_metadata, stop_metadata, global, global_remove, property, run_main_context,
  clear_metadata, run, metadata_history-IsSteady,
}
use pipewire_gobject.Metadata.Names.{dup_default_node_name, dup_default_node_name-nonempty}

cache_key_injective_example : (◌≡◌ {A = ℕ} 12 12) × (◌≡◌ {A = String} "1:2" "1:2")
cache_key_injective_example = cache_key_injective 12 12 "1:2" "1:2" refl

abbrev sink : MetadataEntry
sink = record {
  subject = 0;
  key = "default.audio.sink";
  value_type = some "Spa:String:JSON";
  value = "{\"name\": \"speaker\"}";
}

abbrev entries : Entries
entries = (cache_key 0 "default.audio.sink", sink) ∷ []

abbrev events : List Property
events =
    record { subject = 12; key = some "volume"; value_type = none; value = some "0.5" }
    ∷ record { subject = 0; key = none; value_type = none; value = none }
    ∷ record { subject = 12; key = some "volume"; value_type = none; value = some "0.7" }
    ∷ []

cache_all-refines_example :
    lookup_entry (cache_all entries events) 12 "volume"
    ≡ learn_all (lookup_entry entries) events 12 "volume"
cache_all-refines_example = cache_all-refines entries events 12 "volume" (refl, tt)

abbrev core : Core
core = record {
  thread_loop = true;
  context = true;
  core = true;
  pipewire_properties = [];
  connected = true;
  notified = true ∷ [];
}

abbrev connect_answers : ConnectAnswers
connect_answers = record {
  thread_loop_new = true;
  context_new = true;
  properties_new = true;
  properties_set = λ key value. pos 0;
  context_connect = λ table. true;
  thread_loop_start = pos 0;
}

abbrev answers : BindAnswers
answers = record { bind = λ id version. true; add_listener = pos 0 }

abbrev life : List Operation
life =
    start_metadata connect_answers true
    ∷ global answers false 35 (some "PipeWire:Interface:Metadata") 3
        (some ((some "metadata.name", some "default") ∷ []))
    ∷ run_main_context answers
    ∷ property answers true 0 (some "default.audio.sink") none (some "speaker")
    ∷ global_remove answers false 35
    ∷ run_main_context answers
    ∷ clear_metadata (pos 0)
    ∷ stop_metadata
    ∷ []

metadata_history-IsSteady_example : IsSteady (run (metadata_new core "default") life)
metadata_history-IsSteady_example = metadata_history-IsSteady core "default" life

abbrev reader : String → Option (List (Option String))
reader text = some (some "name" ∷ some "" ∷ [])

dup_default_node_name-nonempty_example :
    dup_default_node_name reader entries "default.audio.sink" ≢ some ""
dup_default_node_name-nonempty_example =
    dup_default_node_name-nonempty reader entries "default.audio.sink"
