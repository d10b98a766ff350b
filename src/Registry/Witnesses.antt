-- ===== src/Registry/Witnesses.antt =====
-- The theorems on the registry at concrete globals and answers of PipeWire.
use pipewire_gobject.Prelude.Arrivals.{at_once, attached}
use pipewire_gobject.Prelude.{Bool, ℕ, ◌≡◌, refl, true, false, none, some, List, [], ◌∷◌, ◌++◌}
use pipewire_gobject.Prelude.Int.{pos}
use pipewire_gobject.Global.{Global}
use pipewire_gobject.Core.Connection.{Core, ConnectAnswers}
use pipewire_gobject.Core.Sync.{SyncAnswers, Wake, core_done}
use pipewire_gobject.Registry.State.{Registry, Change, added, removed, quiet}
use pipewire_gobject.Registry.Dispatch.{find_global, drain}
use pipewire_gobject.Registry.Control.{start, receive, sync_running}
use pipewire_gobject.Registry.Lookup.{lookup_global}
use pipewire_gobject.Registry.Distinct.{lookup_in, Distinct}
use pipewire_gobject.Registry.Refinement.{learn_events}
use pipewire_gobject.Registry.Session.{
  Starts, start-Starts, session_refines, learn_changes, events_of,
}
use pipewire_gobject.Registry.Searches.{sync_delivers}

abbrev speaker : Global
speaker = record {
  id = 31;
  permissions = 457;
  interface_type = some "PipeWire:Interface:Node";
  version = 3;
  properties = ("node.name", "speaker") ∷ ("media.class", "Audio/Sink") ∷ [];
}

abbrev louder_speaker : Global
louder_speaker = record speaker { version = 4 }

abbrev client : Global
client = record {
  id = 32;
  permissions = 457;
  interface_type = some "PipeWire:Interface:Client";
  version = 3;
  properties = [];
}

abbrev core : Core
core = record {
  thread_loop = true;
  context = true;
  core = true;
  pipewire_properties = [];
  connected = true;
  notified = true ∷ [];
}

abbrev answers : ConnectAnswers
answers = record {
  thread_loop_new = true;
  context_new = true;
  properties_new = true;
  properties_set = λ key value. pos 0;
  context_connect = λ table. true;
  thread_loop_start = pos 0;
}

-- A registry that was stopped before the main context ran its last event.
abbrev stopped : Registry
stopped = record {
  core = some core;
  running = false;
  globals = [];
  registry = false;
  has_registry_listener = false;
  generation = 2;
  queue = record { generation = 1; change = added client } ∷ [];
  emitted = [];
}

abbrev live : Registry
live = record stopped {
  running = true;
  registry = true;
  has_registry_listener = true;
  globals = speaker ∷ [];
}

single : Distinct (speaker ∷ [])
unfolding find_global
single = (refl, tt)

abbrev changes : List Change
changes = added speaker ∷ added client ∷ added louder_speaker ∷ removed 32 ∷ []

start-Starts_example : Starts stopped (start quiet answers false stopped)
start-Starts_example = start-Starts answers false stopped refl

session_refines_example :
    ((id : ℕ)
      → lookup_global (drain quiet (receive quiet (start quiet answers true stopped).1 changes)) id
        ≡ learn_changes (λ i. none) changes id)
    × Distinct (drain quiet (receive quiet (start quiet answers true stopped).1 changes)).globals
unfolding start
session_refines_example = session_refines answers true stopped changes refl refl refl (refl, tt)

abbrev sync_answers : SyncAnswers
sync_answers = record {
  in_thread = false;
  get_time = pos 0;
  add_listener = pos 0;
  core_sync = pos 5;
}

abbrev wakes : List Wake
wakes = record { events = core_done 0 (pos 5) ∷ []; wait_result = pos 0 } ∷ []

-- One change is dispatched at once, ahead of an event that was attached before.
abbrev arrivals : List (Bool × Change)
arrivals = (false, added speaker) ∷ (true, removed 31) ∷ (false, added louder_speaker) ∷ []

abbrev waiting : Registry
waiting = record live { queue = record { generation = 2; change = added client } ∷ [] }

sync_delivers_example :
    ((id : ℕ)
      → lookup_global
          (sync_running quiet answers sync_answers 0 wakes arrivals waiting (some core)).1
          id
        ≡ learn_events 2
            (learn_changes (lookup_in (speaker ∷ [])) (at_once arrivals))
            (waiting.queue ++ events_of 2 (attached arrivals))
            id)
    × Distinct
        (sync_running quiet answers sync_answers 0 wakes arrivals waiting (some core)).1.globals
unfolding sync_running
sync_delivers_example =
    sync_delivers answers sync_answers 0 wakes arrivals waiting core refl single refl
