-- ===== src/Wrappers/Witnesses.antt =====
-- The theorem on the wrappers that share a core at concrete wrappers.
use pipewire_gobject.Prelude.{refl, true, none, some, List, [], ◌∷◌, inl, inr}
use pipewire_gobject.Prelude.Int.{pos}
use pipewire_gobject.Core.Connection.{Core, ConnectAnswers}
use pipewire_gobject.Core.Clients.{Shared, Event, use_member, connecting, disconnecting, run_shared}
use pipewire_gobject.Core.Sharing.{NeedCore}
use pipewire_gobject.Global.{Global}
use pipewire_gobject.Registry.State.{registry_new}
use pipewire_gobject.Registry.OnCore.{start_registry}
use pipewire_gobject.Metadata.State.{metadata_new}
use pipewire_gobject.Metadata.History.{start_metadata}
use pipewire_gobject.Node.State.{Node}
use pipewire_gobject.Node.Control.{StartAnswers}
use pipewire_gobject.Node.History.{start_node, stop_node}
use pipewire_gobject.Wrappers.{wrapper_client, wrappers-NeedCore}

abbrev core : Core
core = record {
  thread_loop = true;
  context = true;
  core = true;
  pipewire_properties = [];
  connected = true;
  notified = true ∷ [];
}

abbrev speaker : Global
speaker = record {
  id = 31;
  permissions = 457;
  interface_type = some "PipeWire:Interface:Node";
  version = 3;
  properties = [];
}

-- A node that runs.
abbrev active : Node
active = record {
  core = some core;
  global = some speaker;
  running = true;
  bound = true;
  state = some "idle";
  error = none;
  param_infos = [];
  params = [];
  registry = true;
  node = true;
  node_id = 31;
  has_registry_listener = true;
  has_node_listener = true;
  generation = 4;
  next_seq = 7;
  queue = [];
  emitted = [];
}

abbrev connect_answers : ConnectAnswers
connect_answers = record {
  thread_loop_new = true;
  context_new = true;
  properties_new = true;
  properties_set = λ key value. pos 0;
  context_connect = λ table. true;
  thread_loop_start = pos 0;
}

abbrev start_answers : StartAnswers
start_answers = record { registry_new = true; bind = λ id version. true; add_listener = pos 0 }

abbrev together : Shared wrapper_client
together = record {
  core = core;
  members =
      inr (inl active)
      ∷ inl (registry_new core)
      ∷ inr (inr (inr (inr (metadata_new core "default"))))
      ∷ [];
}

-- The registry starts, the core is lost, the metadata object starts and connects it again, and the
-- node is started and stopped.
abbrev life : List (Event wrapper_client)
life =
    use_member 1 (inl (start_registry connect_answers true))
    ∷ disconnecting
    ∷ use_member 2 (inr (inr (inr (inr (start_metadata connect_answers true, tt)))))
    ∷ use_member 0 (inr (inl (start_node connect_answers start_answers, tt)))
    ∷ connecting connect_answers
    ∷ use_member 0 (inr (inl (stop_node, tt)))
    ∷ []

wrappers-NeedCore_example : NeedCore wrapper_client (run_shared wrapper_client together life)
wrappers-NeedCore_example =
    wrappers-NeedCore together life ((λ on. refl), ((λ on. refl), ((λ on. refl), tt)))
