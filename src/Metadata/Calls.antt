-- ===== src/Metadata/Calls.antt =====
-- The starts, stops and clears of a metadata object, and the loss of its core, keep it steady.
use pipewire_gobject.Prelude.{
  ◌+◌, ◌≡◌, refl, sym, Bool, false, not, ◌&&◌, ◌||◌, Option, none, some, if◌then◌else◌, arith,
  if-both, if-cases,
}
use pipewire_gobject.Prelude.Int.{ℤ, is_negative}
use pipewire_gobject.Prelude.Word.{u32}
use pipewire_gobject.Properties.{is_empty}
use pipewire_gobject.Error.{Outcome, ok, err}
use pipewire_gobject.Core.Connection.{Core, ConnectAnswers, connect, disconnect}
use pipewire_gobject.Metadata.State.{Metadata, quiet, emit}
use pipewire_gobject.Metadata.Operations.{has_thread_loop, set_unbound, destroy_bound_proxy}
use pipewire_gobject.Metadata.Control.{
  reset, on_core_connected_notify, end_session, stop, listen, start_connected, start_core, start,
  clear,
}
use pipewire_gobject.Metadata.Steady.{IsSteady, core-IsSteady, ended-IsSteady}

unbound_lem :
    (self : Metadata)
    → let now = set_unbound quiet self in
      (now.bound ≡ false)
      × (now.metadata ≡ self.metadata)
      × (now.has_metadata_listener ≡ self.has_metadata_listener)
      × (now.registry ≡ self.registry)
      × (now.has_registry_listener ≡ self.has_registry_listener)
unfolding set_unbound emit
unbound_lem self = ground arith

reset-IsSteady : (self : Metadata) → IsSteady (reset quiet self)
unfolding reset
reset-IsSteady self =
    let forgotten : Metadata = record self {
      registry = false;
      metadata = false;
      metadata_id = 0;
      has_registry_listener = false;
      has_metadata_listener = false;
      generation = u32 (self.generation + 1);
    } in
    let (b, m, ml, r, rl) = unbound_lem forgotten in
    ended-IsSteady (set_unbound quiet forgotten) m ml r rl b

destroyed_lem :
    (self : Metadata)
    → let now = destroy_bound_proxy quiet self in
      (now.bound ≡ false) × (now.metadata ≡ false) × (now.has_metadata_listener ≡ false)
unfolding destroy_bound_proxy
destroyed_lem self =
    let (b, m, ml, r, rl) =
      unbound_lem
        (record self { metadata = false; has_metadata_listener = false; metadata_id = 0 }) in
    (b, m, ml)

end_session-IsSteady : (self : Metadata) → IsSteady (end_session quiet self)
unfolding end_session
end_session-IsSteady self =
    let now = destroy_bound_proxy quiet self in
    let (b, m, ml) = destroyed_lem self in
    ended-IsSteady
      (record now {
        registry = false;
        has_registry_listener = false;
        generation = u32 (now.generation + 1);
      })
      m ml refl refl b

pub stop-IsSteady : (self : Metadata) → IsSteady self → IsSteady (stop quiet self)
unfolding stop
stop-IsSteady self w =
    if-both IsSteady (not self.running && not self.registry && not self.metadata) w
      (end_session-IsSteady self)

abbrev lost : Metadata → Core → Metadata
lost self core = record self { core = some (disconnect core) }

-- pwg_core_disconnect on the core of the object: a core that was connected notifies.
unfoldable pub lose_core : Metadata → Core → Metadata
unfolding on_core_connected_notify disconnect
lose_core self core =
    if core.connected
    then on_core_connected_notify quiet (lost self core) (disconnect core)
    else lost self core

pub lose_core-IsSteady :
    (self : Metadata) (core : Core) → IsSteady self → IsSteady (lose_core self core)
unfolding lose_core on_core_connected_notify
lose_core-IsSteady self core w =
    if-both IsSteady core.connected
      (if-both IsSteady (disconnect core).connected (core-IsSteady self (some (disconnect core)) w)
        (reset-IsSteady (lost self core)))
      (core-IsSteady self (some (disconnect core)) w)

listen-IsSteady :
    (registry_new : Bool) (self : Metadata)
    → self.running ≡ false
    → IsSteady self
    → IsSteady (listen quiet registry_new self).1
unfolding listen emit
listen-IsSteady registry_new self off w =
    if-both (λ (r : Outcome (Unit {0}) × Metadata). IsSteady r.1) (not registry_new)
      (record {
        proxy = w.proxy;
        proxy_listener = w.proxy_listener;
        registry = sym off;
        registry_listener = w.registry_listener;
        unbound = w.unbound;
        no_entries = w.no_entries;
        keyed = w.keyed;
      })
      (record {
        proxy = w.proxy;
        proxy_listener = w.proxy_listener;
        registry = refl;
        registry_listener = refl;
        unbound = λ h. absurd (ground (arith, h));
        no_entries = λ h. absurd (ground (arith, h));
        keyed = w.keyed;
      })

start_connected-IsSteady :
    (registry_new : Bool) (self : Metadata) (connected : Outcome (Unit {0})) (core : Core)
    → self.running ≡ false
    → IsSteady self
    → IsSteady (start_connected quiet registry_new self connected core).1
unfolding start_connected
start_connected-IsSteady registry_new self (err e) core off w = core-IsSteady self (some core) w
start_connected-IsSteady registry_new self (ok u) core off w =
    if-both (λ (r : Outcome (Unit {0}) × Metadata). IsSteady r.1)
      (not core.thread_loop || not core.core) (core-IsSteady self (some core) w)
      (listen-IsSteady registry_new (record self { core = some core }) off
        (core-IsSteady self (some core) w))

start_core-IsSteady :
    (answers : ConnectAnswers) (registry_new : Bool) (self : Metadata) (core : Option Core)
    → self.running ≡ false
    → IsSteady self
    → IsSteady (start_core quiet answers registry_new self core).1
unfolding start_core
start_core-IsSteady answers registry_new self none off w = w
start_core-IsSteady answers registry_new self (some core) off w =
    if-both (λ (r : Outcome (Unit {0}) × Metadata). IsSteady r.1) (is_empty self.name) w
      (start_connected-IsSteady registry_new self (connect answers core).0 (connect answers core).1
        off w)

pub start-IsSteady :
    (answers : ConnectAnswers) (registry_new : Bool) (self : Metadata)
    → IsSteady self
    → IsSteady (start quiet answers registry_new self).1
unfolding start
start-IsSteady answers registry_new self w =
    if-cases (λ (r : Outcome (Unit {0}) × Metadata). IsSteady r.1) self.running (λ _. w)
      (λ off. start_core-IsSteady answers registry_new self self.core off w)

pub clear-IsSteady : (self : Metadata) (result : ℤ) → IsSteady self → IsSteady (clear self result).1
unfolding clear
clear-IsSteady self result w =
    let P : Outcome (Unit {0}) × Metadata → Type 0 = λ r. IsSteady r.1 in
    if-both P (not self.metadata) w (
      if-both P (not (has_thread_loop self.core)) w (
        if-both P (is_negative result) w (record {
          proxy = w.proxy;
          proxy_listener = w.proxy_listener;
          registry = w.registry;
          registry_listener = w.registry_listener;
          unbound = w.unbound;
          no_entries = λ h. refl;
          keyed = tt;
        })))
