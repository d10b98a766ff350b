-- ===== src/Device/Asking.antt =====
-- A start of a device, and a request for parameters, are those of a node.
use pipewire_gobject.Prelude.{
  ℕ, ◌≡◌, refl, sym, ap, ◌∙◌, true, false, not, ◌||◌, Option, none, some, ◌==◌, if◌then◌else◌,
  if-map,
}
use pipewire_gobject.Prelude.Int.{ℤ, pos, is_negative}
use pipewire_gobject.Prelude.Word.{max_uint}
use pipewire_gobject.Error.{Outcome, ok, err, failed}
use pipewire_gobject.Core.Connection.{Core, ConnectAnswers, connect}
use pipewire_gobject.Global.{Global, is_interface}
use pipewire_gobject.Node.State
use pipewire_gobject.Node.State.{Node, NodeReport}
use pipewire_gobject.Node.Operations
use pipewire_gobject.Node.Control
use pipewire_gobject.Node.Control.{StartAnswers}
use pipewire_gobject.Node.Enumeration
use pipewire_gobject.Node.Enumeration.{ParamAnswers}
use pipewire_gobject.Device.State.{Device, quiet, notify_running, notify_bound, interface_device}
use pipewire_gobject.Device.Operations.{destroy_pipewire_objects}
use pipewire_gobject.Device.Control.{
  bind_version, bind_device, start_connected, start_global, start,
}
use pipewire_gobject.Device.Enumeration.{check_bound, enum_checked, request_params, enum_params}
use pipewire_gobject.Device.Stopping.{emit-mirrors}
use pipewire_gobject.Device.Stopping.{as_node, as_global, as_option_global}

-- The outcome of a start, with the device as a node.
abbrev pub as_started : Outcome (Unit {0}) × Device → Outcome (Unit {0}) × Node
as_started r = (r.0, as_node r.1)

bind_device-mirrors :
    (answers : StartAnswers) (self : Device) (global : Global)
    → as_started (bind_device quiet answers self global)
      ≡ Control.bind_node State.quiet answers (as_node self) (as_global global)
unfolding bind_device Control.bind_node destroy_pipewire_objects Operations.destroy_pipewire_objects
    bind_version Control.bind_version
bind_device-mirrors answers self global = if-map as_started (not answers.registry_new) refl (
    if-map as_started (not (answers.bind global.id (bind_version global.version))) refl (
      if-map as_started (is_negative answers.add_listener) refl (
        ap (λ now. (ok tt, now))
          (emit-mirrors notify_bound _
            ∙ ap (State.emit State.quiet State.notify_bound) (emit-mirrors notify_running _)))))

start_connected-mirrors :
    (answers : StartAnswers) (self : Device) (global : Global) (connected : Outcome (Unit {0}))
    (core : Core)
    → as_started (start_connected quiet answers self global connected core)
      ≡ Control.start_connected State.quiet answers (as_node self) (as_global global) connected core
unfolding start_connected Control.start_connected
start_connected-mirrors answers self global (err e) core = refl
start_connected-mirrors answers self global (ok u) core =
    if-map as_started (not core.thread_loop || not core.core) refl
      (bind_device-mirrors answers (record self { core = some core }) global)

-- The global of a device has the interface of a device just when its image has that of a node.
is_interface-as_global :
    (global : Global)
    → is_interface (as_global global) State.interface_node ≡ is_interface global interface_device
unfolding is_interface
is_interface-as_global global =
    elim (is_interface global interface_device)
      as (λ b.
        is_interface
          (record global { interface_type = if b then some State.interface_node else none })
          State.interface_node
        ≡ b) [ true ↦ refl | false ↦ refl ]

start_global-mirrors :
    (connect_answers : ConnectAnswers) (answers : StartAnswers) (self : Device) (core : Option Core)
    (global : Option Global)
    → as_started (start_global quiet connect_answers answers self core global)
      ≡ Control.start_global State.quiet connect_answers answers
          (as_node self)
          core
          (as_option_global global)
unfolding start_global Control.start_global
start_global-mirrors connect_answers answers self none none = refl
start_global-mirrors connect_answers answers self none (some global) = refl
start_global-mirrors connect_answers answers self (some core) none = refl
start_global-mirrors connect_answers answers self (some core) (some global) =
    let bound =
      Control.start_connected State.quiet answers (as_node self) (as_global global)
        (connect connect_answers core).0 (connect connect_answers core).1 in
    if-map as_started (not (is_interface global interface_device)) refl (
      start_connected-mirrors answers self global (connect connect_answers core).0
        (connect connect_answers core).1)
    ∙ ap (λ b. if not b then (err failed, as_node self) else bound)
        (sym (is_interface-as_global global))

pub start-mirrors :
    (connect_answers : ConnectAnswers) (answers : StartAnswers) (self : Device)
    → as_started (start quiet connect_answers answers self)
      ≡ Control.start State.quiet connect_answers answers (as_node self)
unfolding start Control.start
start-mirrors connect_answers answers self =
    if-map as_started self.running refl
      (start_global-mirrors connect_answers answers self self.core self.global)

abbrev pub as_asked : Outcome ℤ × Device → Outcome ℤ × Node
as_asked r = (r.0, as_node r.1)

enum_checked-mirrors :
    (answers : ParamAnswers) (self : Device) (id first num : ℕ) (checked : Outcome (Unit {0}))
    → as_asked (enum_checked answers self id first num checked)
      ≡ Enumeration.enum_checked answers (as_node self) id first num checked
unfolding enum_checked Enumeration.enum_checked request_params Enumeration.request_params
enum_checked-mirrors answers self id first num (err e) = refl
enum_checked-mirrors answers self id first num (ok u) =
    if-map as_asked
      (is_negative
        (answers.enumerate (pos self.next_seq) id first (if num == 0 then max_uint else num)))
      refl refl

pub enum_params-mirrors :
    (answers : ParamAnswers) (self : Device) (id first num : ℕ)
    → as_asked (enum_params answers self id first num)
      ≡ Enumeration.enum_params answers (as_node self) id first num
unfolding enum_params Enumeration.enum_params check_bound Enumeration.check_bound
enum_params-mirrors answers self id first num =
    enum_checked-mirrors answers self id first num (check_bound self)
