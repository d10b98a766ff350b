-- ===== src/Core/Clients.antt =====
-- What shares a core, of src/pwg-core.c: wrappers that start sessions on it and hear when it is lost.
use pipewire_gobject.Prelude.{
  sym, ◌∙◌, Bool-cases, inl, inr, arith, ℕ, zero, suc, ◌≡◌, Bool, true, false, Option, none, some,
  List, [], ◌∷◌, if◌then◌else◌,
}
use pipewire_gobject.Error.{Outcome, ok}
use pipewire_gobject.Core.Connection.{Core, ConnectAnswers, connect, disconnect}

-- A wrapper has its core, which was not lost since `old`, and runs only if it is connected.
abbrev pub Linked : Core → Option Core → Bool → Type 0
Linked old core running =
    (now : Core) × (core ≡ some now)
    × (old.connected ≡ true → now.connected ≡ true)
    × (running ≡ true → now.connected ≡ true)

-- What leaves the core alone and begins no session keeps that.
pub same_core-Linked :
    (old : Core) (core core' : Option Core) (running running' : Bool)
    → core' ≡ core
    → (running ≡ false → running' ≡ false)
    → Linked old core running
    → Linked old core' running'
same_core-Linked old core core' running running' same off (now, e, up, runs) = (
  now,
  same ∙ e,
  up,
  λ on. elim (Bool-cases running) [
    | inl was ↦ runs was
    | inr idle ↦ absurd (ground (arith, sym on ∙ off idle))
  ],
)

-- A kind of wrapper: its operations, what it keeps of the core, and what it does when the core
-- notifies `connected`. The laws say what its operations do to the core and ask of it.
pub record Client : Type 1 where
  pub State : Type 0
  pub Operation : Type 0
  pub core : State → Option Core
  pub set_core : Core → State → State
  pub running : State → Bool
  pub step : State → Operation → State
  pub on_core_connected_notify : State → Core → State
  pub core-set_core : (now : Core) (self : State) → core (set_core now self) ≡ some now
  pub running-set_core : (now : Core) (self : State) → running (set_core now self) ≡ running self
  pub core-step :
      (self : State) (operation : Operation) (old : Core)
      → core self ≡ some old
      → (running self ≡ true → old.connected ≡ true)
      → Linked old (core (step self operation)) (running (step self operation))
  pub notify_stops :
      (self : State) (now : Core)
      → now.connected ≡ false
      → running (on_core_connected_notify self now) ≡ false

-- A connection attempt never loses a connection, and has one if it succeeds.
abbrev pub Leads : Core → Outcome (Unit {0}) × Core → Type 0
Leads self r = (self.connected ≡ true → r.1.connected ≡ true) × (r.0 ≡ ok tt → r.1.connected ≡ true)

module _ (C : Client) where
  -- The core and the wrappers of one kind that stand on it.
  pub record Shared : Type 0 where
    pub core : Core
    pub members : List C.State

  pub data Event : Type 0 where
    use_member : ℕ → C.Operation → Event
    connecting : ConnectAnswers → Event
    disconnecting : Event

  abbrev pub core_or : Core → Option Core → Core
  core_or core none = core
  core_or core (some now) = now

  -- An operation of the member at an index: it works on the core that all share.
  unfoldable pub use_at : Core → C.Operation → ℕ → List C.State → Core × List C.State
  use_at core operation n [] = (core, [])
  use_at core operation zero (self ∷ rest) =
      let now = C.step (C.set_core core self) operation in (core_or core (C.core now), now ∷ rest)
  use_at core operation (suc n) (self ∷ rest) =
      let used = use_at core operation n rest in (used.0, self ∷ used.1)

  unfoldable pub notify_all : Core → List C.State → List C.State
  notify_all now [] = []
  notify_all now (self ∷ rest) = C.on_core_connected_notify self now ∷ notify_all now rest

  -- The notification of `connected`, where it has changed.
  unfoldable pub notify_change : Core → Core → List C.State → List C.State
  unfolding notify_all
  notify_change old now members =
      if old.connected
      then if now.connected then members else notify_all now members
      else if now.connected
      then notify_all now members
      else members

  unfoldable pub step_shared : Shared → Event → Shared
  unfolding use_at notify_change connect disconnect
  step_shared self (use_member n operation) =
      let used = use_at self.core operation n self.members in
      record { core = used.0; members = notify_change self.core used.0 used.1 }
  step_shared self (connecting answers) =
      let now = (connect answers self.core).1 in
      record { core = now; members = notify_change self.core now self.members }
  step_shared self disconnecting =
      let now = disconnect self.core in
      record { core = now; members = notify_change self.core now self.members }

  unfoldable pub run_shared : Shared → List Event → Shared
  unfolding step_shared
  run_shared self [] = self
  run_shared self (event ∷ rest) = run_shared (step_shared self event) rest
