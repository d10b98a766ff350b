-- ===== src/Core/Sharing.antt =====
-- No wrapper runs on a core that is not connected, of src/pwg-core.c and what shares one.
use pipewire_gobject.Prelude.{
  ℕ, zero, suc, ◌≡◌, refl, sym, ap, ◌∙◌, true, false, not, List, [], ◌∷◌, All, arith, ltb, length,
  if-both, if-cases, Bool-cases, inl, inr, subst,
}
use pipewire_gobject.Prelude.Int.{is_negative}
use pipewire_gobject.Error.{Outcome, ok}
use pipewire_gobject.Core.Connection.{
  Core, ConnectAnswers, connect, connect_context, copies, disconnect, notify_connected,
}
use pipewire_gobject.Core.Connecting.{connect_connected}
use pipewire_gobject.Core.Clients.{
  Client, Leads, core_or, Shared, Event, use_member, connecting, disconnecting, use_at, notify_all,
  notify_change, step_shared, run_shared,
}

disconnect-connected : (self : Core) → (disconnect self).connected ≡ false
unfolding disconnect notify_connected
disconnect-connected self = ground arith

connect_context-ok :
    (answers : ConnectAnswers) (self : Core)
    → (connect_context answers self).0 ≡ ok tt
    → (connect_context answers self).1.connected ≡ true
unfolding connect_context notify_connected
connect_context-ok answers self =
    let P : Outcome (Unit {0}) × Core → Type 0 = λ r. r.0 ≡ ok tt → r.1.connected ≡ true in
    if-both P (not (answers.context_connect self.pipewire_properties))
      (λ e. absurd (ground (arith, e)))
      (if-both P (is_negative answers.thread_loop_start) (λ e. absurd (ground (arith, e)))
        (λ e. refl))

connect-ok :
    (answers : ConnectAnswers) (self : Core)
    → (connect answers self).0 ≡ ok tt
    → (connect answers self).1.connected ≡ true
unfolding connect
connect-ok answers self =
    let P : Outcome (Unit {0}) × Core → Type 0 = λ r. r.0 ≡ ok tt → r.1.connected ≡ true in
    let ready = record self { thread_loop = true; context = true } in
    if-cases P self.connected (λ on e. on)
      (λ off.
        if-both P (not answers.thread_loop_new) (λ e. absurd (ground (arith, e)))
          (if-both P (not answers.context_new) (λ e. absurd (ground (arith, e)))
            (if-both P (ltb 0 (length self.pipewire_properties))
              (if-both P (not answers.properties_new) (λ e. absurd (ground (arith, e)))
                (if-both P (not (copies answers self.pipewire_properties))
                  (λ e. absurd (ground (arith, e))) (connect_context-ok answers ready)))
              (connect_context-ok answers ready))))

pub connect-Leads : (answers : ConnectAnswers) (self : Core) → Leads self (connect answers self)
connect-Leads answers self = (
  λ on. ap (λ r. r.1.connected) (connect_connected answers self on) ∙ on,
  connect-ok answers self,
)

module _ (C : Client) where
  -- A member runs only on a core that is connected.
  abbrev pub NeedsCore : Core → C.State → Type 0
  NeedsCore now self = C.running self ≡ true → now.connected ≡ true

  weaken :
      (old now : Core) (members : List C.State)
      → (old.connected ≡ true → now.connected ≡ true)
      → All (NeedsCore old) members
      → All (NeedsCore now) members
  weaken old now [] up all = tt
  weaken old now (self ∷ rest) up all = (λ on. up (all.0 on), weaken old now rest up all.1)

  notify_all-connected :
      (now : Core) (members : List C.State)
      → now.connected ≡ true
      → All (NeedsCore now) (notify_all C now members)
  unfolding notify_all
  notify_all-connected now [] on = tt
  notify_all-connected now (self ∷ rest) on = (λ _. on, notify_all-connected now rest on)

  notify_all-stopped :
      (now : Core) (members : List C.State)
      → now.connected ≡ false
      → All (NeedsCore now) (notify_all C now members)
  unfolding notify_all
  notify_all-stopped now [] off = tt
  notify_all-stopped now (self ∷ rest) off = (
    λ on. absurd (ground (arith, sym on ∙ C.notify_stops self now off)),
    notify_all-stopped now rest off,
  )

  notify_all-NeedsCore :
      (now : Core) (members : List C.State) → All (NeedsCore now) (notify_all C now members)
  notify_all-NeedsCore now members = elim (Bool-cases now.connected) [
    | inl on ↦ notify_all-connected now members on
    | inr off ↦ notify_all-stopped now members off
  ]

  -- After a change of the core: what needed the old core, or needs the new one, needs the new one.
  notify_change-NeedsCore :
      (old now : Core) (members : List C.State)
      → (old.connected ≡ false → All (NeedsCore now) members)
      → (now.connected ≡ true → All (NeedsCore now) members)
      → All (NeedsCore now) (notify_change C old now members)
  unfolding notify_change
  notify_change-NeedsCore old now members off on =
      let P = All (NeedsCore now) in
      if-cases P old.connected
        (λ _. if-cases P now.connected on (λ _. notify_all-NeedsCore now members))
        (λ e. if-both P now.connected (notify_all-NeedsCore now members) (off e))

  use_first :
      (core : Core) (operation : C.Operation) (self : C.State) (rest : List C.State)
      → let next = C.step (C.set_core core self) operation in
        use_at C core operation zero (self ∷ rest) ≡ (core_or C core (C.core next), next ∷ rest)
  unfolding use_at
  use_first core operation self rest = refl

  use_at-NeedsCore :
      (core : Core) (operation : C.Operation) (n : ℕ) (members : List C.State)
      → All (NeedsCore core) members
      → let used = use_at C core operation n members in
        (core.connected ≡ true → used.0.connected ≡ true) × All (NeedsCore used.0) used.1
  unfolding use_at
  use_at-NeedsCore core operation n [] all = (λ on. on, tt)
  use_at-NeedsCore core operation zero (self ∷ rest) all =
      let shared = C.set_core core self in
      let (now, e, up, runs) =
        C.core-step shared operation core (C.core-set_core core self)
          (λ on. all.0 (sym (C.running-set_core core self) ∙ on)) in
      let next = C.step shared operation in
      let P : Core × List C.State → Type 0 =
        λ r. (core.connected ≡ true → r.0.connected ≡ true) × All (NeedsCore r.0) r.1 in
      subst P (sym (use_first core operation self rest)) (
        subst (λ o. P (core_or C core o, next ∷ rest)) (sym e)
          (up, (runs, weaken core now rest up all.1)))
  use_at-NeedsCore core operation (suc n) (self ∷ rest) all =
      let (up, used) = use_at-NeedsCore core operation n rest all.1 in
      (up, (λ on. up (all.0 on), used))

  -- Every member that runs has a connected core.
  abbrev pub NeedCore : Shared C → Type 0
  NeedCore self = All (NeedsCore self.core) self.members

  step_shared-NeedCore :
      (self : Shared C) (event : Event C) → NeedCore self → NeedCore (step_shared C self event)
  unfolding step_shared
  step_shared-NeedCore self (use_member n operation) all =
      let used = use_at C self.core operation n self.members in
      let (up, need) = use_at-NeedsCore self.core operation n self.members all in
      notify_change-NeedsCore self.core used.0 used.1 (λ _. need) (λ _. need)
  step_shared-NeedCore self (connecting answers) all =
      let now = (connect answers self.core).1 in
      let need = weaken self.core now self.members (connect-Leads answers self.core).0 all in
      notify_change-NeedsCore self.core now self.members (λ _. need) (λ _. need)
  step_shared-NeedCore self disconnecting all =
      let now = disconnect self.core in
      notify_change-NeedsCore self.core now self.members
        (λ off. weaken self.core now self.members (λ on. absurd (ground (arith, sym on ∙ off))) all)
        (λ on. absurd (ground (arith, sym on ∙ disconnect-connected self.core)))

  -- For every kind of wrapper that keeps the laws of a client of a core: where each wrapper that
  -- runs has a connected core, this stays so through every history of connects and disconnects of
  -- the core and operations of any of the wrappers, which all share it. So a disconnect, whoever
  -- asked for it, leaves no wrapper running.
  pub history-NeedCore :
      (self : Shared C) (history : List (Event C))
      → NeedCore self
      → NeedCore (run_shared C self history)
  unfolding run_shared
  history-NeedCore self [] all = all
  history-NeedCore self (event ∷ rest) all =
      history-NeedCore (step_shared C self event) rest (step_shared-NeedCore self event all)
