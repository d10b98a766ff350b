-- ===== src/Core/Connecting.antt =====
-- An attempt to connect a core, and the end of a connection.
use pipewire_gobject.Prelude.{
  ◌≡◌, refl, Bool, true, false, not, ◌⊎◌, inl, inr, [], ◌∷◌, ◌++◌, arith, if-both, if-cases, length,
  ltb,
}
use pipewire_gobject.Prelude.Int.{is_negative}
use pipewire_gobject.Error.{Outcome, ok, err, PwgError, pipewire, no_memory}
use pipewire_gobject.Core.Connection.{
  Core, ConnectAnswers, connect, connect_context, disconnect, copies, notify_connected,
}

-- The PipeWire objects are all there in a connected core, and none in another; the notifications
-- tell of each change.
pub record IsConsistent (self : Core) : Type 0 where
  pub thread_loop_there : self.thread_loop ≡ self.connected
  pub context_there : self.context ≡ self.connected
  pub core_there : self.core ≡ self.connected

abbrev pub Connects : Core → Outcome (Unit {0}) × Core → Type 0
Connects self r =
    ((r.0 ≡ ok tt)
      × (r.1.connected ≡ true)
      × (r.1.notified ≡ self.notified ++ true ∷ [])
      × IsConsistent r.1)
    ⊎ ((e : PwgError) × (r.0 ≡ err e) × (r.1 ≡ self))

-- A failed attempt is undone in full, whatever it had created.
disconnect-undoes :
    (self : Core) (a b c : Bool)
    → self.connected ≡ false
    → IsConsistent self
    → disconnect (record self { thread_loop = a; context = b; core = c }) ≡ self
unfolding disconnect
disconnect-undoes self a b c h i =
    ground (arith, h, i.thread_loop_there, i.context_there, i.core_there)

undone :
    (self : Core) (a b c : Bool) (e : PwgError)
    → self.connected ≡ false
    → IsConsistent self
    → Connects self (err e, disconnect (record self { thread_loop = a; context = b; core = c }))
undone self a b c e h i = inr (e, refl, disconnect-undoes self a b c h i)

connect_context-Connects :
    (answers : ConnectAnswers) (self : Core)
    → self.connected ≡ false
    → IsConsistent self
    → Connects self (connect_context answers (record self { thread_loop = true; context = true }))
unfolding connect_context notify_connected
connect_context-Connects answers self h i =
    if-both (Connects self) (not (answers.context_connect self.pipewire_properties))
      (undone self true true false pipewire h i)
      (if-both (Connects self) (is_negative answers.thread_loop_start)
        (undone self true true true pipewire h i)
        (inl (
          refl,
          refl,
          refl,
          record { thread_loop_there = refl; context_there = refl; core_there = refl },
        )))

thread_loop_same :
    (self : Core)
    → self.connected ≡ false
    → IsConsistent self
    → record self { thread_loop = false } ≡ self
thread_loop_same self h i = ground (arith, h, i.thread_loop_there)

-- A connection attempt of a core that is not connected either succeeds, with all PipeWire objects
-- there and one notification, or it fails and leaves the core exactly as it was.
pub connect-Connects :
    (answers : ConnectAnswers) (self : Core)
    → self.connected ≡ false
    → IsConsistent self
    → Connects self (connect answers self)
unfolding connect
connect-Connects answers self h i =
    if-cases (Connects self) self.connected (λ e. absurd (ground (arith, e, h)))
      (λ _.
        if-both (Connects self) (not answers.thread_loop_new)
          (inr (pipewire, refl, thread_loop_same self h i))
          (if-both (Connects self) (not answers.context_new)
            (undone self true false self.core pipewire h i)
            (if-both (Connects self) (ltb 0 (length self.pipewire_properties))
              (if-both (Connects self) (not answers.properties_new)
                (undone self true true self.core no_memory h i)
                (if-both (Connects self) (not (copies answers self.pipewire_properties))
                  (undone self true true self.core no_memory h i)
                  (connect_context-Connects answers self h i)))
              (connect_context-Connects answers self h i))))

pub connect_connected :
    (answers : ConnectAnswers) (self : Core)
    → self.connected ≡ true
    → connect answers self ≡ (ok tt, self)
unfolding connect
connect_connected answers self h =
    if-cases (λ r. r ≡ (ok tt, self)) self.connected (λ _. refl)
      (λ e. absurd (ground (arith, e, h)))

-- Disconnecting leaves no PipeWire object.
pub disconnect-IsConsistent :
    (self : Core) → (disconnect self).connected ≡ false × IsConsistent (disconnect self)
unfolding disconnect notify_connected
disconnect-IsConsistent self = ground arith
