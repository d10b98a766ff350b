-- ===== src/Core/Lifecycle.antt =====
-- Histories of a core, of src/pwg-core.c: connected says what is there, and its notifications
-- alternate.
use pipewire_gobject.Prelude.{
  ◌≡◌, refl, String, Bool, true, false, not, inl, inr, Option, none, some, List, [], ◌∷◌, ◌++◌,
  arith, sym, ap, subst, ◌∙◌, Bool-cases, if-both, str_eq,
}
use pipewire_gobject.Error.{Outcome, ok, err}
use pipewire_gobject.Core.Connection.{
  Core, ConnectAnswers, core_new, connect, disconnect, notify_connected, set_property, load_module,
  load_connected,
}
use pipewire_gobject.Core.Connecting.{IsConsistent, connect-Connects, connect_connected}

pub data Operation : Type 0 where
  connecting : ConnectAnswers → Operation
  disconnecting : Operation
  setting : Option String → Option String → Operation
  loading : ConnectAnswers → (String → Option String → Bool) → String → Option String → Operation

unfoldable pub run : Core → List Operation → Core
unfolding connect disconnect set_property load_module
run self [] = self
run self (connecting answers ∷ rest) = run (connect answers self).1 rest
run self (disconnecting ∷ rest) = run (disconnect self) rest
run self (setting key value ∷ rest) = run (set_property self key value).1 rest
run self (loading answers loads name arguments ∷ rest) =
    run (load_module answers loads self name arguments).1 rest

-- The notifications change from one value to the other each time, and end at `last`.
abbrev pub Alternates : Bool → List Bool → Bool → Type 0
Alternates now [] last = now ≡ last
Alternates now (value ∷ rest) last = (value ≡ not now) × Alternates value rest last

Alternates-append :
    (now : Bool) (values : List Bool) (last : Bool) (value : Bool)
    → value ≡ not last
    → Alternates now values last
    → Alternates now (values ++ value ∷ []) value
Alternates-append now [] last value v a = (v ∙ ap not (sym a), refl)
Alternates-append now (x ∷ values) last value v a =
    (a.0, Alternates-append x values last value v a.1)

pub record IsSound (self : Core) : Type 0 where
  pub consistent : IsConsistent self
  pub alternates : Alternates false self.notified self.connected

connect-IsSound :
    (answers : ConnectAnswers) (self : Core) → IsSound self → IsSound (connect answers self).1
connect-IsSound answers self s = elim (Bool-cases self.connected) [
  | inl e ↦ subst (λ r. IsSound r.1) (sym (connect_connected answers self e)) s
  | inr e ↦ elim (connect-Connects answers self e s.consistent) [
    | inl (o, c, n, i) ↦ record {
      consistent = i;
      alternates =
          subst (λ b. Alternates false (connect answers self).1.notified b) (sym c)
            (subst (λ l. Alternates false l true) (sym n)
              (Alternates-append false self.notified false true refl
                (subst (λ b. Alternates false self.notified b) e s.alternates)));
    }
    | inr (code, o, same) ↦ subst IsSound (sym same) s
  ]
]

disconnect-IsSound : (self : Core) → IsSound self → IsSound (disconnect self)
unfolding disconnect notify_connected
disconnect-IsSound self s = elim (Bool-cases self.connected) [
  | inr e ↦ ground (arith, e, s.alternates)
  | inl e ↦ rw e (record {
    consistent = record { thread_loop_there = refl; context_there = refl; core_there = refl };
    alternates =
        Alternates-append false self.notified true false refl
          (subst (λ b. Alternates false self.notified b) e s.alternates);
  })
]

table_free :
    (self : Core) (table : List (String × String))
    → IsSound self
    → IsSound (record self { pipewire_properties = table })
table_free self table s = record {
  consistent = record {
    thread_loop_there = s.consistent.thread_loop_there;
    context_there = s.consistent.context_there;
    core_there = s.consistent.core_there;
  };
  alternates = s.alternates;
}

set_property-IsSound :
    (self : Core) (key value : Option String)
    → IsSound self
    → IsSound (set_property self key value).1
unfolding set_property
set_property-IsSound self none value s = s
set_property-IsSound self (some key) none s =
    if-both (λ (r : Outcome (Unit {0}) × Core). IsSound r.1) (str_eq key "") s
      (if-both (λ (r : Outcome (Unit {0}) × Core). IsSound r.1) self.connected s
        (table_free self _ s))
set_property-IsSound self (some key) (some value) s =
    if-both (λ (r : Outcome (Unit {0}) × Core). IsSound r.1) (str_eq key "") s
      (if-both (λ (r : Outcome (Unit {0}) × Core). IsSound r.1) self.connected s
        (table_free self _ s))

load_connected-same :
    (loads : String → Option String → Bool) (name : String) (arguments : Option String)
    (connected : Outcome (Unit {0})) (self : Core)
    → (load_connected loads name arguments connected self).1 ≡ self
unfolding load_connected
load_connected-same loads name arguments (err e) self = refl
load_connected-same loads name arguments (ok u) self = ground arith

load_module-IsSound :
    (answers : ConnectAnswers) (loads : String → Option String → Bool) (self : Core) (name : String)
    (arguments : Option String)
    → IsSound self
    → IsSound (load_module answers loads self name arguments).1
unfolding load_module
load_module-IsSound answers loads self name arguments s =
    if-both (λ (r : Outcome (String × Option String) × Core). IsSound r.1) (str_eq name "") s
      (subst IsSound
        (sym (
          load_connected-same loads name arguments (connect answers self).0
            (connect answers self).1))
        (connect-IsSound answers self s))

run-IsSound : (self : Core) (history : List Operation) → IsSound self → IsSound (run self history)
unfolding run
run-IsSound self [] s = s
run-IsSound self (connecting answers ∷ rest) s =
    run-IsSound (connect answers self).1 rest (connect-IsSound answers self s)
run-IsSound self (disconnecting ∷ rest) s =
    run-IsSound (disconnect self) rest (disconnect-IsSound self s)
run-IsSound self (setting key value ∷ rest) s =
    run-IsSound (set_property self key value).1 rest (set_property-IsSound self key value s)
run-IsSound self (loading answers loads name arguments ∷ rest) s =
    run-IsSound (load_module answers loads self name arguments).1 rest
      (load_module-IsSound answers loads self name arguments s)

-- Through every history of a new core, whatever PipeWire answers: the thread loop, the context and
-- the connection are all there or none is, as `connected` says, and the notifications of it
-- alternate, the first says true, and the last says what holds.
pub history-IsSound : (history : List Operation) → IsSound (run core_new history)
unfolding core_new
history-IsSound history = run-IsSound core_new history (record {
  consistent = record { thread_loop_there = refl; context_there = refl; core_there = refl };
  alternates = refl;
})
