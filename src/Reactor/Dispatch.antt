-- ===== src/Reactor/Dispatch.antt =====
-- src/reactor.c: which callbacks a round of the reactor calls.
use circ.Base.{
  ℕ, ◌≡◌, refl, ap, ◌∙◌, inl, inr, Bool-cases, true, false, ◌||◌, Option, none, some, List, [], ◌∷◌,
  All, arith, if◌then◌else◌,
}
use circ.Reactor.{
  Events, ReactorEventHandler, configure_read, reactor_configure_events, no_events, Watched, call,
  handle_event, reactor_handle_events,
}

-- What epoll may report for a handler that was registered: the events that were asked for, and
-- EPOLLERR, which epoll reports unasked.
pub record IsReport (asked : Events) (events : Events) : Type 0 where
  pub epollin : events.epollin ≡ true → asked.epollin ≡ true
  pub epollout : events.epollout ≡ true → asked.epollout ≡ true

module _ {S : Type 0} where
  -- A registered handler that has a callback for reading and none for writing, as all in the program.
  abbrev pub Reads : ReactorEventHandler S → Type 0
  Reads handler = (f : ℕ → S → S) × (handler.handle_read ≡ some f) × (handler.handle_write ≡ none)

  -- The callback for reading.
  abbrev read_with : ReactorEventHandler S → S → S
  read_with handler s = elim handler.handle_read [ none ↦ s | some f ↦ f handler.instance_of s ]

  -- One read after another, of the handlers that have something to be read or an error.
  abbrev pub reads_in_order : List (ReactorEventHandler S × Events) → S → S
  reads_in_order [] s = s
  reads_in_order ((handler, events) ∷ rest) s =
      reads_in_order rest (if events.epollin || events.epollerr then read_with handler s else s)

  abbrev then_rest : Watched S → Option S → Option S
  then_rest ready o = elim o [ none ↦ none | some t ↦ reactor_handle_events ready t ]

  event_read :
      (handler : ReactorEventHandler S) (events : Events) (s : S)
      → Reads handler
      → IsReport (reactor_configure_events no_events handler) events
      → handle_event handler events s
        ≡ some (if events.epollin || events.epollerr then read_with handler s else s)
  unfolding handle_event call reactor_configure_events configure_read
  event_read handler events s (f, r, w) report =
      let quiet : events.epollout ≡ false = elim (Bool-cases events.epollout) [
        | inl out ↦ absurd (ground (arith, report.epollout out, r, w))
        | inr none_out ↦ none_out
      ] in
      ground (arith, quiet, r)

  -- If each reported handler has a callback for reading and none for writing, and epoll reports
  -- of the events that `reactor_configure_events` asks for, and EPOLLERR, then
  -- `reactor_handle_events` calls nothing through NULL: it calls the callback of each handler that
  -- has something to be read or an error, with its instance, in the order of the report.
  pub reactor_handle_events-Reads :
      (ready : Watched S) (s : S)
      → All (λ e. Reads e.0 × IsReport (reactor_configure_events no_events e.0) e.1) ready
      → reactor_handle_events ready s ≡ some (reads_in_order ready s)
  unfolding reactor_handle_events
  reactor_handle_events-Reads [] s h = refl
  reactor_handle_events-Reads ((handler, events) ∷ ready) s ((reads, report), later) =
      ap (λ o. then_rest ready o) (event_read handler events s reads report)
      ∙ reactor_handle_events-Reads ready _ later

  -- A handler with both callbacks is registered for writing only.
  pub reactor_configure_events-write :
      (handler : ReactorEventHandler S) (f k : ℕ → S → S)
      → handler.handle_read ≡ some f
      → handler.handle_write ≡ some k
      → (reactor_configure_events no_events handler).epollin ≡ false
  unfolding reactor_configure_events
  reactor_configure_events-write handler f k r w = ground (arith, w)
