-- ===== src/Reactor.antt =====
-- src/reactor.c and include/reactor.h. What epoll does is an argument: whether a registration is
-- taken, and which events are ready. `S` is what the callbacks work on.
pub mod Dispatch
use circ.Base.{
  ℕ, Bool, true, false, ◌||◌, Option, none, some, List, [], ◌∷◌, ◌++◌, ◌==◌, map, length, take,
  if◌then◌else◌,
}
use circ.Base.Int.{ℤ, pos, negsuc}

-- The bits of `epoll_event.events` that are used.
pub record Events : Type 0 where
  pub epollin : Bool
  pub epollerr : Bool
  pub epollout : Bool

-- The callbacks take the instance; NULL is `none`.
pub record ReactorEventHandler (S : Type 0) : Type 0 where
  pub fd : ℕ
  pub instance_of : ℕ
  pub handle_read : Option (ℕ → S → S)
  pub handle_write : Option (ℕ → S → S)

-- The event list of epoll: a handler's copy for each descriptor.
abbrev pub Watched : Type 0 → Type 0
Watched S = List (ReactorEventHandler S × Events)

-- `memset(&event, 0, ...)`
abbrev pub no_events : Events
no_events = record { epollin = false; epollerr = false; epollout = false }

module _ {S : Type 0} where
  unfoldable pub configure_read : Events → ReactorEventHandler S → Events
  configure_read event handler = elim handler.handle_read [
    | none ↦ event
    | some f ↦ record { epollin = true; epollerr = true; epollout = false }
  ]

  -- The second assignment takes the place of the first.
  unfoldable pub reactor_configure_events : Events → ReactorEventHandler S → Events
  unfolding configure_read
  reactor_configure_events event handler = elim handler.handle_write [
    | none ↦ configure_read event handler
    | some f ↦ record { epollin = false; epollerr = false; epollout = true }
  ]

  unfoldable pub reactor_register_handler : Bool → ReactorEventHandler S → Watched S → ℤ × Watched S
  reactor_register_handler added handler watched =
      if added
      then (pos 0, (handler, reactor_configure_events no_events handler) ∷ watched)
      else (negsuc 0, watched)

  change : ReactorEventHandler S → Watched S → Watched S
  change handler [] = []
  change handler ((h, e) ∷ rest) =
      let same = change handler rest in
      if h.fd == handler.fd
      then (handler, reactor_configure_events no_events handler) ∷ rest
      else (h, e) ∷ same

  -- `modified` is whether epoll_ctl succeeds.
  unfoldable pub reactor_change_registration :
      Bool → ReactorEventHandler S → Watched S → ℤ × Watched S
  unfolding change
  reactor_change_registration modified handler watched =
      if modified then (pos 0, change handler watched) else (negsuc 0, watched)

  drop_fd : ℕ → Watched S → Watched S
  drop_fd fd [] = []
  drop_fd fd ((h, e) ∷ rest) =
      let same = drop_fd fd rest in if h.fd == fd then rest else (h, e) ∷ same

  -- `deleted` is whether epoll_ctl succeeds.
  unfoldable pub reactor_unregister_handler :
      Bool → ReactorEventHandler S → Watched S → ℤ × Watched S
  unfolding drop_fd
  reactor_unregister_handler deleted handler watched =
      if deleted then (pos 0, drop_fd handler.fd watched) else (negsuc 0, watched)

  -- A call through NULL is `none`.
  unfoldable pub call : Option (ℕ → S → S) → ℕ → S → Option S
  call none i s = none
  call (some f) i s = some (f i s)

  unfoldable pub handle_event : ReactorEventHandler S → Events → S → Option S
  unfolding call
  handle_event handler events s =
      let read : Option S =
        if events.epollin || events.epollerr
        then call handler.handle_read handler.instance_of s
        else some s in
      elim read [
        | none ↦ none
        | some t ↦
            if events.epollout then call handler.handle_write handler.instance_of t else some t
      ]

  -- The loop over the events that `epoll_wait` reports.
  unfoldable pub reactor_handle_events : Watched S → S → Option S
  unfolding handle_event
  reactor_handle_events [] s = some s
  reactor_handle_events ((handler, events) ∷ rest) s = elim (handle_event handler events s) [
    | none ↦ none
    | some t ↦ reactor_handle_events rest t
  ]
