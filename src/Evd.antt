-- ===== src/Evd.antt =====
-- rpc/channel.h, channel.cpp and the table of rpc/event_dispatcher.cpp: channels, and the dispatcher that
-- registers them with its selector. A pointer to a channel is a number.
pub mod Table
pub mod Functors
mod Tests
use yamq.Prelude.{
  ℕ, ◌+◌, ◌-◌, ◌≡◌, Bool, true, false, not, Option, none, some, List, [], ◌∷◌, ◌++◌, ◌==◌,
  if◌then◌else◌, ◌>>=◌, Map, find, put_key, erase, has, or_if,
}
use yamq.Selector.{ev_none, ev_read, ev_write, ev_error, Event, Ret, ret_0, Selector}

pub record Channel : Type 0 where
  pub fd : ℕ
  pub events : ℕ
  pub attached : Bool

abbrev pub channel : ℕ → Channel
channel fd = record { fd = fd; events = ev_none; attached = false }

-- The virtual handlers.
pub data Handler : Type 0 where
  handle_read handle_write handle_error : Handler

abbrev pub on : Bool → Handler → List Handler
on true h = h ∷ []
on false h = []

-- The handlers that `HandleEvent` calls, in its order.
unfoldable pub handle_event : ℕ → List Handler
handle_event revents =
    if revents == ev_none
    then []
    else on (has revents ev_read) handle_read
      ++ (on (has revents ev_write) handle_write ++ on (has revents ev_error) handle_error)

-- `insert` keeps an entry that is there.
abbrev pub insert_channel : Map ℕ → ℕ → ℕ → Map ℕ
insert_channel channels fd ptr = elim (find fd channels) [
  | none ↦ put_key fd ptr channels
  | some old ↦ channels
]

-- `_events & ~EV_WRITE`.
abbrev pub without_write : ℕ → ℕ
without_write events = if has events ev_write then events - ev_write else events

module _ {S : Type 0} (sel : Selector S) where
  pub record Dispatcher : Type 0 where
    pub selector : S
    pub channels : Map ℕ

  -- The result of the selector is not looked at.
  pub register_channel : Dispatcher → ℕ → Channel → Option Dispatcher
  register_channel d ptr c = do
    (ret, s) ← sel.add d.selector c.fd c.events
    some (record { selector = s; channels = insert_channel d.channels c.fd ptr })

  pub update_channel : Dispatcher → Channel → Option Dispatcher
  update_channel d c = do
    (ret, s) ← sel.update d.selector c.fd c.events
    some (record d { selector = s })

  -- The entry is dereferenced before it is tested: `none` where there is none.
  pub remove_channel : Dispatcher → Channel → Option Dispatcher
  remove_channel d c = do
    ptr ← find c.fd d.channels
    (ret, s) ← sel.remove d.selector c.fd
    some (record { selector = s; channels = erase c.fd d.channels })

  pub find_channel : Dispatcher → ℕ → Option ℕ
  find_channel d fd = find fd d.channels

  -- `Channel::Update`.
  pub update : Dispatcher → ℕ → Channel → Option (Channel × Dispatcher)
  update d ptr c =
      let registered = register_channel d ptr c >>= λ d'. some (record c { attached = true }, d') in
      let updated = update_channel d c >>= λ d'. some (c, d') in
      if c.attached then updated else registered

  unfoldable pub set_events : Dispatcher → ℕ → Channel → ℕ → Option (Channel × Dispatcher)
  set_events d ptr c events = update d ptr (record c { events = events })

  unfoldable pub disable_write : Dispatcher → ℕ → Channel → Option (Channel × Dispatcher)
  disable_write d ptr c = set_events d ptr c (without_write c.events)

  unfoldable pub enable_write : Dispatcher → ℕ → Channel → Option (Channel × Dispatcher)
  enable_write d ptr c = set_events d ptr c (or_if c.events true ev_write)

  unfoldable pub enable_read : Dispatcher → ℕ → Channel → Option (Channel × Dispatcher)
  enable_read d ptr c = set_events d ptr c (or_if c.events true ev_read)

  -- The loop of `Start` over the events. `handle` calls handlers of a channel, which may change the
  -- dispatcher; a descriptor without a channel is taken from the selector.
  pub dispatch :
      (ℕ → List Handler → Dispatcher → Option Dispatcher)
      → Dispatcher
      → List Event
      → Option Dispatcher
  dispatch handle d [] = some d
  dispatch handle d (ev ∷ evs) = elim (find_channel d ev.fd) [
    | some ptr ↦ do d' ← handle ptr (handle_event ev.revents) d; dispatch handle d' evs
    | none ↦ do
      (ret, s) ← sel.remove d.selector ev.fd
      dispatch handle (record d { selector = s }) evs
  ]
