-- ===== src/Selector.antt =====
-- rpc/selector.h: the flags of the events, and what the dispatcher relies on in a selector.
pub mod Runs
pub mod Poll
pub mod Epoll
mod Tests
use yamq.Prelude.{ℕ, ◌≡◌, ◌≢◌, Bool, Option, none, some, has, or_if}

abbrev pub ev_none : ℕ
ev_none = 0

abbrev pub ev_read : ℕ
ev_read = 1

abbrev pub ev_write : ℕ
ev_write = 2

abbrev pub ev_error : ℕ
ev_error = 8

abbrev pub ev_close : ℕ
ev_close = 16

pub record Event : Type 0 where
  pub revents : ℕ
  pub fd : ℕ

-- What an operation returns: 0, -1 or -2.
pub data Ret : Type 0 where
  ret_0 ret_1 ret_2 : Ret

-- Whether reading and writing are watched.
abbrev pub Interest : Type 0
Interest = Bool × Bool

abbrev pub interest : ℕ → Interest
interest events = (has events ev_read, has events ev_write)

-- The virtual functions, and a view of the state as a finite map: each operation succeeds on the
-- descriptors it is meant for and changes just the entry of its descriptor.
pub record Selector (S : Type 0) : Type 1 where
  pub add : S → ℕ → ℕ → Option (Ret × S)
  pub update : S → ℕ → ℕ → Option (Ret × S)
  pub remove : S → ℕ → Option (Ret × S)
  pub watched : S → ℕ → Option Interest
  pub Valid : S → Type 0
  pub add_watched :
      (s : S) (fd events : ℕ)
      → Valid s
      → watched s fd ≡ none
      → (s' : S) × (add s fd events ≡ some (ret_0, s'))
        × Valid s'
        × (watched s' fd ≡ some (interest events))
        × ((i : ℕ) → i ≢ fd → watched s' i ≡ watched s i)
  pub update_watched :
      (s : S) (fd events : ℕ)
      → Valid s
      → watched s fd ≢ none
      → (s' : S) × (update s fd events ≡ some (ret_0, s'))
        × Valid s'
        × (watched s' fd ≡ some (interest events))
        × ((i : ℕ) → i ≢ fd → watched s' i ≡ watched s i)
  pub remove_watched :
      (s : S) (fd : ℕ)
      → Valid s
      → watched s fd ≢ none
      → (s' : S) × (remove s fd ≡ some (ret_0, s'))
        × Valid s'
        × (watched s' fd ≡ none)
        × ((i : ℕ) → i ≢ fd → watched s' i ≡ watched s i)
