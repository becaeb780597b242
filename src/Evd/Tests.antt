-- ===== src/Evd/Tests.antt =====
-- Runs of the dispatcher at fixed inputs, and the theorems at inputs that meet their hypotheses.
use yamq.Prelude.{◌≡◌, refl, true, false, some, [], ◌∷◌}
use yamq.Selector.Poll.{poll_selector}
use yamq.Selector.Poll.Contract.{poll_Selector}
use yamq.Evd.{Channel, handle_read, handle_write, handle_error, handle_event, Dispatcher}
use yamq.Evd.Functors.{
  Functors, functors, push_functor, mark, wake_if_calling, end_calls, returns, Steps,
}
use yamq.Evd.Functors.Order.{sync-early}

-- A dispatcher over PollSelector, with nothing registered.
abbrev idle : Dispatcher poll_Selector
idle = record { selector = poll_selector; channels = [] }

abbrev listening : Channel
listening = record { fd = 5; events = 1; attached = false }

-- A hang-up without an error or data calls no handler.
close_unhandled : handle_event 16 ≡ []
unfolding handle_event
close_unhandled = refl

all_handled : handle_event 11 ≡ handle_read ∷ handle_write ∷ handle_error ∷ []
unfolding handle_event
all_handled = refl

abbrev started : Functors
started = record functors { running = some (7 ∷ []); calling = true; pending = [] }

abbrev emptied : Functors
emptied = record functors { running = some []; calling = true }

sync-early_example :
    let e' = end_calls (wake_if_calling (mark (push_functor emptied 8))) in
    Steps emptied e' (8 ∷ []) × (returns e' ≡ true) × (e'.called ≡ []) × (e'.pending ≡ 8 ∷ [])
sync-early_example = sync-early emptied 8 refl
