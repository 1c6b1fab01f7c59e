-- ===== src/Sched/Files/Tests.antt =====
-- sched.c: the table of file handlers at concrete values.
use chrony.Common.{none, some, [], ◌∷◌, ◌≡◌, true, false, refl, arith, if◌then◌else◌, ◌==◌}
use chrony.Common.Signed.{pos}
use chrony.Sched.Files.{
  FileHandlerEntry, Handlers, no_handler, is_registered, add_file_handler, remove_file_handler,
  lower_highest, set_file_handler_event, set_event, has_event, fd_set_of, resize_for,
}
use chrony.Sched.Files.Highest.{has_handler, IsValid}
use chrony.Sched.Files.Register.{add_file_handler-IsValid}

abbrev reader : FileHandlerEntry
reader = record { handler = some 4; arg = 0; events = 1 }

abbrev two_handlers : Handlers
two_handlers = record { file_handlers = reader ∷ no_handler ∷ reader ∷ []; one_highest_fd = 3 }

remove_file_handler_lem :
    (remove_file_handler two_handlers 2
      ≡ some (record { file_handlers = reader ∷ no_handler ∷ no_handler ∷ []; one_highest_fd = 1 }))
    × (remove_file_handler two_handlers 1 ≡ none)
unfolding remove_file_handler lower_highest is_registered
remove_file_handler_lem = (refl, refl)

add_file_handler_lem : add_file_handler 1024 two_handlers (pos 2) 1 5 0 ≡ none
unfolding add_file_handler resize_for is_registered
add_file_handler_lem = refl

-- Enabling output adds its bit to the events.
set_file_handler_event-fd_set_of_lem :
    (set_event 1 2 true ≡ 3)
    × (set_event 3 1 false ≡ 2)
    × (fd_set_of 1 0 two_handlers.file_handlers ≡ 0 ∷ 2 ∷ [])
unfolding set_event has_event fd_set_of
set_file_handler_event-fd_set_of_lem = (refl, refl, refl)

set_file_handler_event_lem :
    set_file_handler_event two_handlers 0 2 true
    ≡ some (record two_handlers {
      file_handlers = record reader { events = 3 } ∷ no_handler ∷ reader ∷ [];
    })
unfolding set_file_handler_event set_event has_event
set_file_handler_event_lem = refl

two_handlers-IsValid : IsValid two_handlers
unfolding IsValid is_registered
two_handlers-IsValid = refl

add_file_handler-IsValid_example :
    (h' : Handlers) × (add_file_handler 1024 two_handlers (pos 1) 1 5 0 ≡ some h')
    × IsValid h'
    × (has_handler h'.file_handlers 2
        ≡ (if 1 == 2 then true else has_handler two_handlers.file_handlers 2))
unfolding is_registered
add_file_handler-IsValid_example =
    add_file_handler-IsValid 1024 two_handlers 1 1 5 0 2 two_handlers-IsValid (omega arith)
      (omega arith) refl
