-- ===== src/Sched/Files.antt =====
-- sched.c: the table of file handlers.
--
-- `file_handlers` is the list of the elements of its array. A handler is the number of the function,
-- `none` for NULL. `none` as a result is the end of the program.
pub mod Highest
pub mod Register
mod Tests
use chrony.Common.{
  ℕ, zero, suc, ◌+◌, ◌-◌, ◌/◌, ◌%◌, Bool, true, false, not, ◌&&◌, ◌||◌, Option, none, some, List,
  [], ◌∷◌, ◌++◌, ◌>>=◌, if◌then◌else◌, ltb, leb, ◌==◌, length, set, replicate, get_elem?,
}
use chrony.Common.Signed.{ℤ, pos, negsuc}

pub record FileHandlerEntry : Type 0 where
  pub handler : Option ℕ
  pub arg : ℕ
  pub events : ℕ

pub record Handlers : Type 0 where
  pub file_handlers : List FileHandlerEntry
  pub one_highest_fd : ℕ

abbrev pub no_handler : FileHandlerEntry
no_handler = record { handler = none; arg = 0; events = 0 }

pub is_registered : FileHandlerEntry → Bool
is_registered e = elim e.handler [ none ↦ false | some h ↦ true ]

-- The array is resized to hold the descriptor.
pub resize_for : ℕ → List FileHandlerEntry → List FileHandlerEntry
resize_for fd entries = entries ++ replicate (fd + 1 - length entries) no_handler

-- `fd_setsize` is FD_SETSIZE of the C library.
pub add_file_handler : ℕ → Handlers → ℤ → ℕ → ℕ → ℕ → Option Handlers
add_file_handler fd_setsize h (negsuc n) events handler arg = none
add_file_handler fd_setsize h (pos fd) events handler arg =
    if events == 0 || leb fd_setsize fd then none else do
      let entries = resize_for fd h.file_handlers
      ptr ← get_elem? entries fd
      if is_registered ptr
          then none
          else some (record {
            file_handlers =
                set entries fd (record { handler = some handler; arg = arg; events = events });
            one_highest_fd = if ltb h.one_highest_fd (fd + 1) then fd + 1 else h.one_highest_fd;
          })

-- The loop that finds the new highest descriptor.
pub lower_highest : ℕ → List FileHandlerEntry → Option ℕ
lower_highest zero entries = some 0
lower_highest (suc fd) entries = do
  ptr ← get_elem? entries fd
  let rest = lower_highest fd entries
  if is_registered ptr then some (suc fd) else rest

pub remove_file_handler : Handlers → ℕ → Option Handlers
remove_file_handler h fd = do
  ptr ← get_elem? h.file_handlers fd
  let entries = set h.file_handlers fd no_handler
  if is_registered ptr
      then (lower_highest h.one_highest_fd entries >>= λ highest.
          some (record { file_handlers = entries; one_highest_fd = highest }))
      else none

-- `has_event events event` is `events & event`, with `event` one of the three bits.
pub has_event : ℕ → ℕ → Bool
has_event events event = events / event % 2 == 1

-- `|= event` and `&= ~event` for one of the three bits.
pub set_event : ℕ → ℕ → Bool → ℕ
set_event events event true = if has_event events event then events else events + event
set_event events event false = if has_event events event then events - event else events

pub set_file_handler_event : Handlers → ℕ → ℕ → Bool → Option Handlers
set_file_handler_event h fd event enable = do
  ptr ← get_elem? h.file_handlers fd
  some (record h {
    file_handlers =
        set h.file_handlers fd (record ptr { events = set_event ptr.events event enable });
  })

-- One of the sets that `fill_fd_sets` makes: the descriptors that wait for the event, from the index
-- `i` on. The pointer is NULL if there are none.
pub fd_set_of : ℕ → ℕ → List FileHandlerEntry → List ℕ
fd_set_of event i [] = []
fd_set_of event i (e ∷ es) =
    let rest = fd_set_of event (i + 1) es in
    if e.events == 0 then rest else (if has_event e.events event then i ∷ rest else rest)
