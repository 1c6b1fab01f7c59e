-- ===== src/Sched/Files/Register.antt =====
-- sched.c: registering and removing a file handler.
use chrony.Common.{
  ℕ, ◌+◌, ◌-◌, ◌<◌, true, false, ◌||◌, some, List, if◌then◌else◌, ltb, leb, ◌==◌, ◌≡◌, length,
  arith, refl, ◌∙◌, set, replicate, length-append, length-replicate, length-set,
}
use chrony.Common.Signed.{pos}
use chrony.Sched.Files.{
  FileHandlerEntry, Handlers, no_handler, is_registered, resize_for, add_file_handler,
  lower_highest, remove_file_handler,
}
use chrony.Sched.Files.Highest.{
  has_handler, highest, IsValid, highest-append, highest-set, highest-clear, has_handler-append,
  has_handler-set, get_elem?-has_handler, has_handler-length, highest-length, lower_highest-highest,
}

length-resize_for : (fd : ℕ) (es : List FileHandlerEntry) → fd < length (resize_for fd es)
unfolding resize_for
length-resize_for fd es = omega (
  arith,
  length-append es (replicate (fd + 1 - length es) no_handler),
  length-replicate (fd + 1 - length es) no_handler,
)

resize_for-has_handler :
    (fd : ℕ) (es : List FileHandlerEntry) (k : ℕ)
    → has_handler (resize_for fd es) k ≡ has_handler es k
unfolding resize_for
resize_for-has_handler fd es k = has_handler-append es (fd + 1 - length es) k

resize_for-highest : (fd : ℕ) (es : List FileHandlerEntry) → highest (resize_for fd es) ≡ highest es
unfolding resize_for
resize_for-highest fd es = highest-append es (fd + 1 - length es)

-- With some events and a descriptor below FD_SETSIZE that has no handler, `SCH_AddFileHandler`
-- succeeds. Then that descriptor has a handler as well as those that had one, and `one_highest_fd`
-- is one more than the highest of them.
pub add_file_handler-IsValid :
    (fd_setsize : ℕ) (h : Handlers) (fd events handler arg k : ℕ)
    → IsValid h
    → 0 < events
    → fd < fd_setsize
    → has_handler h.file_handlers fd ≡ false
    → (h' : Handlers) × (add_file_handler fd_setsize h (pos fd) events handler arg ≡ some h')
      × IsValid h'
      × (has_handler h'.file_handlers k ≡ (if fd == k then true else has_handler h.file_handlers k))
unfolding add_file_handler IsValid is_registered
add_file_handler-IsValid fd_setsize h fd events handler arg k v p l free =
    let es = h.file_handlers in
    let entries = resize_for fd es in
    let room : fd < length entries = length-resize_for fd es in
    let new : FileHandlerEntry = record { handler = some handler; arg = arg; events = events } in
    let (e, found, same) = get_elem?-has_handler entries fd room in
    let unregistered : is_registered e ≡ false = same ∙ resize_for-has_handler fd es fd ∙ free in
    let guard : (events == 0 || leb fd_setsize fd) ≡ false = ground arith in
    (
      record {
        file_handlers = set entries fd new;
        one_highest_fd = if ltb h.one_highest_fd (fd + 1) then fd + 1 else h.one_highest_fd;
      },
      rw (guard, found, unregistered),
      rw (v, highest-set entries fd new refl room, resize_for-highest fd es),
      rw (has_handler-set entries fd k new room, resize_for-has_handler fd es k),
    )

-- `SCH_RemoveFileHandler` of a descriptor that has a handler succeeds. Then all others have a handler
-- that had one, and `one_highest_fd` is one more than the highest of them.
remove_file_handler-IsValid :
    (h : Handlers) (fd k : ℕ)
    → IsValid h
    → has_handler h.file_handlers fd ≡ true
    → (h' : Handlers) × (remove_file_handler h fd ≡ some h')
      × IsValid h'
      × (has_handler h'.file_handlers k
          ≡ (if fd == k then false else has_handler h.file_handlers k))
unfolding remove_file_handler IsValid is_registered
remove_file_handler-IsValid h fd k v t =
    let es = h.file_handlers in
    let entries = set es fd no_handler in
    let room = has_handler-length es fd t in
    let (e, found, same) = get_elem?-has_handler es fd room in
    let lowered : lower_highest h.one_highest_fd entries ≡ some (highest entries) =
      lower_highest-highest h.one_highest_fd entries (omega (arith, v, highest-clear es fd))
        (omega (arith, v, highest-length es, length-set es fd no_handler)) in
    let registered : is_registered e ≡ true = same ∙ t in
    (
      record { file_handlers = entries; one_highest_fd = highest entries },
      rw (found, registered, lowered),
      refl,
      has_handler-set es fd k no_handler room,
    )
