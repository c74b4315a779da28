-- ===== src/Poller/Threads.antt =====
-- The threads of alb/poller/loop.py: _thread_of, _current_thread and _stamp_thread. A table of threads
-- that cannot be read is an empty one.
use agent_letter_bridge.Prelude.{
  Bool, true, false, ◌||◌, Option, none, some, List, [], ◌∷◌, ◌++◌, Result, ok, err, if◌then◌else◌,
}
use agent_letter_bridge.Prelude.Text.{Text, codes, eq_text, starts_with, split_on, join_on}
use agent_letter_bridge.Prelude.TextDict
use agent_letter_bridge.Prelude.TextDict.{TextDict}
use agent_letter_bridge.Letter.{
  Letter, LetterError, no_such_letter, os_error, decode_error, Directory, LetterFile, text,
  unreadable, undecodable, resolve, universal_newlines,
}

-- `meta.get("thread") or letter_id`
abbrev pub own_thread : Text → Option Text → Text
own_thread id none = id
own_thread id (some []) = id
own_thread id (some (c ∷ t)) = c ∷ t

abbrev is_missing : LetterError → Bool
is_missing no_such_letter = true
is_missing _ = false

abbrev thread_in :
    Text → Result LetterError Letter → Result LetterError Text → Result LetterError Text
thread_in id (ok letter) rest = ok (own_thread id (TextDict.get (codes "thread") letter.meta))
thread_in id (err e) rest = if is_missing e then rest else err e

-- _thread_of(searched, letter_id)
unfoldable pub thread_of : List Directory → Text → Result LetterError Text
thread_of [] id = ok id
thread_of (d ∷ ds) id = let rest = thread_of ds id in thread_in id (resolve d id) rest

abbrev pub thread_or : Text → Text → Bool → TextDict Text → Option Text → Text × TextDict Text
thread_or correspondent id cut threads none = (id, TextDict.put correspondent id threads)
thread_or correspondent id true threads (some thread) = (id, TextDict.put correspondent id threads)
thread_or correspondent id false threads (some thread) = (thread, threads)

-- _current_thread(state, correspondent, letter_id, cut)
unfoldable pub current_thread : Text → Text → Bool → TextDict Text → Text × TextDict Text
current_thread correspondent id cut threads =
    thread_or correspondent id cut threads (TextDict.get correspondent threads)

abbrev pub is_thread_line : Text → Bool
is_thread_line line = eq_text line (codes "thread:") || starts_with (codes "thread: ") line

abbrev pub option_cons : Text → Option (List Text) → Option (List Text)
option_cons line none = none
option_cons line (some lines) = some (line ∷ lines)

-- the lines with the first thread line replaced, if there is one
unfoldable pub replace_thread : Text → List Text → Option (List Text)
replace_thread thread [] = none
replace_thread thread (line ∷ lines) =
    let rest = replace_thread thread lines in
    if is_thread_line line
    then some ((codes "thread: " ++ thread) ∷ lines)
    else option_cons line rest

abbrev pub stamped_file : Text → Option (List Text) → Text
stamped_file old none = old
stamped_file old (some lines) = join_on 10 lines

-- the text of the file after _stamp_thread
unfoldable pub stamp_text : Text → Text → Text
stamp_text thread t = stamped_file t (replace_thread thread (split_on 10 (universal_newlines t)))

abbrev pub stamp_file : Directory → Text → Text → Option LetterFile → Result LetterError Directory
stamp_file inbox id thread none = err os_error
stamp_file inbox id thread (some unreadable) = err os_error
stamp_file inbox id thread (some undecodable) = err decode_error
stamp_file inbox id thread (some (text t)) = ok (TextDict.put id (text (stamp_text thread t)) inbox)

-- _stamp_thread(inbox, letter_id, thread)
unfoldable pub stamp_thread : Directory → Text → Text → Result LetterError Directory
stamp_thread inbox id thread = stamp_file inbox id thread (TextDict.get id inbox)
