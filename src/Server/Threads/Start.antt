-- ===== src/Server/Threads/Start.antt =====
-- How the client threads of practicum2/server.c start.
use cs5600_computer_system.Common.{
  ◌-◌, Option, none, some, List, [], ◌∷◌, if◌then◌else◌, take, get_elem?,
}
use cs5600_computer_system.Common.Text.{codes, str_case_eq}
use cs5600_computer_system.Server.{Bytes, Os, buf_size, send, words, text_of}
use cs5600_computer_system.Server.Threads.{Pc, write_start, get_open, rm_check, finished, Thread}

-- What a thread does of its client's words: a handler with its arguments, or only an answer, if any.
pub data Request : Type 0 where
  write_request : Bytes → Option Bytes → Request
  get_request : Bytes → Request
  rm_request : Bytes → Request
  no_request : List Bytes → Request

-- The start of a handler, with a turn to come.
abbrev pub start : Request → Pc × List Bytes
start (write_request remote perm_str) = (write_start remote perm_str, [])
start (get_request remote) = (get_open remote, [])
start (rm_request remote) = (rm_check remote, [])
start (no_request answers) = (finished, answers)

abbrev pub start_thread : Os → Request → Thread
start_thread os request = record { os = os; pc = (start request).0; sent = (start request).1 }

-- `client_thread` from the words to the handler.
unfoldable pub started : Bytes → Option Bytes → Option Bytes → Option Bytes → Request
started cmd (some arg1) (some arg2) arg3 =
    if str_case_eq cmd (codes "WRITE")
    then write_request arg2 arg3
    else (if str_case_eq cmd (codes "GET")
        then get_request arg1
        else (if str_case_eq cmd (codes "RM")
            then rm_request arg1
            else no_request (send "ERR_BAD_ARGS" 12 ∷ [])))
started cmd (some arg1) none arg3 =
    if str_case_eq cmd (codes "RM")
    then rm_request arg1
    else no_request (send "ERR_BAD_ARGS" 12 ∷ [])
started cmd none arg2 arg3 = no_request (send "ERR_BAD_ARGS" 12 ∷ [])

unfoldable pub started_words : List Bytes → Request
started_words [] = no_request []
started_words (cmd ∷ args) = started cmd (get_elem? args 0) (get_elem? args 1) (get_elem? args 2)

-- `client_thread` up to the handler while no other thread calls `strtok`, whose place in the text
-- all threads share: then the words are those of the thread's own text.
unfoldable pub new_thread : Os → Option Bytes → Thread
new_thread os none = start_thread os (no_request [])
new_thread os (some received) =
    start_thread os (started_words (words [] (text_of (take (buf_size - 1) received))))

-- The threads of clients: how their calls turn out, and the request that `strtok` made of it, be it
-- of their own words or of others'.
abbrev pub new_threads : List (Os × Request) → List Thread
new_threads [] = []
new_threads ((os, request) ∷ clients) = start_thread os request ∷ new_threads clients
