-- ===== src/Server/Process.antt =====
-- src/process-handlers.ts: the listeners of the process. The four functions that one call makes
-- stand under one number; `listeners` holds the process's, in the order of their being added.
use Prim.Native.String.{String}
use dwn_server.Common.{
  ℕ, ◌≡◌, ◌∙◌, ap, refl, Bool, true, false, ◌&&◌, ◌||◌, List, [], ◌∷◌, ◌++◌, arith, if◌then◌else◌,
  nat_beq, nat_beq_iff, ◌==◌, string_eq,
}
use mathlib.Core.List.{append_assoc, append-nil}
use text.Mathlib.TextEquality.{eq_iff}

-- A listener by its event, and its function by the number of the call that made it.
abbrev pub Listener : Type 0
Listener = String × ℕ

abbrev pub ProcessHandlers : Type 0
ProcessHandlers = ℕ

abbrev pub is_listener : Listener → Listener → Bool
is_listener (e, n) (f, m) = (e == f) && nat_beq n m

abbrev pub has_listener : Listener → List Listener → Bool
has_listener l [] = false
has_listener l (x ∷ xs) = is_listener x l || has_listener l xs

-- `process.on`
abbrev pub on : String → ℕ → List Listener → List Listener
on event n ls = ls ++ (event, n) ∷ []

-- `process.removeListener`: the last that was added.
unfoldable pub remove_listener : Listener → List Listener → List Listener
remove_listener l [] = []
remove_listener l (x ∷ xs) =
    let rest = remove_listener l xs in
    if has_listener l xs then x ∷ rest else if is_listener x l then xs else x ∷ rest

-- The number is that of the functions that are made.
unfoldable pub set_process_handlers : ℕ → List Listener → List Listener
set_process_handlers n ls =
    on "SIGTERM" n (on "SIGINT" n (on "uncaughtException" n (on "unhandledRejection" n ls)))

unfoldable pub remove_process_handlers : ProcessHandlers → List Listener → List Listener
remove_process_handlers n ls =
    remove_listener ("SIGTERM", n)
      (remove_listener ("SIGINT", n)
        (remove_listener ("uncaughtException", n) (remove_listener ("unhandledRejection", n) ls)))

has-append :
    (l : Listener) (ls ms : List Listener)
    → has_listener l ms ≡ true
    → has_listener l (ls ++ ms) ≡ true
has-append l [] ms h = h
has-append l (x ∷ xs) ms h = ground (arith, has-append l xs ms h)

remove-append :
    (l : Listener) (ls ms : List Listener)
    → has_listener l ms ≡ true
    → remove_listener l (ls ++ ms) ≡ ls ++ remove_listener l ms
unfolding remove_listener
remove-append l [] ms h = refl
remove-append l (x ∷ xs) ms h =
    rw (has-append l xs ms h) (ap (λ r. x ∷ r) (remove-append l xs ms h))

abbrev pub handlers_of : ℕ → List Listener
handlers_of n =
    ("unhandledRejection", n) ∷ ("uncaughtException", n) ∷ ("SIGINT", n) ∷ ("SIGTERM", n) ∷ []

pub set_process_handlers_lem :
    (n : ℕ) (ls : List Listener) → set_process_handlers n ls ≡ ls ++ handlers_of n
unfolding set_process_handlers
set_process_handlers_lem n ls =
    let a = ("unhandledRejection", n) ∷ [] in
    let b = ("uncaughtException", n) ∷ [] in
    let c = ("SIGINT", n) ∷ [] in
    let d = ("SIGTERM", n) ∷ [] in
    append_assoc (ls ++ a ++ b) c d
    ∙ append_assoc (ls ++ a) b (c ++ d)
    ∙ append_assoc ls a (b ++ c ++ d)

remove_here :
    (l : Listener) (ms : List Listener)
    → has_listener l ms ≡ false
    → is_listener l l ≡ true
    → remove_listener l (l ∷ ms) ≡ ms
unfolding remove_listener
remove_here l ms h here = rw (h, here) refl

-- The listener at the front of the part that was added, where no later one is the same.
remove_front :
    (event : String) (n : ℕ) (ls ms : List Listener)
    → has_listener (event, n) ms ≡ false
    → remove_listener (event, n) (ls ++ (event, n) ∷ ms) ≡ ls ++ ms
remove_front event n ls ms h =
    let here : is_listener (event, n) (event, n) ≡ true =
      ground (arith, eq_iff event event, nat_beq_iff n n) in
    remove-append (event, n) ls ((event, n) ∷ ms) (rw (here) refl)
    ∙ ap (λ r. ls ++ r) (remove_here (event, n) ms h here)

-- Removing the four listeners that were added last gives back the list of listeners that was there.
pub remove_process_handlers-set_process_handlers :
    (n : ℕ) (ls : List Listener) → remove_process_handlers n (set_process_handlers n ls) ≡ ls
unfolding remove_process_handlers
remove_process_handlers-set_process_handlers n ls =
    rw
      (
        set_process_handlers_lem n ls,
        remove_front "unhandledRejection" n ls
            (("uncaughtException", n) ∷ ("SIGINT", n) ∷ ("SIGTERM", n) ∷ []) refl,
        remove_front "uncaughtException" n ls (("SIGINT", n) ∷ ("SIGTERM", n) ∷ []) refl,
        remove_front "SIGINT" n ls (("SIGTERM", n) ∷ []) refl,
        remove_front "SIGTERM" n ls [] refl,
        append-nil ls,
      )
      refl
