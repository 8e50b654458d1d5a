-- ===== src/Console/Task.antt =====
-- `console_task` of console.c, and the lock that keeps the node from sleeping while a line is typed.
use dmesh_l.Base.{
  ℕ, zero, suc, ◌+◌, ◌-◌, ◌≡◌, refl, ap, ◌∙◌, Bool, true, false, List, [], ◌∷◌, ◌++◌, ◌==◌,
  if◌then◌else◌, arith,
}

-- The calls on `status.light_sleep_pm_lock`.
pub data LockCall : Type 0 where
  acquire release : LockCall

-- `lock_held`, and the calls so far.
pub record Console : Type 0 where
  pub lock_held : Bool
  pub calls : List LockCall

abbrev pub initial_console : Console
initial_console = record { lock_held = false; calls = [] }

-- `getlock`, the hook for the first character of a line, which may come more than once.
unfoldable pub getlock : Console → Console
getlock c = if c.lock_held then c else record { lock_held = true; calls = c.calls ++ acquire ∷ [] }

-- What linenoise does in a round: it calls the hook so often, and returns a line or NULL.
pub record Typed : Type 0 where
  pub hooks : ℕ
  pub has_line : Bool

unfoldable pub hooked : (hooks : ℕ) → Console → Console
hooked zero c = c
hooked (suc n) c = hooked n (getlock c)

-- ESP_ERR_NOT_FOUND and ESP_ERR_INVALID_ARG
abbrev pub err_not_found : ℕ
err_not_found = 0x105

abbrev pub err_invalid_arg : ℕ
err_invalid_arg = 0x102

-- What the task prints about a command.
pub data Report : Type 0 where
  unrecognized nothing : Report
  nonzero internal : ℕ → Report

-- The report for what esp_console_run returns, and the command's exit code.
unfoldable pub report : (err ret : ℕ) → Report
report err ret =
    if err == err_not_found
    then unrecognized
    else if err == err_invalid_arg
    then nothing
    else if err == 0
    then (if ret == 0 then nothing else nonzero ret)
    else internal err

-- A round of the loop of `console_task`: behind a line the lock is released, whoever holds it.
unfoldable pub console_round : Typed → Console → Console
console_round t c =
    let typed = hooked t.hooks c in
    if t.has_line then record { lock_held = false; calls = typed.calls ++ release ∷ [] } else typed

unfoldable pub console_rounds : List Typed → Console → Console
console_rounds [] c = c
console_rounds (t ∷ ts) c = console_rounds ts (console_round t c)

-- The number of holds after the calls. A release without a hold is an error, and changes nothing.
abbrev pub holds_after : (holds : ℕ) → List LockCall → ℕ
holds_after n [] = n
holds_after n (acquire ∷ cs) = holds_after (n + 1) cs
holds_after n (release ∷ cs) = holds_after (n - 1) cs

holds_after-append :
    (n : ℕ) (xs ys : List LockCall) → holds_after n (xs ++ ys) ≡ holds_after (holds_after n xs) ys
holds_after-append n [] ys = refl
holds_after-append n (acquire ∷ xs) ys = holds_after-append (n + 1) xs ys
holds_after-append n (release ∷ xs) ys = holds_after-append (n - 1) xs ys

-- The lock is held just as the variable says, and at most once.
abbrev pub LockIsValid : Console → Type 0
LockIsValid c = holds_after 0 c.calls ≡ (if c.lock_held then 1 else 0)

getlock-LockIsValid : (c : Console) → LockIsValid c → LockIsValid (getlock c)
unfolding getlock
getlock-LockIsValid c v = ground (arith, holds_after-append 0 c.calls (acquire ∷ []))

getlock-held : (c : Console) → (getlock c).lock_held ≡ true
unfolding getlock
getlock-held c = ground arith

hooked-LockIsValid : (n : ℕ) (c : Console) → LockIsValid c → LockIsValid (hooked n c)
unfolding hooked
hooked-LockIsValid zero c v = v
hooked-LockIsValid (suc n) c v = hooked-LockIsValid n (getlock c) (getlock-LockIsValid c v)

hooked-held : (n : ℕ) (c : Console) → c.lock_held ≡ true → (hooked n c).lock_held ≡ true
unfolding hooked getlock
hooked-held zero c h = h
hooked-held (suc n) c h = hooked-held n (getlock c) (getlock-held c)

console_round-LockIsValid :
    (t : Typed) (c : Console) → LockIsValid c → LockIsValid (console_round t c)
unfolding console_round
console_round-LockIsValid t c v = ground (
  arith,
  hooked-LockIsValid t.hooks c v,
  holds_after-append 0 (hooked t.hooks c).calls (release ∷ []),
)

console_rounds-LockIsValid :
    (ts : List Typed) (c : Console) → LockIsValid c → LockIsValid (console_rounds ts c)
unfolding console_rounds
console_rounds-LockIsValid [] c v = v
console_rounds-LockIsValid (t ∷ ts) c v =
    console_rounds-LockIsValid ts (console_round t c) (console_round-LockIsValid t c v)

typed_holds :
    (hooks : ℕ) (c : Console) → LockIsValid c → holds_after 0 (hooked (suc hooks) c).calls ≡ 1
unfolding hooked
typed_holds hooks c v =
    hooked-LockIsValid hooks (getlock c) (getlock-LockIsValid c v)
    ∙ ap (λ b. if b then 1 else 0) (hooked-held hooks (getlock c) (getlock-held c))

hooked-zero : (c : Console) → hooked 0 c ≡ c
unfolding hooked
hooked-zero c = refl

-- A round, by the number of calls of the hook.
round_holds :
    (hooks : ℕ) (t : Typed) (c : Console)
    → t.hooks ≡ hooks
    → LockIsValid c
    → holds_after 0 (console_round t c).calls
      ≡ (if t.has_line then 0 else if t.hooks == 0 then holds_after 0 c.calls else 1)
unfolding console_round
round_holds zero t c e v = ground (
  arith,
  holds_after-append 0 (hooked t.hooks c).calls (release ∷ []),
  hooked-LockIsValid t.hooks c v,
  ap (λ n. hooked n c) e,
  hooked-zero c,
)
round_holds (suc n) t c e v = ground (
  arith,
  holds_after-append 0 (hooked t.hooks c).calls (release ∷ []),
  hooked-LockIsValid t.hooks c v,
  ap (λ m. holds_after 0 (hooked m c).calls) e,
  typed_holds n c v,
)

-- Whatever has been typed before, the lock is held once from the first character of a line on, also
-- when the hook is called again or no line comes of it, and not at all after a line has been run.
pub console_lock_lem :
    (before : List Typed) (t : Typed)
    → let c = console_rounds before initial_console in
      ((hooks : ℕ) → holds_after 0 (hooked (suc hooks) c).calls ≡ 1)
      × (holds_after 0 (console_round t c).calls
          ≡ (if t.has_line then 0 else if t.hooks == 0 then holds_after 0 c.calls else 1))
console_lock_lem before t =
    let c : Console = console_rounds before initial_console in
    let v : LockIsValid c = console_rounds-LockIsValid before initial_console refl in
    ((λ hooks. typed_holds hooks c v), round_holds t.hooks t c refl v)
