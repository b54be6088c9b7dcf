-- ===== src/Sipc/Started.antt =====
-- "6_Synchronization/sipc1.c" and sipc2.c: the exchange of sipc4.c between two processes with the System V
-- semaphores of semlib.c, up to their exits in `Started` and with the exit of sipc1.c in `Ending`. Only sipc1.c gives the semaphores their values, after both may have started.
pub mod Laws
pub mod Exit
use linux_system_programming.Prelude.{ℕ, ◌+◌, ◌-◌, Bool, true, false, Option, none, some, []}
use linux_system_programming.Sipc.{blank}
use linux_system_programming.Sipc.Semaphores.{Exchange, Sipc1At, Sipc2At, sipc1_at, sipc2_at}

-- How far sipc1.c is: at one of its three calls of `semInitValue`, or past them.
pub data Giving : Type 0 where
  give_empty give_full give_mutex given : Giving

pub record Started : Type 0 where
  pub giving : Giving
  pub exchange : Exchange

abbrev pub in_exchange : Started → Option Exchange → Option Started
in_exchange s none = none
in_exchange s (some t) = some (record s { exchange = t })

-- A step of sipc1.c, as process `self`.
unfoldable pub answer_at : ℕ → Giving → Started → Option Started
answer_at self give_empty s =
    some (record { giving = give_full; exchange = record (s.exchange) { empty = 1 } })
answer_at self give_full s =
    some (record { giving = give_mutex; exchange = record (s.exchange) { full = 0 } })
answer_at self give_mutex s =
    some (record { giving = given; exchange = record (s.exchange) { mutex = 1 } })
answer_at self given s = in_exchange s (sipc1_at self s.exchange.sipc1 s.exchange)

abbrev pub answer_process : ℕ → Started → Option Started
answer_process self s = answer_at self s.giving s

-- A step of sipc2.c, as process `self`, which may begin at any time.
abbrev pub ask_process : ℕ → Started → Option Started
ask_process self s = in_exchange s (sipc2_at self s.exchange.sipc2 s.exchange)

-- New shared memory and new semaphores, all zero.
abbrev pub started : Started
started = record {
  giving = give_empty;
  exchange = record {
    mutex = 0;
    empty = 0;
    full = 0;
    shared = blank;
    sipc1 = Sipc1At.wait_full;
    sipc2 = Sipc2At.wait_empty;
    printed1 = [];
    printed2 = [];
  };
}

-- The processes and whether sipc1.c has exited.
pub record Ending : Type 0 where
  pub state : Started
  pub gone : Bool

-- The operations have `SEM_UNDO`: the exit of sipc1.c takes back its wait for `full` and its post of `empty`,
-- which stops at 0. What it has done to the mutex adds up to nothing.
abbrev pub undone : Exchange → Exchange
undone s = record s { empty = s.empty - 1; full = s.full + 1 }

abbrev pub in_state : Ending → Option Started → Option Ending
in_state e none = none
in_state e (some t) = some (record e { state = t })

-- A step of sipc1.c, the last of which is its exit.
unfoldable pub sipc1_ending : ℕ → Bool → Sipc1At → Ending → Option Ending
sipc1_ending self true at e = none
sipc1_ending self false Sipc1At.returned e =
    some (record { state = record (e.state) { exchange = undone e.state.exchange }; gone = true })
sipc1_ending self false _ e = in_state e (answer_process self e.state)

abbrev pub sipc1_process : ℕ → Ending → Option Ending
sipc1_process self e = sipc1_ending self e.gone e.state.exchange.sipc1 e

-- A step of sipc2.c. It exits after sipc1.c has returned, and then uses no semaphore.
abbrev pub sipc2_process : ℕ → Ending → Option Ending
sipc2_process self e = in_state e (ask_process self e.state)

abbrev pub ending_start : Ending
ending_start = record { state = started; gone = false }
