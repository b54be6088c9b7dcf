-- ===== src/Sipc/Semaphores.antt =====
-- sipc4.c: `Sipc1` answers, `Sipc2` asks. A step is one semaphore call or one use of the shared array.
pub mod Laws
use linux_system_programming.Prelude.{
  ℕ, ◌+◌, ◌-◌, Option, none, some, List, [], ◌∷◌, ◌++◌, ◌==◌, if◌then◌else◌,
}
use linux_system_programming.Sipc.{Message, blank, request, reply}

-- Where `Sipc1` stands.
pub data Sipc1At : Type 0 where
  wait_full wait_mutex print_request write_reply post_mutex post_empty returned : Sipc1At

-- Where `Sipc2` stands.
pub data Sipc2At : Type 0 where
  wait_empty wait_mutex write_request post_mutex post_full wait_reply print_reply returned : Sipc2At

-- The values of the semaphores, the array `Data`, the threads, and what each of them has printed.
pub record Exchange : Type 0 where
  pub mutex : ℕ
  pub empty : ℕ
  pub full : ℕ
  pub shared : Message
  pub sipc1 : Sipc1At
  pub sipc2 : Sipc2At
  pub printed1 : List Message
  pub printed2 : List Message

unfoldable pub sipc1_at : ℕ → Sipc1At → Exchange → Option Exchange
sipc1_at self wait_full s =
    if s.full == 0 then none else some (record s { full = s.full - 1; sipc1 = wait_mutex })
sipc1_at self wait_mutex s =
    if s.mutex == 0 then none else some (record s { mutex = s.mutex - 1; sipc1 = print_request })
sipc1_at self print_request s =
    some (record s { printed1 = s.printed1 ++ (s.shared ∷ []); sipc1 = write_reply })
sipc1_at self write_reply s = some (record s { shared = reply self; sipc1 = post_mutex })
sipc1_at self post_mutex s = some (record s { mutex = s.mutex + 1; sipc1 = post_empty })
sipc1_at self post_empty s = some (record s { empty = s.empty + 1; sipc1 = returned })
sipc1_at self returned s = none

unfoldable pub sipc2_at : ℕ → Sipc2At → Exchange → Option Exchange
sipc2_at self wait_empty s =
    if s.empty == 0 then none else some (record s { empty = s.empty - 1; sipc2 = wait_mutex })
sipc2_at self wait_mutex s =
    if s.mutex == 0 then none else some (record s { mutex = s.mutex - 1; sipc2 = write_request })
sipc2_at self write_request s = some (record s { shared = request self; sipc2 = post_mutex })
sipc2_at self post_mutex s = some (record s { mutex = s.mutex + 1; sipc2 = post_full })
sipc2_at self post_full s = some (record s { full = s.full + 1; sipc2 = wait_reply })
sipc2_at self wait_reply s =
    if s.empty == 0 then none else some (record s { empty = s.empty - 1; sipc2 = print_reply })
sipc2_at self print_reply s =
    some (record s { printed2 = s.printed2 ++ (s.shared ∷ []); sipc2 = returned })
sipc2_at self returned s = none

-- `Sipc1` as thread `self`.
abbrev pub answer_step : ℕ → Exchange → Option Exchange
answer_step self s = sipc1_at self s.sipc1 s

-- `Sipc2` as thread `self`.
abbrev pub ask_step : ℕ → Exchange → Option Exchange
ask_step self s = sipc2_at self s.sipc2 s

-- `main` after `sem_init` and `pthread_create`; a global array is zero at first.
abbrev pub exchange_start : Exchange
exchange_start = record {
  mutex = 1;
  empty = 1;
  full = 0;
  shared = blank;
  sipc1 = wait_full;
  sipc2 = wait_empty;
  printed1 = [];
  printed2 = [];
}
