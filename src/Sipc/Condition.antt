-- ===== src/Sipc/Condition.antt =====
-- sipc3.c: `Sipc1` answers, `Sipc2` asks, with one mutex and the condition variable `NotEmpty`. A step is
-- one pthread call or one use of a shared variable.
pub mod Laws
use linux_system_programming.Prelude.{
  ℕ, Bool, true, false, Option, none, some, List, [], ◌∷◌, ◌++◌, ◌==◌, if◌then◌else◌,
}
use linux_system_programming.Sipc.{Message, blank, request, reply}

-- Where `Sipc1` stands: `asleep` inside `pthread_cond_wait`, `relock` there too, woken.
pub data Sipc1Place : Type 0 where
  lock test asleep relock print_request clear write_reply signal unlock returned : Sipc1Place

-- Where `Sipc2` stands.
pub data Sipc2Place : Type 0 where
  lock write_request fill signal test asleep relock print_reply unlock returned : Sipc2Place

-- `Mutex`, `Nbuf`, `pData`, the threads, and what each of them has printed.
pub record Talk : Type 0 where
  pub locked : Bool
  pub nbuf : ℕ
  pub shared : Message
  pub sipc1 : Sipc1Place
  pub sipc2 : Sipc2Place
  pub printed1 : List Message
  pub printed2 : List Message

-- `pthread_cond_signal(&NotEmpty)` by `Sipc2`: the only other thread that can wait is `Sipc1`.
unfoldable pub wake1 : Sipc1Place → Sipc1Place
wake1 asleep = relock
wake1 pc = pc

unfoldable pub wake2 : Sipc2Place → Sipc2Place
wake2 asleep = relock
wake2 pc = pc

unfoldable pub sipc1_place : ℕ → Sipc1Place → Talk → Option Talk
sipc1_place self lock s = if s.locked then none else some (record s { locked = true; sipc1 = test })
sipc1_place self test s =
    if s.nbuf == 0
    then some (record s { locked = false; sipc1 = asleep })
    else some (record s { sipc1 = print_request })
sipc1_place self asleep s = none
sipc1_place self relock s =
    if s.locked then none else some (record s { locked = true; sipc1 = print_request })
sipc1_place self print_request s =
    some (record s { printed1 = s.printed1 ++ (s.shared ∷ []); sipc1 = clear })
sipc1_place self clear s = some (record s { nbuf = 0; sipc1 = write_reply })
sipc1_place self write_reply s = some (record s { shared = reply self; sipc1 = signal })
sipc1_place self signal s = some (record s { sipc2 = wake2 s.sipc2; sipc1 = unlock })
sipc1_place self unlock s = some (record s { locked = false; sipc1 = returned })
sipc1_place self returned s = none

unfoldable pub sipc2_place : ℕ → Sipc2Place → Talk → Option Talk
sipc2_place self lock s =
    if s.locked then none else some (record s { locked = true; sipc2 = write_request })
sipc2_place self write_request s = some (record s { shared = request self; sipc2 = fill })
sipc2_place self fill s = some (record s { nbuf = 1; sipc2 = signal })
sipc2_place self signal s = some (record s { sipc1 = wake1 s.sipc1; sipc2 = test })
sipc2_place self test s =
    if s.nbuf == 1
    then some (record s { locked = false; sipc2 = asleep })
    else some (record s { sipc2 = print_reply })
sipc2_place self asleep s = none
sipc2_place self relock s =
    if s.locked then none else some (record s { locked = true; sipc2 = print_reply })
sipc2_place self print_reply s =
    some (record s { printed2 = s.printed2 ++ (s.shared ∷ []); sipc2 = unlock })
sipc2_place self unlock s = some (record s { locked = false; sipc2 = returned })
sipc2_place self returned s = none

-- `Sipc1` as thread `self`.
abbrev pub answer_talk : ℕ → Talk → Option Talk
answer_talk self s = sipc1_place self s.sipc1 s

-- `Sipc2` as thread `self`.
abbrev pub ask_talk : ℕ → Talk → Option Talk
ask_talk self s = sipc2_place self s.sipc2 s

-- `main` after the initialisations and `pthread_create`.
abbrev pub talk_start : Talk
talk_start = record {
  locked = false;
  nbuf = 0;
  shared = blank;
  sipc1 = lock;
  sipc2 = lock;
  printed1 = [];
  printed2 = [];
}
