-- ===== src/Ipc/Flag.antt =====
-- "5_Inter-Process Communication": sipc1.c and sipc2.c, one request and one reply over shared memory, where
-- the number in front of the text tells whose turn it is. A step is one access to the shared memory; a
-- process that waits busily makes no step.
pub mod Laws
use linux_system_programming.Prelude.{
  ℕ, Option, none, some, Bool, true, false, List, [], ◌∷◌, ◌++◌, ◌==◌, if◌then◌else◌,
}
use linux_system_programming.Sipc.{Message, blank, request, reply}

-- Where sipc1.c stands.
pub data Answerer : Type 0 where
  wait_flag print_request write_reply clear_flag remove returned : Answerer

-- Where sipc2.c stands.
pub data Asker : Type 0 where
  write_request set_flag wait_clear print_reply returned : Asker

-- `*pInt`, what lies at `pData`, whether the segment is marked for removal, and the processes.
pub record Segment : Type 0 where
  pub flag : ℕ
  pub text : Message
  pub removed : Bool
  pub answerer : Answerer
  pub asker : Asker
  pub printed1 : List Message
  pub printed2 : List Message

unfoldable pub answerer_at : ℕ → Answerer → Segment → Option Segment
answerer_at self wait_flag s =
    if s.flag == 0 then none else some (record s { answerer = print_request })
answerer_at self print_request s =
    some (record s { printed1 = s.printed1 ++ (s.text ∷ []); answerer = write_reply })
answerer_at self write_reply s = some (record s { text = reply self; answerer = clear_flag })
answerer_at self clear_flag s = some (record s { flag = 0; answerer = remove })
answerer_at self remove s = some (record s { removed = true; answerer = returned })
answerer_at self returned s = none

unfoldable pub asker_at : ℕ → Asker → Segment → Option Segment
asker_at self write_request s = some (record s { text = request self; asker = set_flag })
asker_at self set_flag s = some (record s { flag = 1; asker = wait_clear })
asker_at self wait_clear s = if s.flag == 1 then none else some (record s { asker = print_reply })
asker_at self print_reply s =
    some (record s { printed2 = s.printed2 ++ (s.text ∷ []); asker = returned })
asker_at self returned s = none

-- sipc1.c as process `self`.
abbrev pub flag_answer : ℕ → Segment → Option Segment
flag_answer self s = answerer_at self s.answerer s

-- sipc2.c as process `self`.
abbrev pub flag_ask : ℕ → Segment → Option Segment
flag_ask self s = asker_at self s.asker s

-- A new segment, which is zero, attached by both processes.
abbrev pub flag_start : Segment
flag_start = record {
  flag = 0;
  text = blank;
  removed = false;
  answerer = wait_flag;
  asker = write_request;
  printed1 = [];
  printed2 = [];
}
