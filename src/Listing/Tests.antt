-- ===== src/Listing/Tests.antt =====
-- mylsl.c, in a directory of two files.
use linux_system_programming.Prelude.Text.{codes}
use linux_system_programming.Prelude.Int.{pos, negsuc}
use linux_system_programming.Servers.Message.{decimal}
use linux_system_programming.Listing.Number.{other_digits, turn_round, ch_digits, ch_int}
use linux_system_programming.Listing.Number.Laws.{ch_int-decimal}
use linux_system_programming.Prelude.{
  ◌≡◌, refl, true, false, none, some, [], ◌∷◌, ◌++◌, map, if◌then◌else◌, ◌==◌,
}
use linux_system_programming.Prelude.Text.{same_name}
use linux_system_programming.Listing.{
  regular, Mode, Stat, Machine, permissions, finished, kind_letter, bit_letter, run_letter, is_dot,
  total_blocks, long_listing,
}
use linux_system_programming.Listing.Laws.{
  read_mode, read_mode-permissions, File, Files, no_names, dot_name, file_name, sum_blocks, shown,
  long_listing-Files,
}

-- A program that runs as its owner and may be read by its group.
abbrev tool_mode : Mode
tool_mode = record {
  kind = regular;
  rusr = true;
  wusr = true;
  xusr = true;
  rgrp = true;
  wgrp = false;
  xgrp = false;
  roth = false;
  woth = false;
  xoth = false;
  isuid = true;
  isgid = false;
}

abbrev tool : Stat
tool = record {
  st_mode = tool_mode;
  st_nlink = 1;
  st_uid = 7;
  st_gid = 7;
  st_size = 3000;
  st_mtime = 0;
  st_blocks = 8;
}

-- A file of a user that no longer exists.
abbrev orphan : Stat
orphan = record tool { st_uid = 99; st_blocks = 16 }

abbrev machine : Machine
machine = record {
  opendir = some ("." ∷ "tool" ∷ ".." ∷ []);
  lstat = λ name.
      if same_name name "tool"
      then some tool
      else (if same_name name "orphan" then some orphan else none);
  getpwuid = λ uid. if uid == 7 then some "kim" else none;
  getgrgid = λ gid. if gid == 7 then some "staff" else none;
  localtime = λ mtime. record { tm_mon = 0; tm_mday = 1; tm_hour = 9; tm_min = 0 };
}

abbrev tool_file : File
tool_file = record { name = "tool"; stat = tool; user = "kim"; group = "staff" }

Files-of_machine : Files machine ("." ∷ "tool" ∷ ".." ∷ []) (tool_file ∷ [])
unfolding is_dot
Files-of_machine = dot_name refl (file_name tool_file refl refl refl refl (dot_name refl no_names))

-- "-rwsr-----"
permissions-tool :
    permissions tool_mode ≡ b'-' ∷ b'r' ∷ b'w' ∷ b's' ∷ b'r' ∷ b'-' ∷ b'-' ∷ b'-' ∷ b'-' ∷ b'-' ∷ []
unfolding permissions kind_letter bit_letter run_letter
permissions-tool = refl

read_mode-permissions_example : read_mode (permissions tool_mode) ≡ some tool_mode
read_mode-permissions_example = read_mode-permissions tool_mode

long_listing-Files_example : long_listing machine ≡ record {
  total = some (sum_blocks (tool_file ∷ []));
  lines = map (shown machine) (tool_file ∷ []);
  ending = finished;
}
long_listing-Files_example =
    long_listing-Files machine ("." ∷ "tool" ∷ ".." ∷ []) (tool_file ∷ []) refl Files-of_machine

-- A file that has gone between the reading of its name and `lstat`.
abbrev gone : Machine
gone = record machine { opendir = some (("tool" ∷ []) ++ ("gone" ∷ [])) }

gone-lstat : (is_dot "gone" ≡ false)
unfolding is_dot
gone-lstat = refl

abbrev orphaned : Machine
orphaned = record machine { opendir = some (("tool" ∷ []) ++ ("orphan" ∷ [])) }

tool_first : Files orphaned ("tool" ∷ []) (tool_file ∷ [])
unfolding is_dot
tool_first = file_name tool_file refl refl refl refl no_names

orphan_visible : is_dot "orphan" ≡ false
unfolding is_dot
orphan_visible = refl

orphaned_total : total_blocks orphaned (("tool" ∷ []) ++ ("orphan" ∷ [])) 0 ≡ some 24
unfolding total_blocks is_dot
orphaned_total = refl

ch_int-4096 : ch_int (pos 4096) ≡ codes "4096"
unfolding ch_int ch_digits other_digits turn_round
ch_int-4096 = refl

-- A number below 0 gives one wrong character.
ch_int-negative : ch_int (negsuc 41) ≡ codes "."
unfolding ch_int ch_digits turn_round
ch_int-negative = refl

ch_int-decimal_example : ch_int (pos 4096) ≡ decimal 4096
ch_int-decimal_example = ch_int-decimal 4096
