-- ===== src/Tests.antt =====
-- Runs of the model on concrete inputs, with a toy `double`, the natural numbers.
mod Queues
mod Times
mod Locks
mod Switches
mod Sessions
mod Flow
mod Packets
mod Interface
mod Kernel
mod Devices
mod Names
mod Waits
mod Timers
mod Basics
use ip_noise.Common.{ℕ, ◌+◌, ◌-◌, ◌*◌, ◌/◌, List, [], ◌∷◌, ltb, leb, get_or}
use ip_noise.Common.Int.{pos, pos_part}
use ip_noise.Model.{Externals, lt}

-- Externals that compute.
abbrev pub toy : Externals
toy = record {
  Double = ℕ;
  lt = ltb;
  le = leb;
  add = λ a b. a + b;
  sub = λ a b. a - b;
  mul = λ a b. a * b;
  div = λ a b. a / b;
  of_int = pos_part;
  to_int = pos;
  neg_log = λ a. a;
  prob_delta = 0;
  decode = λ bytes. get_or bytes 0 0;
  Names = List (List ℕ × ℕ);
  no_names = [];
  add_name = λ names name n. (name, n) ∷ names;
  copy_names = λ names. names;
  indeterminate = 7;
}

-- A buffer with the bytes, and zeros behind them.
abbrev pub buffer_of : List ℕ → ℕ → ℕ
buffer_of bytes i = get_or bytes i 0
