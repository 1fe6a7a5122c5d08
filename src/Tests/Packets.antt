-- ===== src/Tests/Packets.antt =====
-- The packet logic.
use Prim.Native.Nat.{Ordering}
use mathlib.Core.Path.{subst}
use ip_noise.BinarySearch.Laws.{IsOrdered}
use ip_noise.Common.{
  ℕ, zero, suc, ◌≡◌, refl, none, some, List, [], ◌∷◌, arith, get_elem?, replicate, get_elem?-lt,
}
use ip_noise.Common.Int.{pos}
use ip_noise.Model.{IpSpec, between, ChainFilter, no_delay, Point, unset, Chain, Env}
use ip_noise.Packet.Decide.{decide}
use ip_noise.Packet.Decide.Refinement.{decide_rules, decide-decide_rules}
use ip_noise.Packet.Delay.{compare_points, split_linear_delay}
use ip_noise.Packet.Delay.Laws.{split_linear_delay-below}
use ip_noise.Packet.Filter.{is_in_ip_filter}
use ip_noise.Packet.Filter.Laws.{Decides, Allows, is_in_ip_filter-Decides}
use ip_noise.Packet.Info.{PacketInfo}
use ip_noise.Tests.{toy}

abbrev web : IpSpec
web = record { ip = 0x0A000001; net_mask = 8; port_ranges = record { start = 80; end = 90 } ∷ [] }

is_in_ip_filter-Decides_example :
    Decides
      (Allows (some web ∷ []) 0x0A000077 (some 85))
      (is_in_ip_filter (some web ∷ []) 0x0A000077 (some 85))
is_in_ip_filter-Decides_example =
    is_in_ip_filter-Decides (some web ∷ []) 0x0A000077 (some 85) (omega arith, tt)

abbrev from_web : ChainFilter
from_web = record {
  source = some web ∷ [];
  dest = [];
  protocols = replicate 32 255;
  tos = replicate 8 255;
  min_packet_len = 100;
  max_packet_len = 200;
  which_packet_len = between;
}

abbrev packet : ℕ → PacketInfo
packet tos = record {
  source_ip = 0x0A000077;
  dest_ip = 0x0B000001;
  tos = tos;
  protocol = 6;
  length = 150;
  source_port = some 85;
  dest_port = some 4000;
}

-- A chain with one state that drops every packet.
abbrev dropping : Chain toy
dropping = record {
  name = none;
  max_num_states = 16;
  states =
      record {
        name = [];
        drop_prob = 1;
        delay_prob = 0;
        delay_type = no_delay;
        delay_params = unset;
        time_factor = 1000;
        move_tos = 1 ∷ [];
        stable_delay_prob = 0;
      }
      ∷ [];
  current_state = some 0;
  filter = from_web;
  last_packet_release_time = record { sec = pos 0; usec = pos 0 };
  state_names = [];
}

abbrev quiet : Env
quiet = record {
  draws = λ i. 0;
  drawn = 0;
  times = λ i. record { sec = pos i; usec = pos 0 };
  timed = 0;
}

decide-decide_rules_example :
    decide toy (dropping ∷ dropping ∷ []) (packet 16) quiet
    ≡ decide_rules toy (dropping ∷ dropping ∷ []) (packet 16) quiet
decide-decide_rules_example = decide-decide_rules toy (dropping ∷ dropping ∷ []) (packet 16) quiet

abbrev one_point : List (Point toy)
one_point = record { prob = 5; delay = 10 } ∷ []

one_point-above :
    (i : ℕ) (q : Point toy) → get_elem? one_point i ≡ some q → compare_points toy 3 q ≡ Ordering.lt
unfolding compare_points
one_point-above zero q e =
    let same : record { prob = 5; delay = 10 } ≡ q = cc in
    subst (λ r. compare_points toy 3 r ≡ Ordering.lt) same refl
one_point-above (suc i) q e = cc

one_point-IsOrdered : IsOrdered (compare_points toy 3) one_point
one_point-IsOrdered = record {
  below = λ i j l p q h. absurd (omega (arith, get_elem?-lt one_point j q));
  above = λ i j l p q h. absurd (omega (arith, get_elem?-lt one_point j q));
}

split_linear_delay-below_example : split_linear_delay toy one_point 3 ≡ none
split_linear_delay-below_example =
    split_linear_delay-below toy one_point 3 one_point-IsOrdered one_point-above
