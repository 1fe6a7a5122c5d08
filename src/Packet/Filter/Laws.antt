-- ===== src/Packet/Filter/Laws.antt =====
-- Which addresses, ports and packets a filter lets in.
use ip_noise.Common.{
  ℕ, ◌/◌, ◌^◌, ◌≤◌, ◌<◌, ◌≡◌, refl, ◌⊎◌, inl, inr, Bool, true, false, ◌&&◌, Option, none, some,
  List, [], ◌∷◌, arith, ◌==◌, if◌then◌else◌,
}
use ip_noise.Common.Fault.{shr32-defined}
use ip_noise.Model.{PortRange, IpSpec, IpFilter}
use ip_noise.Packet.Filter.{in_port_ranges, port_matches, match_specs, is_in_ip_filter}

-- The port is in one of the ranges; a packet with no port passes.
abbrev pub PortFits : List PortRange → Option ℕ → Type 0
PortFits rs none = Unit {0}
PortFits [] (some port) = ⊥
PortFits (r ∷ rs) (some port) = (r.start ≤ port) × (port ≤ r.end) ⊎ PortFits rs (some port)

-- Some component has the packet's address, but for its `net_mask` low bits, and the port.
abbrev pub Admits : IpFilter → ℕ → Option ℕ → Type 0
Admits [] ip port = ⊥
Admits (none ∷ f) ip port = Admits f ip port
Admits (some s ∷ f) ip port =
    (s.ip / 2 ^ s.net_mask ≡ ip / 2 ^ s.net_mask) × PortFits s.port_ranges port ⊎ Admits f ip port

-- Every component was set, with a shift that C defines.
abbrev pub IsUsable : IpFilter → Type 0
IsUsable [] = Unit {0}
IsUsable (none ∷ f) = ⊥
IsUsable (some s ∷ f) = (s.net_mask < 32) × IsUsable f

-- An answer that decides `P`.
pub data Decides (P : Type 0) : Option Bool → Type 0 where
  accepts : P → Decides P (some true)
  refuses : ¬ P → Decides P (some false)

in_port_ranges-PortFits :
    (rs : List PortRange) (port : ℕ)
    → (in_port_ranges rs port ≡ true → PortFits rs (some port))
      × (PortFits rs (some port) → in_port_ranges rs port ≡ true)
unfolding in_port_ranges
in_port_ranges-PortFits [] port = ((λ h. cc), λ h. absurd h)
in_port_ranges-PortFits (r ∷ rs) port = ground (arith, in_port_ranges-PortFits rs port)

port_matches-PortFits :
    (s : IpSpec) (port : Option ℕ)
    → (port_matches s port ≡ true → PortFits s.port_ranges port)
      × (PortFits s.port_ranges port → port_matches s port ≡ true)
unfolding port_matches
port_matches-PortFits s none = ((λ h. tt), λ h. refl)
port_matches-PortFits s (some port) = in_port_ranges-PortFits s.port_ranges port

Decides-or :
    {P Q : Type 0} {r : Option Bool} (b : Bool)
    → (b ≡ true → P)
    → (P → b ≡ true)
    → Decides Q r
    → Decides (P ⊎ Q) (if b then some true else r)
Decides-or true f g d = accepts (inl (f refl))
Decides-or false f g (accepts q) = accepts (inr q)
Decides-or false f g (refuses n) = refuses (λ h. ground arith)

match_specs-Decides :
    (f : IpFilter) (ip : ℕ) (port : Option ℕ)
    → IsUsable f
    → Decides (Admits f ip port) (match_specs f ip port)
unfolding match_specs
match_specs-Decides [] ip port u = refuses (λ h. h)
match_specs-Decides (none ∷ f) ip port u = absurd u
match_specs-Decides (some s ∷ f) ip port (small, u) =
    rw (shr32-defined s.ip s.net_mask small, shr32-defined ip s.net_mask small)
      (Decides-or (s.ip / 2 ^ s.net_mask == ip / 2 ^ s.net_mask && port_matches s port)
        (λ h. ground (arith, port_matches-PortFits s port))
        (λ h. ground (arith, port_matches-PortFits s port)) (match_specs-Decides f ip port u))

-- The addresses and the port that a filter lets in: any of them, if the filter is NULL.
abbrev pub Allows : IpFilter → ℕ → Option ℕ → Type 0
Allows [] ip port = Unit {0}
Allows (n ∷ f) ip port = Admits (n ∷ f) ip port

-- A usable filter, one whose components are set and have shifts below 32, is decided without a
-- fault: it lets a packet in exactly when the filter is NULL or one of its components has the
-- address, but for the low `net_mask` bits, and, if the packet has a port, a range with the port.
pub is_in_ip_filter-Decides :
    (f : IpFilter) (ip : ℕ) (port : Option ℕ)
    → IsUsable f
    → Decides (Allows f ip port) (is_in_ip_filter f ip port)
unfolding is_in_ip_filter
is_in_ip_filter-Decides [] ip port u = accepts tt
is_in_ip_filter-Decides (n ∷ f) ip port u = match_specs-Decides (n ∷ f) ip port u
