-- ===== src/Switcher/Session.antt =====
-- The poll of the switcher on the data that the connections of iface.c leave in use.
use ip_noise.Common.{◌<◌, length}
use ip_noise.Iface.Connection.{Server}
use ip_noise.Iface.Sound.{AllOf}
use ip_noise.Model.{Externals, Chain, Env}
use ip_noise.PQueue.{PQueue}
use ip_noise.Switcher.{Event, Switcher}
use ip_noise.Switcher.Switch.{Bounded, Named}

module _ {x : Externals} where
  -- The chain has a state, delays that fit, and a name that is set.
  abbrev pub CanStart : Chain x → Type 0
  CanStart c = (0 < length c.states) × AllOf Bounded c.states × Named c

  -- The switcher on the data of a server.
  abbrev pub switcher_of : Server x → PQueue Event → Env → Switcher x
  switcher_of s pq env = record {
    reinit_switcher = s.reinit_switcher;
    pq = pq;
    chains = s.data_in_use.chains;
    env = env;
  }
