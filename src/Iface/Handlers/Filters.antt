-- ===== src/Iface/Handlers/Filters.antt =====
-- The handlers that change the filter of a chain.
use ip_noise.Common.{ℕ, Bool}
use ip_noise.Common.Int.{ℤ}
use ip_noise.Iface.Handlers.Access.{Reply, change_filter}
use ip_noise.Iface.Monad.{M}
use ip_noise.Mask.{change_mask}
use ip_noise.Model.{Externals, IpFilter, WhichLen}

module _ (x : Externals) where
  unfoldable pub set_source : ℤ → IpFilter → M x Reply
  unfolding change_filter
  set_source i source = change_filter x i λ f. record f { source = source }

  unfoldable pub set_dest : ℤ → IpFilter → M x Reply
  unfolding change_filter
  set_dest i dest = change_filter x i λ f. record f { dest = dest }

  unfoldable pub set_protocol : ℤ → ℕ → Bool → M x Reply
  unfolding change_filter change_mask
  set_protocol i index enable =
      change_filter x i λ f. record f { protocols = change_mask f.protocols index enable }

  unfoldable pub set_tos : ℤ → ℕ → Bool → M x Reply
  unfolding change_filter change_mask
  set_tos i index enable = change_filter x i λ f. record f { tos = change_mask f.tos index enable }

  unfoldable pub set_length_min : ℤ → ℕ → M x Reply
  unfolding change_filter
  set_length_min i len = change_filter x i λ f. record f { min_packet_len = len }

  unfoldable pub set_length_max : ℤ → ℕ → M x Reply
  unfolding change_filter
  set_length_max i len = change_filter x i λ f. record f { max_packet_len = len }

  unfoldable pub set_which_length : ℤ → WhichLen → M x Reply
  unfolding change_filter
  set_which_length i which = change_filter x i λ f. record f { which_packet_len = which }
