-- ===== src/Webvpn/Guard/Tests.antt =====
-- The guard's theorems at concrete addresses.
use wvpn.Base.{◌≡◌, refl, false, [], ok, none}
use wvpn.Text.{Bytes, codes}
use wvpn.Net.{
  v6, is_valid, unmap, is_unspecified, is_link_local_unicast, is_link_local_multicast, is_multicast,
  is_interface_local_multicast, is_loopback, is_private,
}
use wvpn.Webvpn.Guard.{Guard, check_addr}

abbrev closed : Guard
closed = record { allow_private = false; allow_hosts = []; deny_hosts = []; site = none }

-- The unspecified address in a zone.
abbrev zoned : Bytes
zoned = codes "eth0"

zoned_run : check_addr closed (v6 0 zoned) ≡ ok tt
unfolding check_addr is_valid unmap is_unspecified is_link_local_unicast is_link_local_multicast
    is_multicast is_interface_local_multicast is_loopback is_private
zoned_run = refl
