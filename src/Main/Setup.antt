-- ===== src/Main/Setup.antt =====
-- The set-up of lwIP in fw/pano_ldr/main.c: `pano_netif_init`, `init_default_netif` and `TcpInit`.
use panog2_ldr.Base.{ℕ, Bool, List, [], ◌∷◌, if◌then◌else◌}
use panog2_ldr.Tftp.{Err, err_ok}

-- NETIF_FLAG_BROADCAST and so on, which are lwIP's.
pub data Flag : Type 0 where
  broadcast etharp ethernet igmp mld6 : Flag

-- The fields of `struct netif` that the sources set. `linkoutput` is `pano_netif_output`, and `output`
-- lwIP's `etharp_output`.
pub record Netif : Type 0 where
  pub mtu : ℕ
  pub flags : List Flag
  pub hwaddr : List ℕ
  pub name : List ℕ
  pub hostname : List ℕ

-- MAC_ADR
abbrev pub mac_adr : List ℕ
mac_adr = 0x00 ∷ 0x1c ∷ 0x02 ∷ 0x70 ∷ 0x1d ∷ 0x5d ∷ []

pub pano_netif_init : Netif → Netif
pano_netif_init n = record n {
  mtu = 1500;
  flags = broadcast ∷ etharp ∷ ethernet ∷ igmp ∷ mld6 ∷ [];
  hwaddr = mac_adr;
}

-- lwIP's answers: of `netif_add`, which calls `pano_netif_init`, `dhcp_start`, `tcp_new_ip_type` and
-- `tcp_bind`.
pub record Stack : Type 0 where
  pub adds : Bool
  pub dhcp : Err
  pub new_pcb : Bool
  pub binds : Err

-- How far `init_default_netif` gets: the interface is missing, or it is the default and up, and DHCP has
-- started or not.
pub data NetState : Type 0 where
  missing : NetState
  up_without_dhcp up_with_dhcp : Netif → NetState

abbrev pub named : Netif → Netif
named n = record n {
  name = 101 ∷ 116 ∷ [];
  hostname = 112 ∷ 97 ∷ 110 ∷ 111 ∷ 95 ∷ 108 ∷ 100 ∷ 114 ∷ [];
}

pub init_default_netif : Stack → Netif → NetState
init_default_netif stack n =
    if stack.adds
    then elim stack.dhcp [
      | err_ok ↦ up_with_dhcp (named (pano_netif_init n))
      | _ ↦ up_without_dhcp (named (pano_netif_init n))
    ]
    else missing

-- `gTCP_pcb`: NULL, bound to no port, or listening on a port with `TcpAccept` as its callback.
pub data Listener : Type 0 where
  null unbound : Listener
  listening : ℕ → Listener

abbrev pub telnet_port : ℕ
telnet_port = 23

pub tcp_init : Stack → Listener
tcp_init stack =
    if stack.new_pcb
    then elim stack.binds [ err_ok ↦ listening telnet_port | _ ↦ unbound ]
    else null
