-- ===== src/Main/Server.antt =====
-- What the callbacks of a poll do to the settings.
use panog2_ldr.Base.{ℕ, ◌≡◌, refl, sym, ◌∙◌, arith, List, [], ◌∷◌, ◌==◌, if◌then◌else◌}
use panog2_ldr.Spi.{Spi}
use panog2_ldr.Console.{Console}
use panog2_ldr.Cmd.{Parser}
use panog2_ldr.Main.{
  World, Callback, accepted, accept_failed, failed, ticked, received, acked, Link, Shell,
  tcp_accept, callback, net_poll,
}

-- The addresses of the connections that were accepted, the first one first.
unfoldable pub peers : List Callback → List ℕ
peers [] = []
peers (accepted ip ∷ cs) = ip ∷ peers cs
peers (c ∷ cs) = peers cs

-- The first address that is not 0.
unfoldable pub first_set : List ℕ → ℕ
first_set [] = 0
first_set (a ∷ bs) = let rest = first_set bs in if a == 0 then rest else a

first_set-skips :
    (a b : ℕ) (bs : List ℕ) → first_set (a ∷ b ∷ bs) ≡ first_set ((if a == 0 then b else a) ∷ bs)
unfolding first_set
first_set-skips a b bs = ground arith

-- A poll, whatever lwIP calls in it, leaves the flash and both auto boot settings as they are; the TFTP
-- server stays where one is set, and otherwise becomes the peer of the first connection.
pub net_poll-server :
    (spi : Spi) (con : Console) (parser : Parser) (link : Link con.Net)
    (shell : Shell spi.Flash con.Net) (cs : List Callback) (w : World spi.Flash con.Net)
    → let v = net_poll spi con parser link shell cs w in
      (v.sys.ldr.server_ip ≡ first_set (w.sys.ldr.server_ip ∷ peers cs))
      × (v.sys.flash ≡ w.sys.flash)
      × (v.sys.auto_boot ≡ w.sys.auto_boot)
      × (v.sys.auto_boot_adr ≡ w.sys.auto_boot_adr)
unfolding net_poll callback tcp_accept peers
net_poll-server spi con parser link shell [] w =
    (unfold first_set in ground arith, refl, refl, refl)
net_poll-server spi con parser link shell (accepted ip ∷ cs) w =
    let (server, flash, mode, adr) =
      net_poll-server spi con parser link shell cs (tcp_accept spi con parser link shell ip w) in
    (server ∙ sym (first_set-skips w.sys.ldr.server_ip ip (peers cs)), flash, mode, adr)
net_poll-server spi con parser link shell (accept_failed ∷ cs) w =
    net_poll-server spi con parser link shell cs w
net_poll-server spi con parser link shell (failed ∷ cs) w =
    net_poll-server spi con parser link shell cs w
net_poll-server spi con parser link shell (ticked ∷ cs) w =
    net_poll-server spi con parser link shell cs (callback spi con parser link shell ticked w)
net_poll-server spi con parser link shell (received p ∷ cs) w =
    net_poll-server spi con parser link shell cs (callback spi con parser link shell (received p) w)
net_poll-server spi con parser link shell (acked n ∷ cs) w =
    net_poll-server spi con parser link shell cs (callback spi con parser link shell (acked n) w)
