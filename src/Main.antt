-- ===== src/Main.antt =====
-- The main loop of fw/pano_ldr/main.c, with `TcpAccept`.
pub mod Setup
pub mod Table
pub mod Line
pub mod Ahead
pub mod Invariant
pub mod Server
pub mod Dispatch
pub mod Persist
pub mod Typed
pub mod Flashed
pub mod Checked
pub mod Kept
use panog2_ldr.Base.{
  ℕ, ◌+◌, Bool, true, false, not, ◌&&◌, List, [], ◌∷◌, Option, none, some, bit_and, ◌==◌,
  if◌then◌else◌, Outcome, returns, ◌>>=◌,
}
use panog2_ldr.Spi.{Spi}
use panog2_ldr.Tftp.{Client}
use panog2_ldr.Console.{Console, version, prompt}
use panog2_ldr.Cmd.{Result, Sys, Parser, auto_boot_off, re_boot, say}
use panog2_ldr.Cmd.Transfer.{Event}
use panog2_ldr.Rx.{Rx, Echo, Input, tcp_recv}
use panog2_ldr.Led.{Lamps, update_leds}
use panog2_ldr.Print
use panog2_ldr.Print.{NetPrint, Tcp, poll}
use panog2_ldr.Boot.{button_pressed}
use panog2_ldr.Main.Table.{Command, command_table, execute}

-- ETH_STATUS_LINK_UP and ETH_STATUS_LINK_SPEED.
abbrev pub eth_status_link_up : ℕ
eth_status_link_up = 0x20

abbrev pub eth_status_link_speed : ℕ
eth_status_link_speed = 0xc0

abbrev pub link_bits : ℕ
link_bits = 0xe0

abbrev pub is_link_up : ℕ → Bool
is_link_up status = not (bit_and status eth_status_link_up == 0)

-- The texts for SPEED_1000MBPS, SPEED_100MBPS, SPEED_10MBPS and SPEED_UNSPECIFIED, and the default.
pub data Speed : Type 0 where
  speed_1000 speed_100 speed_10 speed_unspecified speed_other : Speed

abbrev pub speed_of : ℕ → Speed
speed_of bits =
    if bits == 0x80
    then speed_1000
    else if bits == 0x40
    then speed_100
    else if bits == 0
    then speed_10
    else if bits == 0xc0
    then speed_unspecified
    else speed_other

-- What the loop writes to the serial port.
pub data Notice : Type 0 where
  link_is_up : Speed → Notice
  link_is_down address_assigned : Notice

-- The globals: those that the commands share, the telnet line, the LEDs, `gEthStatus`, `bHaveIP`,
-- `gSendWelcome`; which of `netif_set_link_up` and `netif_set_link_down` was called last; and the serial
-- output, the last notice first.
pub record World (F N : Type 0) : Type 0 where
  pub sys : Sys F N
  pub rx : Rx
  pub lamps : Lamps
  pub eth_status : ℕ
  pub have_ip : Bool
  pub send_welcome : Bool
  pub netif_link : Bool
  pub serial : List Notice

-- The calls of lwIP in a poll: `TcpAccept` of a new connection with its remote address, or of an error,
-- `TcpRecv` of a packet or of NULL, `TcpError`, `TcpPoll`, and `TcpSent`.
pub data Callback : Type 0 where
  accepted : ℕ → Callback
  accept_failed failed ticked : Callback
  received : Option (List ℕ) → Callback
  acked : ℕ → Callback

-- The network side of the callbacks: that of `TcpAccept` (`gTcpCon = newpcb`, the counters of
-- `gNetPrint` at 0, and lwIP's calls), `gTcpCon = NULL`, `TcpPoll` and `TcpSent`.
pub record Link (N : Type 0) : Type 0 where
  pub open_con : N → N
  pub hang_up : N → N
  pub tick : N → N
  pub sent : ℕ → N → N

-- Those of the transmit buffer.
abbrev pub link_of : Tcp → Link NetPrint
link_of tcp = record {
  open_con = poll tcp Print.opened;
  hang_up = poll tcp Print.closed;
  tick = poll tcp Print.ticked;
  sent = λ n. poll tcp (Print.acked n);
}

-- common/cmd_parser.c, which the sources only call: `ParseCmd` of a table whose functions are given, on
-- the bytes of `gRxBuf`, with the bytes that it leaves there; and `HelpCmd`.
pub record Shell (F N : Type 0) : Type 0 where
  pub parse_cmd :
      List (List ℕ × Command)
      → (Command → List ℕ → Sys F N → Outcome (Result × Sys F N))
      → List ℕ
      → Sys F N
      → Outcome (List ℕ × Sys F N)
  pub help : N → N

-- What one turn of the loop meets: GPIO_INPUT, `timer_now`, `dhcp_supplied_address` for the LEDs and for
-- the serial port, the calls of lwIP in the poll, ETH_STATUS, what a transfer command of the turn meets,
-- and the packets that the polls of a command bring.
pub record Turn : Type 0 where
  pub button : ℕ
  pub now : ℕ
  pub has_address : Bool
  pub polled : List Callback
  pub status : ℕ
  pub gets_address : Bool
  pub client : Client
  pub transfer : List Event
  pub typed : List (List ℕ)

module _ (spi : Spi) (con : Console) (parser : Parser) (link : Link con.Net)
    (shell : Shell spi.Flash con.Net) where
  abbrev pub Globals : Type 0
  Globals = World spi.Flash con.Net

  abbrev pub echo_of : Echo
  echo_of = record { Net = con.Net; puts = con.puts; hang_up = link.hang_up }

  abbrev pub say_to : Globals → con.Net → Globals
  say_to w n = record w { sys = record w.sys { net = n } }

  -- `TcpAccept` of a new connection. Without a server, the peer becomes the TFTP server.
  unfoldable pub tcp_accept : ℕ → Globals → Globals
  tcp_accept ip w = record w {
    sys = record w.sys {
      net = link.open_con w.sys.net;
      ldr = record w.sys.ldr {
        server_ip = if w.sys.ldr.server_ip == 0 then ip else w.sys.ldr.server_ip;
      };
    };
    rx = record w.rx { input_ready = false; rx_count = 0 };
    send_welcome = true;
  }

  abbrev pub tcp_recv_on : Option (List ℕ) → Globals → Globals
  tcp_recv_on p w =
      let t = tcp_recv echo_of p (record { rx = w.rx; net = w.sys.net }) in
      record w { sys = record w.sys { net = t.net }; rx = t.rx }

  unfoldable pub callback : Callback → Globals → Globals
  callback (accepted ip) w = tcp_accept ip w
  callback accept_failed w = w
  callback failed w = w
  callback ticked w = say_to w (link.tick w.sys.net)
  callback (received p) w = tcp_recv_on p w
  callback (acked n) w = say_to w (link.sent n w.sys.net)

  -- `pano_netif_poll`, by the calls that lwIP makes in it.
  unfoldable pub net_poll : List Callback → Globals → Globals
  net_poll [] w = w
  net_poll (c ∷ cs) w = net_poll cs (callback c w)

  -- `if(gAutoBoot == AUTOBOOT_OFF && ButtonPressed())`
  unfoldable pub check_button : Turn → Globals → Globals
  check_button i w =
      if w.sys.auto_boot == auto_boot_off && button_pressed i.button
      then record w { sys = re_boot w.sys.auto_boot_adr w.sys }
      else w

  unfoldable pub show_leds : Turn → Globals → Globals
  show_leds i w = record w {
    lamps =
        update_leds
          (record {
            now = i.now;
            connected = con.connected w.sys.net;
            link_up = is_link_up w.eth_status;
            has_address = i.has_address;
          })
          w.lamps;
  }

  -- The change of the link.
  unfoldable pub check_link : Turn → Globals → Globals
  check_link i w =
      let new = bit_and i.status link_bits in
      let up = is_link_up new in
      let notice : Notice =
        if up then link_is_up (speed_of (bit_and new eth_status_link_speed)) else link_is_down in
      if w.eth_status == new
      then w
      else record w { eth_status = new; netif_link = up; serial = notice ∷ w.serial }

  unfoldable pub check_address : Turn → Globals → Globals
  check_address i w =
      if not w.have_ip && is_link_up w.eth_status && i.gets_address
      then record w { have_ip = true; serial = address_assigned ∷ w.serial }
      else w

  unfoldable pub welcome : Globals → Globals
  welcome w =
      if w.send_welcome
      then say_to (record w { send_welcome = false })
          (con.print prompt (con.print version w.sys.net))
      else w

  -- What packets that come while a command runs do to the line; what they echo is the console's.
  unfoldable pub type_ahead : List (List ℕ) → con.Net → Rx → Rx
  type_ahead [] n r = r
  type_ahead (p ∷ ps) n r =
      type_ahead ps n (tcp_recv echo_of (some p) (record { rx = r; net = n })).rx

  -- `if(gInputReady)`
  unfoldable pub run_line : Turn → Globals → Outcome Globals
  run_line i w =
      let taken = record w.rx { input_ready = false } in
      let ran : Outcome Globals = do
        (left, s) ←
            shell.parse_cmd command_table (execute spi con parser shell.help i.client i.transfer)
              w.rx.rx_buf w.sys
        let r = type_ahead i.typed s.net (record taken { rx_buf = left })
        returns (record w {
          sys = record s { net = con.print prompt s.net };
          rx = record r { rx_count = 0 };
        })
      in if w.rx.input_ready then ran else returns w

  -- One turn of `for(; ; )`.
  unfoldable pub turn : Turn → Globals → Outcome Globals
  turn i w = run_line i (
      welcome (check_address i (check_link i (net_poll i.polled (show_leds i (check_button i w))))))

  unfoldable pub turns : List Turn → Globals → Outcome Globals
  turns [] w = returns w
  turns (i ∷ is) w = turn i w >>= turns is
