-- ===== src/Lib.antt =====
-- The loader of the Pano Logic G2 (fw/pano_ldr): a program in the FPGA that keeps settings in a data block
-- of the SPI flash, listens for a telnet connection, and programs, saves, verifies, dumps, erases and maps
-- the flash by commands, with files from a TFTP server.
--
-- The parts, and the files that model them:
--   * Rand: fw/pano_ldr/rand.c, and `lwip_port_rand` of fw/pano_ldr/main.c.
--   * Spi: the SPI flash driver as the sources call it, a parameter: `Spi` is its interface, and `IsNor`
--     what its callers rely on (a read shows the stored bytes, erasing sets a sector to 0xff, a write
--     clears bits). Spi/Nor is a chip that meets it.
--   * Tftp: fw/pano_ldr/tftp_ldr.c and .h, the callbacks of lwIP's TFTP client. `Ldr` is
--     `tftp_ldr_internal`, and `Io` adds the bytes at `Ram` and the flash. Each callback is a function on
--     `Io`; `none` is a call with more bytes than the buffer holds. What lwIP answers is `Client`.
--   * Board: `ParseDataBlock`, `AddBoardInfo` and `CheckEmpty` of main.c, on `Board`: the settings, `gTemp`
--     and the flash. `fault` is an access past the end of `gTemp`, `no_fuel` a loop that is not done.
--     Board/Store is the map from tags to words that the entries of a block stand for.
--   * Rx: `TcpRecv`, on `gRxBuf`, `gRxCount` and `gInputReady`.
--   * Console: what is printed, `NetDumpHex`, and the interface to the telnet output.
--   * Print: the transmit buffer `gNetPrint`: `NetPrintFillPcb`, `TcpSent`, `TcpPoll`, `NetPuts`,
--     `NetPrintf`, `SendPrompt` and `NetWaitBufEmptyInternal`, whose polls bring a list of events.
--   * Ether: `pano_netif_output`, `pano_netif_poll` and `ClearRxFifo`, with the FIFO registers as lists, and
--     the size of a buffer of lwIP's pool, which fw/pano_ldr/lwipopts.h sets.
--   * Boot: `main` up to `lwip_init`: the LEDs, the data block, and the boot decision on the looks that it
--     takes at the button.
--   * Main: the main loop of `main`, turn by turn, with `TcpAccept`. `World` holds the globals, and `Turn`
--     what a turn meets: the registers, the time, and the calls of lwIP in its poll. Main/Table is
--     `gCmdTable`, and Main/Setup the set-up of lwIP. `ParseCmd` is a parameter, which is given the table
--     and its functions; Main/Dispatch says what is relied on: that it calls the function of the entry
--     whose name is the first word of the line.
--   * Uptime: `sys_now`.
--   * Cmd: the command handlers, on `Sys`, the globals that they share. Cmd/Settings: `AutoBootCmd`,
--     `AutoEraseCmd`, `BootAdrCmd`, `TftpCmd`, `ExitCmd`, `RebootCmd`. Cmd/Transfer: `GetTftpTransferVals`,
--     `TftpTranserWait`, `FlashCmd`, `SaveCmd`, `VerifyCmd`; what `save` hands to the TFTP client is read off
--     the events of its wait by `handed`. Cmd/Sectors: `DumpCmd`, `EraseCmd`, `MapCmd`.
--   * Led: `UpdateLEDs`, and the LED bits of the GPIO output.
--   * Base: Boolean tests, lists, words, bits, bytes of a memory, and outcomes. Tests: concrete inputs.
--
-- The commands call the data block functions on the globals that both use, and start transfers, whose
-- callbacks run while `TftpTranserWait` polls: the wait takes the list of what the polls bring. A turn of
-- the main loop hands the packets of its poll to `tcp_recv`, and a line that is ready to `ParseCmd` with
-- the commands; the settings that a command leaves in the flash are what the next start reads.
--
-- Numbers are natural numbers, and every unsigned 32-bit or 16-bit sum of the code has its wrap-around
-- written out; the signed counters (`BytesTransfered`, those of `gNetPrint`) are taken not to overflow.
-- The loop of `ParseDataBlock` runs on a fuel of 129, one turn more than 1024 / 8 entries, the loop of
-- `recv_loop` on the length of the packet, and the loops of `dump`, `erase` and `map` on one more than the
-- length, the end address and the flash size.
--
-- Not modelled: lwIP and common/cmd_parser.c (what the sources call of them are parameters); log output,
-- but for the main loop's; the help texts of `gCmdTable`; connections that come or go while a command
-- runs (packets are modelled, and those that come in the polls of a prompt or a welcome count as the next
-- turn's); the other constants of fw/pano_ldr/lwipopts.h, fw/pano_ldr/arch/cc.h and the SPIFFS headers,
-- which only lwIP and SPIFFS read; and the FPGA design.
pub mod Base
pub mod Rand
pub mod Spi
pub mod Tftp
pub mod Board
pub mod Console
pub mod Cmd
pub mod Led
pub mod Rx
pub mod Tests
pub mod Print
pub mod Ether
pub mod Uptime
pub mod Boot
pub mod Main
